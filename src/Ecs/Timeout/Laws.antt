-- ===== src/Ecs/Timeout/Laws.antt =====
-- Nothing stays in progress past its budget.
use formae_plugin_aws.Prelude.Int.{ℤ, pos, ◌≤ℤ◌, ltb_ℤ, scale, ◌+ℤ◌, ◌-ℤ◌}
use formae_plugin_aws.Prelude.{
  ℕ, ◌≤◌, ◌<◌, ◌*◌, ◌-◌, ◌+◌, ◌≡◌, refl, ap, sym, subst, ◌∙◌, ◌⊎◌, inl, inr, true, false,
  Bool-cases, arith, some,
}
use formae_plugin_aws.Text.{Text}
use formae_plugin_aws.Go.{GoError}
use formae_plugin_aws.Sdk.{
  general_service_exception, Operation, failure, in_progress, ProgressResult, StatusRequest,
}
use formae_plugin_aws.Ecs.Classify.{Verdict, terminal_failure, classify_aws_error}
use formae_plugin_aws.Ecs.Timeout.{
  Time, Service, unix_time, saturate, elapsed, bounded_result, bounded_in_progress,
  in_progress_or_timeout, status_of_verdict, classify_for_status,
}

ltb_ℤ-late : (a b : ℤ) → ltb_ℤ a b ≡ true → ¬ (b ≤ℤ a)
ltb_ℤ-late a b h = λ k. ground arith

ltb_ℤ-sound : (a b : ℤ) → ltb_ℤ a b ≡ false → b ≤ℤ a
ltb_ℤ-sound a b h = ground arith

-- Where nothing overflows, until the year 2242, the time elapsed is the difference in nanoseconds.
elapsed_exact :
    (n ns a : ℕ)
    → a ≤ n
    → n ≤ 8589934592
    → ns < 1000000000
    → elapsed (record { seconds = pos n; nanos = ns }) (pos a) ≡ pos (1000000000 * (n - a) + ns)
unfolding elapsed unix_time saturate scale ◌+ℤ◌ ◌-ℤ◌
elapsed_exact n ns a h h' h'' = ground arith

module _ {ℓ} {W : Type ℓ} (s : Service W) where
  -- What a wait comes to at a reading of the clock: within the budget it goes on, with the ids by
  -- which the next poll finds it; past the budget it has failed.
  abbrev pub Bounded : Operation → StatusRequest → ℤ → ℤ → Time → ProgressResult → Type 0
  Bounded op request start budget t pr =
      (pr.operation ≡ op)
      × (((elapsed t start ≤ℤ budget)
            × ((pr.operation_status ≡ in_progress)
                × ((pr.request_id ≡ request.request_id) × (pr.native_id ≡ request.native_id))))
          ⊎ (¬ (elapsed t start ≤ℤ budget)
              × ((pr.operation_status ≡ failure)
                  × ((pr.error_code ≡ general_service_exception)
                      × (pr.native_id ≡ request.native_id)))))

  pub bounded_in_progress-Bounded :
      (op : Operation) (request : StatusRequest) (start budget : ℤ) (msg : Text) (w : W)
      → Bounded op request start budget
          (s.now w).0
          (bounded_in_progress s op request start budget msg w).0
  unfolding bounded_in_progress bounded_result terminal_failure
  bounded_in_progress-Bounded op request start budget msg w =
      let late = ltb_ℤ budget (elapsed (s.now w).0 start) in
      elim (Bool-cases late) [
        | inl e ↦
            rw e (refl, inr (ltb_ℤ-late budget (elapsed (s.now w).0 start) e, (refl, (refl, refl))))
        | inr e ↦
            rw e
              (refl, inl (ltb_ℤ-sound budget (elapsed (s.now w).0 start) e, (refl, (refl, refl))))
      ]

  -- Until the year 2242, a wait whose clock reads n seconds and ns nanoseconds, for an operation that
  -- began at the second a, goes on under the ids of the request if the nanoseconds since then are
  -- at most the budget, and has failed for good if they are more.
  pub bounded_in_progress_exact :
      (op : Operation) (request : StatusRequest) (msg : Text) (w : W) (n ns a budget : ℕ)
      → (s.now w).0 ≡ record { seconds = pos n; nanos = ns }
      → a ≤ n
      → n ≤ 8589934592
      → ns < 1000000000
      → let pr = (bounded_in_progress s op request (pos a) (pos budget) msg w).0 in
        ((1000000000 * (n - a) + ns ≤ budget)
          × ((pr.operation_status ≡ in_progress)
              × ((pr.request_id ≡ request.request_id) × (pr.native_id ≡ request.native_id))))
        ⊎ ((budget < 1000000000 * (n - a) + ns)
            × ((pr.operation_status ≡ failure)
                × ((pr.error_code ≡ general_service_exception)
                    × (pr.native_id ≡ request.native_id))))
  bounded_in_progress_exact op request msg w n ns a budget e h h' h'' =
      let since : elapsed (s.now w).0 (pos a) ≡ pos (1000000000 * (n - a) + ns) =
        ap (λ t. elapsed t (pos a)) e ∙ elapsed_exact n ns a h h' h'' in
      elim ((bounded_in_progress-Bounded op request (pos a) (pos budget) msg w).1) [
        | inl (k, ids) ↦
            inl (let k' = subst (λ x. x ≤ℤ pos budget) since k in omega (arith, k'), ids)
        | inr (k, ids) ↦
            inr (let k' = subst (λ x. ¬ (x ≤ℤ pos budget)) since k in ground (arith, k'), ids)
      ]

  -- An error on a poll: a passing one is waited for, any other one ends the operation with its code.
  abbrev pub Classified : GoError → Operation → StatusRequest → ℤ → W → ProgressResult × W → Type ℓ
  Classified err op request start w (pr, w') =
      (((classify_aws_error (some err)).1 ≡ true)
        × ((w' ≡ (s.now w).1) × Bounded op request start s.operation_timeout (s.now w).0 pr))
      ⊎ (((classify_aws_error (some err)).1 ≡ false)
          × ((w' ≡ w)
              × ((pr.operation ≡ op)
                  × ((pr.operation_status ≡ failure)
                      × (pr.error_code ≡ (classify_aws_error (some err)).0)))))

  status_of_verdict-Classified :
      (v : Verdict) (err : GoError) (op : Operation) (request : StatusRequest) (start : ℤ)
      (context : Text) (w : W)
      → classify_aws_error (some err) ≡ v
      → Classified err op request start w (status_of_verdict s v err op request start context w)
  unfolding status_of_verdict in_progress_or_timeout terminal_failure bounded_in_progress
  status_of_verdict-Classified (code, true) err op request start context w e = inl (
    ap (λ v. v.1) e,
    (refl, bounded_in_progress-Bounded op request start s.operation_timeout _ w),
  )
  status_of_verdict-Classified (code, false) err op request start context w e =
      inr (ap (λ v. v.1) e, (refl, (refl, (refl, sym (ap (λ v. v.0) e)))))

  -- What becomes of an error on a poll.
  pub classify_for_status-Classified :
      (err : GoError) (op : Operation) (request : StatusRequest) (start : ℤ) (context : Text)
      (w : W)
      → Classified err op request start w (classify_for_status s err op request start context w)
  unfolding classify_for_status
  classify_for_status-Classified err op request start context w =
      status_of_verdict-Classified (classify_aws_error (some err)) err op request start context w
        refl
