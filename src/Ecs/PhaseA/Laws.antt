-- ===== src/Ecs/PhaseA/Laws.antt =====
-- What the poll of Cloud Control's token answers, and why.
use formae_plugin_aws.Prelude.Int.{ℤ}
use formae_plugin_aws.Prelude.{
  ◌≡◌, ◌≢◌, refl, ◌⊎◌, inl, inr, Bool, true, false, ◌&&◌, Bool-cases, Option, none, some, Io, arith,
  subst, sym, ap, ◌∙◌,
}
use formae_plugin_aws.Text.{Text}
use formae_plugin_aws.Go.{GoError, Outcome, returned, panicked, succeed, deref}
use formae_plugin_aws.Go.Laws.{after_known}
use formae_plugin_aws.Sdk.{
  is_not_found, Operation, is_update, OperationStatus, success, failure, in_progress, pending,
  no_status, ProgressResult, StatusRequest, ReadRequest, ReadResult,
}
use formae_plugin_aws.Ecs.Classify.{terminal_failure, classify_aws_error}
use formae_plugin_aws.Ecs.Timeout.{
  CcxClient, Service, bounded_in_progress, in_progress_or_timeout, classify_for_status,
}
use formae_plugin_aws.Ecs.Timeout.Laws.{
  Bounded, bounded_in_progress-Bounded, classify_for_status-Classified,
}
use formae_plugin_aws.Ecs.PhaseA.{
  handle, phase_a_failure, stop, phase_a_result, phase_a_progress, ask_phase_a, check_phase_a,
}

abbrev idle : (b : Bool) → (b && false) ≡ false
idle true = refl
idle false = refl

module _ {ℓ} {W : Type ℓ} (s : Service W) (op : Operation) (request : StatusRequest) (start : ℤ)
    (read : ReadRequest → Io W (Outcome ReadResult)) (token : Text) (w : W) where
  -- From the world w, Cloud Control's client is there and is asked for the token.
  abbrev Asked : Outcome (Option ProgressResult) → W → Type ℓ
  Asked o v =
      (client : CcxClient W) × ((w₁ : W) × ((s.ccx_client w ≡ (succeed client, w₁))
          × (client.status_resource (record request { request_id = token }) read w₁ ≡ (o, v))))

  -- Cloud Control's answer, which may have no result.
  abbrev pub Told : Option ProgressResult → W → Type ℓ
  Told cc v = Asked (succeed cc) v

  -- There is no client, or Cloud Control gives an error.
  abbrev pub Failing : GoError → W → Type ℓ
  Failing e v =
      ((out : Option (CcxClient W)) × (s.ccx_client w ≡ (returned out (some e), v)))
      ⊎ ((out : Option (Option ProgressResult)) × Asked (returned out (some e)) v)

  -- Why there is a wait: a passing error, or an answer that is neither a success nor a failure.
  abbrev pub Cause : W → Type ℓ
  Cause v =
      ((e : GoError) × (Failing e v × ((classify_aws_error (some e)).1 ≡ true)))
      ⊎ (Told none v
          ⊎ ((cc : ProgressResult) × (Told (some cc) v
                × ((cc.operation_status ≢ success) × (cc.operation_status ≢ failure)))))

  -- A wait, bounded by the clock as it is read after the call and last of all; an error that does
  -- not pass; or Cloud Control's failure, under the composite id and on an update not NotFound.
  abbrev pub Settles : ProgressResult × W → Type ℓ
  Settles (pr, w') =
      ((v : W) × (Cause v
          × ((w' ≡ (s.now v).1) × Bounded s op request start s.operation_timeout (s.now v).0 pr)))
      ⊎ (((e : GoError) × (Failing e w'
              × (((classify_aws_error (some e)).1 ≡ false)
                  × ((pr.operation ≡ op)
                      × ((pr.operation_status ≡ failure)
                          × (pr.error_code ≡ (classify_aws_error (some e)).0))))))
          ⊎ ((cc : ProgressResult) × (Told (some cc) w'
                × ((cc.operation_status ≡ failure)
                    × ((pr.operation ≡ op)
                        × ((pr.operation_status ≡ failure)
                            × ((pr.request_id ≡ request.request_id)
                                × (is_update op && is_not_found pr.error_code ≡ false))))))))

  -- A panic; the next phase, only after a success of Cloud Control; or a result.
  abbrev pub Sound : Outcome (Option ProgressResult) × W → Type ℓ
  Sound (o, w') =
      (o ≡ panicked)
      ⊎ (((o ≡ succeed none)
            × ((cc : ProgressResult) × (Told (some cc) w' × (cc.operation_status ≡ success))))
          ⊎ ((pr : ProgressResult) × ((o ≡ succeed (some pr)) × Settles (pr, w'))))

  waiting :
      (msg : Text) (v : W)
      → Cause v
      → Sound (stop s read (in_progress_or_timeout s op request start msg) v)
  unfolding in_progress_or_timeout bounded_in_progress
  waiting msg v c = inr (
      inr (
        _,
        (
          refl,
          inl (
            v,
            (c, (refl, bounded_in_progress-Bounded s op request start s.operation_timeout msg v)),
          ),
        ),
      ))

  refused :
      (e : GoError) (context : Text) (v : W)
      → Failing e v
      → Sound (stop s read (classify_for_status s e op request start context) v)
  refused e context v f = elim (classify_for_status-Classified s e op request start context v) [
    | inl (passing, (last, h)) ↦ inr (inr (_, (refl, inl (v, (inl (e, (f, passing)), (last, h))))))
    | inr (lasting, (last, h)) ↦
        inr (inr (_, (refl, inr (inl (e, (subst (Failing e) (sym last) f, (lasting, h)))))))
  ]

  phase_a_failure-Sound :
      (cc : ProgressResult) (v : W)
      → Told (some cc) v
      → cc.operation_status ≡ failure
      → Sound (succeed (some (phase_a_failure op request cc)), v)
  unfolding terminal_failure
  phase_a_failure-Sound cc v t e = elim (Bool-cases (is_update op && is_not_found cc.error_code)) [
    | inl gone ↦ rw gone (
        inr
          (inr (_, (refl, inr (inr (cc, (t, (e, (refl, (refl, (refl, idle (is_update op))))))))))))
    | inr other ↦
        rw other (inr (inr (_, (refl, inr (inr (cc, (t, (e, (refl, (e, (refl, other)))))))))))
  ]

  phase_a_result-Sound :
      (cc : ProgressResult) (status : OperationStatus) (v : W)
      → Told (some cc) v
      → cc.operation_status ≡ status
      → Sound (phase_a_result s read op request start cc status v)
  unfolding phase_a_result
  phase_a_result-Sound cc success v t e = inr (inl (refl, (cc, (t, e))))
  phase_a_result-Sound cc failure v t e = phase_a_failure-Sound cc v t e
  phase_a_result-Sound cc in_progress v t e =
      waiting _ v (inr (inr (cc, (t, (λ h. ground (arith, e, h), λ h. ground (arith, e, h))))))
  phase_a_result-Sound cc pending v t e =
      waiting _ v (inr (inr (cc, (t, (λ h. ground (arith, e, h), λ h. ground (arith, e, h))))))
  phase_a_result-Sound cc no_status v t e =
      waiting _ v (inr (inr (cc, (t, (λ h. ground (arith, e, h), λ h. ground (arith, e, h))))))

  phase_a_progress-Sound :
      (cc : Option ProgressResult) (v : W)
      → Told cc v
      → Sound (phase_a_progress s read op request start cc v)
  unfolding phase_a_progress
  phase_a_progress-Sound none v t = waiting _ v (inr (inl t))
  phase_a_progress-Sound (some cc) v t = phase_a_result-Sound cc cc.operation_status v t refl

  handled {κ} :
      {A : Type κ} (err : Option GoError) (out : Option A) (context : Text)
      (k : A → Io W (Outcome (Option ProgressResult))) (v : W)
      → ((e : GoError) → err ≡ some e → Failing e v)
      → ((a : A) → err ≡ none → out ≡ some a → Sound (k a v))
      → Sound (
          handle err
            (λ e. stop s read (classify_for_status s e op request start context))
            (deref out k)
            v)
  handled (some e) out context k v f h = refused e context v (f e refl)
  handled none none context k v f h = inl refl
  handled none (some a) context k v f h = h a refl refl

  ask_phase_a-Sound :
      (client : CcxClient W) (w₁ : W)
      → s.ccx_client w ≡ (succeed client, w₁)
      → Sound (ask_phase_a s read request op start token client w₁)
  unfolding ask_phase_a
  ask_phase_a-Sound client w₁ built =
      after_known Sound (client.status_resource (record request { request_id = token }) read) _ w₁
        (λ v. inl refl)
        (λ out err v asked.
          handled err out _ (phase_a_progress s read op request start) v
            (λ e p. inr (out, (client, (w₁, (built, asked ∙ ap (λ x. (returned out x, v)) p)))))
            (λ cc p q. phase_a_progress-Sound cc v (
              client,
              (
                w₁,
                (
                  built,
                  asked ∙ (ap (λ x. (returned x err, v)) q ∙ ap (λ x. (returned (some cc) x, v)) p),
                ),
              ),
            )))

  -- The poll of Cloud Control's token never ends in an error. Unless it panics, it hands over to the
  -- next phase, only when Cloud Control has answered with a success; or it gives an answer for the
  -- operation at hand. A passing error of Cloud Control, or an answer without a result or with one
  -- that is neither a success nor a failure, is waited for: by the clock as it is read after it, the
  -- poll is in progress under the ids of the request within the budget, and a failure past it. Any
  -- other error, and a failure of Cloud Control, is a failure, which on an update is not NotFound
  -- when it is Cloud Control's.
  pub check_phase_a-Sound : Sound (check_phase_a s read request op start token w)
  unfolding check_phase_a
  check_phase_a-Sound =
      after_known Sound s.ccx_client _ w (λ v. inl refl)
        (λ out err v built.
          handled err out _ (ask_phase_a s read request op start token) v
            (λ e p. inl (out, built ∙ ap (λ x. (returned out x, v)) p))
            (λ client p q. ask_phase_a-Sound client v (
              built
              ∙ (ap (λ x. (returned x err, v)) q ∙ ap (λ x. (returned (some client) x, v)) p))))
