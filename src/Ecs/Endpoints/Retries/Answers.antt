-- ===== src/Ecs/Endpoints/Retries/Answers.antt =====
-- An answer that is tried for several times is one that the call gave.
use formae_plugin_aws.Prelude.{
  ℕ, zero, suc, ◌≡◌, refl, inl, inr, Option, none, some, Io, Bool-cases, not, ltb,
}
use formae_plugin_aws.Go.{GoError, Outcome, returned, panicked, succeed, after, deref}
use formae_plugin_aws.Ecs.Endpoints.Retries.{
  is_transient, backoff, unless_ended, after_try, try_from, with_retries,
}
use formae_plugin_aws.Ecs.Endpoints.{describe_retry}

-- The call gave the value, without an error, in a world.
abbrev pub Answered {ℓ κ} : {W : Type ℓ} {A : Type κ} → Io W (Outcome A) → A → Type (ℓ ⊔ κ)
Answered {W = W} fn a = (w : W) × ((w' : W) × (fn w ≡ (succeed a, w')))

module _ {ℓ} {W : Type ℓ} {A : Type 0} (pause : ℕ → Io W (Option GoError))
    (fn : Io W (Outcome A)) where
  -- A value without an error is one that the call gave.
  abbrev Comes : Outcome A → Type ℓ
  Comes (returned (some a) none) = Answered fn a
  Comes _ = Unit

  unless_ended-Comes :
      (ended : Option GoError) (next : Io W (Outcome A)) (w : W)
      → ((w' : W) → Comes (next w').0)
      → Comes (unless_ended ended next w).0
  unless_ended-Comes (some e) next w h = tt
  unless_ended-Comes none next w h = h w

  after_try-Comes :
      (attempt : ℕ) (next : Io W (Outcome A)) (out : Option A) (e : GoError) (w : W)
      → ((w' : W) → Comes (next w').0)
      → Comes (after_try pause fn attempt next out (some e) w).0
  unfolding after_try
  after_try-Comes attempt next out e w h =
      let paused = pause (backoff attempt) w in
      elim (Bool-cases (not (is_transient e))) [
        | inl permanent ↦ rw (after_try, permanent) tt
        | inr worth ↦ elim (Bool-cases (ltb attempt 2)) [
          | inl early ↦ rw (after_try, worth, early) (unless_ended-Comes paused.0 next paused.1 h)
          | inr last ↦ rw (after_try, worth, last) (h w)
        ]
      ]

  after-Comes :
      (attempt : ℕ) (next : Option GoError → Io W (Outcome A)) (o : Outcome A) (v w : W)
      → fn v ≡ (o, w)
      → ((err : Option GoError) (w' : W) → Comes (next err w').0)
      → Comes (after o (λ out err. after_try pause fn attempt (next err) out err) w).0
  unfolding after_try
  after-Comes attempt next panicked v w e h = tt
  after-Comes attempt next (returned none none) v w e h = tt
  after-Comes attempt next (returned (some a) none) v w e h = (v, (w, e))
  after-Comes attempt next (returned out (some err)) v w e h =
      after_try-Comes attempt (next (some err)) out err w (h (some err))

  try_from-Comes :
      (left attempt : ℕ) (last : Option GoError) (w : W)
      → Comes (try_from pause fn left attempt last w).0
  unfolding try_from
  try_from-Comes zero attempt none w = tt
  try_from-Comes zero attempt (some e) w = tt
  try_from-Comes (suc left) attempt last w =
      after-Comes attempt (λ err. try_from pause fn left (suc attempt) err) (fn w).0 w (fn w).1 refl
        (λ err. try_from-Comes left (suc attempt) err)

  -- What holds of the panic, after every error and after every value that the call gave, holds of the
  -- description.
  pub describe_retry_holds {κ} :
      {B : Type 0} (P : Outcome B → Type κ) (f : GoError → Io W (Outcome B))
      (k : A → Io W (Outcome B)) (w : W)
      → P panicked
      → ((e : GoError) (w' : W) → P (f e w').0)
      → ((a : A) (w' : W) → Answered fn a → P (k a w').0)
      → P (describe_retry pause fn f k w).0
  unfolding describe_retry with_retries
  describe_retry_holds P f k w p hf hk =
      by_outcome (with_retries pause fn w).0 (with_retries pause fn w).1 (try_from-Comes 3 0 none w)
    where
      by_outcome :
          (o : Outcome A) (w' : W)
          → Comes o
          → P (after o (λ out err. elim err [ some e ↦ f e | none ↦ deref out k ]) w').0
      by_outcome panicked w' c = p
      by_outcome (returned out (some e)) w' c = hf e w'
      by_outcome (returned none none) w' c = p
      by_outcome (returned (some a) none) w' c = hk a w' c
