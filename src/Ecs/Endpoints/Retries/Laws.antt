-- ===== src/Ecs/Endpoints/Retries/Laws.antt =====
-- Which errors are tried again, and how often.
use formae_plugin_aws.Prelude.{
  ℕ, zero, suc, ◌+◌, ◌≤◌, ◌<◌, ◌≡◌, refl, ◌↔◌, inl, inr, arith, Bool, true, false, not, Option,
  none, some, List, [], ◌∷◌, All, Io, Bool-cases, Option-cases, ltb, if◌then◌else◌, subst, sym,
}
use mathlib.Core.Option.{some-injective}
use formae_plugin_aws.Text.{Text, ◌===◌}
use formae_plugin_aws.Text.Equality.{eq_sound}
use formae_plugin_aws.Go.{GoError, ApiError, Outcome, returned, panicked, after}
use formae_plugin_aws.Ecs.Endpoints.Retries.{
  one_of, transient_codes, permanent_codes, api_transient, is_transient, backoff, unless_ended,
  after_try, try_from, with_retries,
}

-- What holds of all members of a list of texts holds of a text that is one of them.
one_of-All : (P : Text → Type 0) (ts : List Text) (s : Text) → All P ts → one_of ts s ≡ true → P s
unfolding one_of
one_of-All P [] s h e = absurd (ground arith)
one_of-All P (t ∷ ts) s (p, h) e = elim (Bool-cases (t === s)) [
  | inl same ↦ subst P (eq_sound t s same) p
  | inr other ↦ one_of-All P ts s h (rw other at e)
]

permanent-transient :
    (code : Text) → one_of permanent_codes code ≡ true → one_of transient_codes code ≡ false
permanent-transient code e =
    one_of-All (λ t. one_of transient_codes t ≡ false) permanent_codes code
      (unfold one_of ◌===◌ in (search)) e

api_transient_iff :
    (ae : ApiError) → (api_transient ae ≡ false) ↔ (one_of permanent_codes ae.code ≡ true)
unfolding api_transient
api_transient_iff ae =
    by_tests (one_of transient_codes ae.code) (one_of permanent_codes ae.code) ae.fault_server
      (permanent-transient ae.code)
  where
    by_tests :
        (t p f : Bool)
        → (p ≡ true → t ≡ false)
        → ((if t then true else if p then false else if f then true else true) ≡ false) ↔ (p ≡ true)
    by_tests true true f h =
        (λ e. absurd (ground (arith, h refl)), λ e. absurd (ground (arith, h refl)))
    by_tests true false f h = (λ e. absurd (ground arith), λ e. absurd (ground arith))
    by_tests false true f h = (λ e. refl, λ e. refl)
    by_tests false false true h = (λ e. absurd (ground arith), λ e. absurd (ground arith))
    by_tests false false false h = (λ e. absurd (ground arith), λ e. absurd (ground arith))

-- An error ends the attempts just when it is an API error with one of the permanent codes, whatever
-- its fault is.
pub is_transient_iff :
    (err : GoError)
    → (is_transient err ≡ false)
      ↔ ((ae : ApiError) × ((err.api_error ≡ some ae) × (one_of permanent_codes ae.code ≡ true)))
unfolding is_transient
is_transient_iff err = elim (Option-cases err.api_error) [
  | inl e ↦ rw (is_transient, e) (λ h. absurd (ground arith), λ (ae, (p, h)). absurd (ground arith))
  | inr (ae, e) ↦
      rw (is_transient, e)
        (
          λ h. (ae, (refl, (api_transient_iff ae).0 h)),
          λ (be, (p, h)).
              (api_transient_iff ae).1 (
                subst (λ x. one_of permanent_codes x.code ≡ true) (sym (some-injective ae be p)) h),
        )
]

-- A number that counts the calls of `fn` in the world, which pauses leave alone.
pub record Counts {ℓ κ} {W : Type ℓ} {A : Type κ} (pause : ℕ → Io W (Option GoError))
    (fn : Io W (Outcome A)) (count : W → ℕ) : Type (ℓ ⊔ κ) where
  pub calls : (w : W) → count (fn w).1 ≡ suc (count w)
  pub pauses : (n : ℕ) (w : W) → count (pause n w).1 ≡ count w

module _ {ℓ κ} {W : Type ℓ} {A : Type κ} (pause : ℕ → Io W (Option GoError)) (fn : Io W (Outcome A))
    (count : W → ℕ) (c : Counts pause fn count) where
  -- `m` makes at most `k` calls.
  abbrev Spends : ℕ → Io W (Outcome A) → Type ℓ
  Spends k m = (w : W) → (count w ≤ count (m w).1) × (count (m w).1 ≤ count w + k)

  unless_ended-Spends :
      (k : ℕ) (ended : Option GoError) (next : Io W (Outcome A))
      → Spends k next
      → Spends k (unless_ended ended next)
  unless_ended-Spends k (some e) next h w = omega arith
  unless_ended-Spends k none next h w = h w

  after_try-Spends :
      (k attempt : ℕ) (next : Io W (Outcome A)) (out : Option A) (err : Option GoError)
      → Spends k next
      → Spends k (after_try pause fn attempt next out err)
  unfolding after_try
  after_try-Spends k attempt next out none h w = omega arith
  after_try-Spends k attempt next out (some e) h w =
      let paused = pause (backoff attempt) w in
      elim (Bool-cases (not (is_transient e))) [
        | inl permanent ↦ rw (after_try, permanent) (omega arith)
        | inr worth ↦ elim (Bool-cases (ltb attempt 2)) [
          | inl early ↦
              rw (after_try, worth, early)
                (omega (
                  arith,
                  c.pauses (backoff attempt) w,
                  unless_ended-Spends k paused.0 next h paused.1,
                ))
          | inr last ↦ rw (after_try, worth, last) (h w)
        ]
      ]

  after-Spends :
      (k attempt : ℕ) (next : Option GoError → Io W (Outcome A)) (o : Outcome A)
      → ((err : Option GoError) → Spends k (next err))
      → Spends k (after o (λ out err. after_try pause fn attempt (next err) out err))
  after-Spends k attempt next panicked h w = omega arith
  after-Spends k attempt next (returned out err) h w =
      after_try-Spends k attempt (next err) out err (h err) w

  try_from-Spends :
      (left attempt : ℕ) (last : Option GoError) → Spends left (try_from pause fn left attempt last)
  unfolding try_from
  try_from-Spends zero attempt last w = omega arith
  try_from-Spends (suc left) attempt last w = omega (
    arith,
    c.calls w,
    after-Spends left attempt (λ err. try_from pause fn left (suc attempt) err) (fn w).0
        (λ err. try_from-Spends left (suc attempt) err) (fn w).1,
  )

  -- A call that is tried again is made at least once and at most three times, whatever its answers
  -- are and whether or not the context ends.
  pub with_retries-calls :
      (w : W)
      → (count w < count (with_retries pause fn w).1)
        × (count (with_retries pause fn w).1 ≤ count w + 3)
  unfolding with_retries try_from
  with_retries-calls w = omega (
    arith,
    c.calls w,
    try_from-Spends 3 0 none w,
    after-Spends 2 0 (λ err. try_from pause fn 2 1 err) (fn w).0 (λ err. try_from-Spends 2 1 err)
        (fn w).1,
  )
