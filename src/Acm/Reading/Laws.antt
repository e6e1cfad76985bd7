-- ===== src/Acm/Reading/Laws.antt =====
-- How long the poll for the validation records goes on, and with what it ends.
use formae_plugin_aws.Prelude.Int.{ℤ, pos, negsuc}
use formae_plugin_aws.Prelude.{
  ℕ, zero, suc, ◌+◌, ◌≤◌, ◌<◌, ◌≡◌, refl, ◌⊎◌, inl, inr, arith, true, false, Option, none, some, Io,
  Bool-cases, ◌==◌, ◌∙◌,
}
use formae_plugin_aws.Text.{Text}
use formae_plugin_aws.Go.{
  GoError, Outcome, returned, panicked, succeed, fail, after, deref, unless_error, call,
}
use formae_plugin_aws.Json.{Fields}
use formae_plugin_aws.Acm.Client.{CertificateDetail, AcmClient, Certificate}
use formae_plugin_aws.Acm.Reading.{
  described, read_properties, has_nonempty_validation_records, interval_of, attempts_of, after_poll,
  poll_records, read_properties_with_validation_records,
}

-- A number that counts the descriptions of certificates in the world, which listing tags and waiting
-- leave alone; and a context that does not end.
pub record Counts {ℓ} {W : Type ℓ} (c : Certificate W) (client : AcmClient W) (count : W → ℕ)
    : Type ℓ where
  pub describe : (arn : Text) (w : W) → count (client.describe_certificate arn w).1 ≡ suc (count w)
  pub tags : (arn : Text) (w : W) → count (client.list_tags arn w).1 ≡ count w
  pub pause : (d : ℤ) (w : W) → count (c.wait d w).1 ≡ count w
  pub goes_on : (d : ℤ) (w : W) → (c.wait d w).0 ≡ false

module _ {ℓ} {W : Type ℓ} (count : W → ℕ) (budget : ℕ) (w : W) where
  -- A panic, an error, or properties that have records or come after all the descriptions.
  abbrev Settled : Outcome Fields → W → Type 0
  Settled o w' =
      (o ≡ panicked)
      ⊎ (((e : GoError) × (o ≡ fail e))
          ⊎ ((props : Fields) × ((o ≡ succeed props)
                × ((has_nonempty_validation_records props ≡ true)
                    ⊎ (count w' ≡ count w + budget)))))

  abbrev pub Polled : Outcome Fields × W → Type 0
  Polled (o, w') = (count w < count w') × ((count w' ≤ count w + budget) × Settled o w')

-- What listing tags does not change, reading does not change after its description.
module _ {ℓ} {W : Type ℓ} {X : Type 0} (client : AcmClient W) (view : W → X) (arn : Text)
    (keeps : (w : W) → view (client.list_tags arn w).1 ≡ view w) where
  after-view :
      {A B : Type 0} (o : Outcome A) (rest : Option A → Option GoError → Io W (Outcome B)) (w : W)
      → ((a : Option A) (e : Option GoError) (w' : W) → view (rest a e w').1 ≡ view w')
      → view (after o rest w).1 ≡ view w
  after-view (returned a e) rest w h = h a e w
  after-view panicked rest w h = refl

  unless_error-view :
      {B : Type 0} (err : Option GoError) (f : GoError → Outcome B) (rest : Io W (Outcome B))
      (w : W)
      → view (rest w).1 ≡ view w
      → view (unless_error err f rest w).1 ≡ view w
  unless_error-view (some e) f rest w h = refl
  unless_error-view none f rest w h = h

  described-view :
      (out : Option CertificateDetail) (w : W) → view (described client arn out w).1 ≡ view w
  unfolding described
  described-view none w = refl
  described-view (some cert) w =
      after-view (client.list_tags arn w).0 _ (client.list_tags arn w).1 (λ a e w'. refl) ∙ keeps w

  pub read_properties-view :
      (w : W) → view (read_properties client arn w).1 ≡ view (client.describe_certificate arn w).1
  unfolding read_properties
  read_properties-view w =
      after-view (client.describe_certificate arn w).0 _ (client.describe_certificate arn w).1
        (λ out err w'. unless_error-view err _ _ w' (described-view _ w'))

module _ {ℓ} {W : Type ℓ} (c : Certificate W) (client : AcmClient W) (count : W → ℕ)
    (k : Counts c client count) (arn : Text) where
  read_properties-count : (w : W) → count (read_properties client arn w).1 ≡ suc (count w)
  read_properties-count w = read_properties-view client count arn (k.tags arn) w ∙ k.describe arn w

  -- One more attempt before what is polled later.
  Polled-suc :
      (budget : ℕ) (w w₁ : W) (r : Outcome Fields × W)
      → count w₁ ≡ suc (count w)
      → Polled count budget w₁ r
      → Polled count (suc budget) w r
  Polled-suc budget w w₁ (o, w') e (lo, (hi, h)) = (
    omega arith,
    (
      omega arith,
      elim h [
        | inl p ↦ inl p
        | inr (inl p) ↦ inr (inl p)
        | inr (inr (props, (p, inl q))) ↦ inr (inr (props, (p, inl q)))
        | inr (inr (props, (p, inr q))) ↦ inr (inr (props, (p, inr (omega arith))))
      ],
    ),
  )

  after_poll-Polled :
      (left : ℕ) (next : Io W (Outcome Fields)) (props : Fields) (w w₁ : W)
      → count w₁ ≡ suc (count w)
      → ((left ≡ 0) ⊎ ((w' : W) → Polled count left w' (next w')))
      → Polled count (suc left) w (after_poll c left next props w₁)
  unfolding after_poll
  after_poll-Polled left next props w w₁ e h =
      elim (Bool-cases (has_nonempty_validation_records props)) [
        | inl there ↦
            rw (after_poll, there)
              (omega arith, (omega arith, inr (inr (props, (refl, inl there)))))
        | inr empty ↦ elim (Bool-cases (left == 0)) [
          | inl last ↦
              rw (after_poll, empty, last)
                (omega arith, (ground arith, inr (inr (props, (refl, inr (ground arith))))))
          | inr more ↦
              rw (after_poll, empty, more, k.goes_on (interval_of c.poll_interval) w₁)
                (elim h [
                  | inl z ↦ absurd (ground arith)
                  | inr go ↦
                      Polled-suc left w _ _ (k.pause (interval_of c.poll_interval) w₁ ∙ e)
                        (go (c.wait (interval_of c.poll_interval) w₁).1)
                ])
        ]
      ]

  step-Polled :
      (left : ℕ) (next : Io W (Outcome Fields)) (o : Outcome Fields) (w w₁ : W)
      → count w₁ ≡ suc (count w)
      → ((left ≡ 0) ⊎ ((w' : W) → Polled count left w' (next w')))
      → Polled count
          (suc left)
          w
          (after o (λ out err. unless_error err fail (deref out (after_poll c left next))) w₁)
  step-Polled left next panicked w w₁ e h = (omega arith, (omega arith, inl refl))
  step-Polled left next (returned out (some x)) w w₁ e h =
      (omega arith, (omega arith, inr (inl (x, refl))))
  step-Polled left next (returned none none) w w₁ e h = (omega arith, (omega arith, inl refl))
  step-Polled left next (returned (some props) none) w w₁ e h =
      after_poll-Polled left next props w w₁ e h

  poll_records-Polled :
      (left : ℕ) (w : W) → Polled count (suc left) w (poll_records c client arn (suc left) w)
  unfolding poll_records call
  poll_records-Polled zero w =
      step-Polled zero (poll_records c client arn zero) (read_properties client arn w).0 w _
        (read_properties-count w) (inl refl)
  poll_records-Polled (suc left) w =
      step-Polled (suc left) (poll_records c client arn (suc left)) (read_properties client arn w).0
        w _ (read_properties-count w) (inr (poll_records-Polled left))

attempts_of_pos : (n : ℤ) → (m : ℕ) × (attempts_of n ≡ suc m)
unfolding attempts_of
attempts_of_pos (pos zero) = (9, refl)
attempts_of_pos (pos (suc n)) = (n, refl)
attempts_of_pos (negsuc n) = (9, refl)

-- Where the context does not end, the poll for the validation records describes the certificate at
-- least once and at most as often as its number of attempts says, ten if that is not positive; it
-- ends with a panic, or an error, or properties, and properties without records it gives only after
-- all its attempts.
pub read_properties_with_validation_records-Polled {ℓ} :
    {W : Type ℓ} (c : Certificate W) (client : AcmClient W) (count : W → ℕ) (arn : Text) (w : W)
    → Counts c client count
    → Polled count
        (attempts_of c.poll_attempts)
        w
        (read_properties_with_validation_records c client arn w)
unfolding read_properties_with_validation_records
read_properties_with_validation_records-Polled c client count arn w k =
    let (m, e) = attempts_of_pos c.poll_attempts in
    rw (read_properties_with_validation_records, e) (poll_records-Polled c client count k arn m w)
