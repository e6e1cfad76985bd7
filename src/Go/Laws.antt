-- ===== src/Go/Laws.antt =====
-- A property of the outcome of a call, from its parts, and a call whose answer is known.
use formae_plugin_aws.Prelude.{◌≡◌, refl, ap, Option, none, some, Io}
use formae_plugin_aws.Go.{
  GoError, Outcome, returned, panicked, after, deref, unless_error, attempt, call,
}

module _ {ℓ κ μ ν} {W : Type ℓ} {A : Type κ} {B : Type μ} (P : Outcome B → Type ν)
    (p : P panicked) where
  pub after_holds :
      (o : Outcome A) (k : Option A → Option GoError → Io W (Outcome B)) (w : W)
      → ((res : Option A) (err : Option GoError) (w' : W) → P (k res err w').0)
      → P (after o k w).0
  after_holds (returned res err) k w h = h res err w
  after_holds panicked k w h = p

  pub deref_holds :
      (o : Option A) (k : A → Io W (Outcome B)) (w : W)
      → ((a : A) (w' : W) → P (k a w').0)
      → P (deref o k w).0
  deref_holds none k w h = p
  deref_holds (some a) k w h = h a w

  unless_error_holds :
      (out : Option A) (err : Option GoError) (f : GoError → Outcome B) (k : A → Io W (Outcome B))
      (w : W)
      → ((e : GoError) → P (f e))
      → ((a : A) (w' : W) → P (k a w').0)
      → P (unless_error err f (deref out k) w).0
  unless_error_holds out (some e) f k w hf hk = hf e
  unless_error_holds out none f k w hf hk = deref_holds out k w hk

  attempt_holds :
      (m : Io W (Outcome A)) (f : GoError → Outcome B) (k : Io W (Outcome B)) (w : W)
      → ((e : GoError) → P (f e))
      → ((w' : W) → P (k w').0)
      → P (attempt m f k w).0
  unfolding attempt
  attempt_holds m f k w hf hk =
      after_holds (m w).0 (λ out err. unless_error err f k) (m w).1
        (λ out err w'. elim err as (λ e. P (unless_error e f k w').0) [
          | some e ↦ hf e
          | none ↦ hk w'
        ])

  pub call_holds :
      (m : Io W (Outcome A)) (f : GoError → Outcome B) (k : A → Io W (Outcome B)) (w : W)
      → ((e : GoError) → P (f e))
      → ((a : A) (w' : W) → P (k a w').0)
      → P (call m f k w).0
  unfolding call
  call_holds m f k w hf hk =
      after_holds (m w).0 (λ out err. unless_error err f (deref out k)) (m w).1
        (λ out err w'. unless_error_holds out err f k w' hf hk)

module _ {ℓ κ μ} {W : Type ℓ} {A : Type κ} {B : Type μ} where
  pub call_ok :
      (m : Io W (Outcome A)) (f : GoError → Outcome B) (k : A → Io W (Outcome B)) (w w' : W) (a : A)
      → m w ≡ (returned (some a) none, w')
      → call m f k w ≡ k a w'
  unfolding call
  call_ok m f k w w' a e = rw (call, e)

  pub call_error :
      (m : Io W (Outcome A)) (f : GoError → Outcome B) (k : A → Io W (Outcome B)) (w w' : W)
      (out : Option A) (x : GoError)
      → m w ≡ (returned out (some x), w')
      → call m f k w ≡ (f x, w')
  unfolding call
  call_error m f k w w' out x e = rw (call, e)

-- The rest after a call, with the call's answer and the world that it leaves.
pub after_known {ℓ κ μ ν} :
    {W : Type ℓ} {A : Type κ} {B : Type μ} (P : Outcome B × W → Type ν) (m : Io W (Outcome A))
    (k : Option A → Option GoError → Io W (Outcome B)) (w : W)
    → ((w' : W) → P (panicked, w'))
    → ((out : Option A) (err : Option GoError) (w' : W)
        → m w ≡ (returned out err, w')
        → P (k out err w'))
    → P (after (m w).0 k (m w).1)
after_known {A = A} P m k w p h =
    by_outcome (m w).0 (λ out err e. h out err (m w).1 (ap (λ o. (o, (m w).1)) e))
  where
    by_outcome :
        (o : Outcome A)
        → ((out : Option A) (err : Option GoError) → o ≡ returned out err → P (k out err (m w).1))
        → P (after o k (m w).1)
    by_outcome panicked g = p (m w).1
    by_outcome (returned out err) g = g out err refl
