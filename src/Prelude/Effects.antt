-- ===== src/Prelude/Effects.antt =====
-- Code that calls AWS, reads the clock or waits: a function on the state `W` of the outside world,
-- which every statement takes as a parameter.

abbrev pub Io {ℓ κ} : Type ℓ → Type κ → Type (ℓ ⊔ κ)
Io W A = W → A × W

abbrev pub pure {ℓ κ} : {W : Type ℓ} {A : Type κ} → A → Io W A
pure a w = (a, w)

infixl 5 ◌>>=◌ ◌>>◌
abbrev pub ◌>>=◌ {ℓ κ μ} : {W : Type ℓ} {A : Type κ} {B : Type μ} → Io W A → (A → Io W B) → Io W B
◌>>=◌ m f w = f (m w).0 (m w).1

abbrev pub ◌>>◌ {ℓ κ μ} : {W : Type ℓ} {A : Type κ} {B : Type μ} → Io W A → Io W B → Io W B
m >> k = m >>= λ _. k
