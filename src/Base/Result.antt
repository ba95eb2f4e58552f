-- ===== src/Base/Result.antt =====
-- Python calls that return a value or raise an exception of the type `E`.
use hyperliquid_copytrader.Base.{◌≡◌, refl, ◌⊎◌, inl, inr, Bool, true, false}

pub data Result {ℓ κ} (E : Type ℓ) (A : Type κ) : Type (ℓ ⊔ κ) where
  ok : A → Result E A
  err : E → Result E A

module _ {ℓ} {E : Type ℓ} where
  infixl 5 ◌>>=◌ ◌>>◌
  -- A statement and those after it: an exception ends the block.
  abbrev pub ◌>>=◌ {κ μ} : {A : Type κ} {B : Type μ} → Result E A → (A → Result E B) → Result E B
  m >>= rest = elim m [ err e ↦ err e | ok a ↦ rest a ]

  abbrev pub ◌>>◌ {μ} : {B : Type μ} → Result E (Unit {0}) → Result E B → Result E B
  m >> rest = m >>= λ done. rest

  -- `if not test: raise error`
  abbrev pub require : Bool → E → Result E (Unit {0})
  require test error = elim test [ true ↦ ok tt | false ↦ err error ]

  pub require-ok : (test : Bool) (error : E) → require test error ≡ ok tt → test ≡ true
  require-ok true error h = refl
  require-ok false error h = cc

  -- A block that returns has passed its first statement.
  pub >>=-returns {κ μ} :
      {A : Type κ} {B : Type μ} (m : Result E A) (rest : A → Result E B) {b : B}
      → (m >>= rest) ≡ ok b
      → (a : A) × (m ≡ ok a) × (rest a ≡ ok b)
  >>=-returns (err e) rest h = absurd (cc)
  >>=-returns (ok a) rest h = (a, refl, h)

  pub ok_injective {κ} : {A : Type κ} (a b : A) → ◌≡◌ {A = Result E A} (ok a) (ok b) → a ≡ b
  ok_injective a b h = cc

  pub Result-cases {κ} :
      {A : Type κ} (m : Result E A) → ((e : E) × (m ≡ err e)) ⊎ ((a : A) × (m ≡ ok a))
  Result-cases (err e) = inl (e, refl)
  Result-cases (ok a) = inr (a, refl)
