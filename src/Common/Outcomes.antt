-- ===== src/Common/Outcomes.antt =====
-- Code that returns a value or raises an exception of a type E, with its do-notation.
use qdii_observatory.Common.{◌≡◌, refl, ap, Bool, true, false, ◌⊎◌, inl, inr, Option, none, some}

pub data Outcome {ℓ} (E : Type 0) (A : Type ℓ) : Type ℓ where
  thrown : E → Outcome E A
  done : A → Outcome E A

-- A statement after another runs if that one raises nothing.
infixl 5 ◌>>=◌
abbrev pub ◌>>=◌ {ℓ κ} :
    {E : Type 0} {A : Type ℓ} {B : Type κ} → Outcome E A → (A → Outcome E B) → Outcome E B
thrown error >>= next = thrown error
done value >>= next = next value

infixl 5 ◌>>◌
abbrev pub ◌>>◌ {κ} : {E : Type 0} {B : Type κ} → Outcome E (Unit {0}) → Outcome E B → Outcome E B
thrown error >> rest = thrown error
done value >> rest = rest

-- `if not test: raise error`
abbrev pub require : {E : Type 0} → Bool → E → Outcome E (Unit {0})
require false error = thrown error
require true error = done tt

-- A computation without a result raises the error.
abbrev pub value_or {ℓ} : {E : Type 0} {A : Type ℓ} → E → Option A → Outcome E A
value_or error none = thrown error
value_or error (some a) = done a

pub Outcome-cases {ℓ} :
    {E : Type 0} {A : Type ℓ} (r : Outcome E A)
    → ((e : E) × (r ≡ thrown e)) ⊎ ((a : A) × (r ≡ done a))
Outcome-cases (done a) = inr (a, refl)
Outcome-cases (thrown e) = inl (e, refl)

-- A sequence that raises nothing has parts that raise nothing.
pub bind-inv {ℓ κ} :
    {E : Type 0} {A : Type ℓ} {B : Type κ} (m : Outcome E A) (f : A → Outcome E B) {b : B}
    → (m >>= f) ≡ done b
    → (a : A) × (m ≡ done a) × (f a ≡ done b)
bind-inv (done a) f h = (a, refl, h)
bind-inv (thrown e) f h = absurd (cc h)

pub then-inv {ℓ} :
    {E : Type 0} {B : Type ℓ} (v : Outcome E (Unit {0})) (m : Outcome E B) {x : B}
    → (v >> m) ≡ done x
    → (v ≡ done tt) × (m ≡ done x)
then-inv (done tt) m h = (refl, h)
then-inv (thrown e) m h = absurd (cc h)

pub require-inv {ℓ} :
    {E : Type 0} {B : Type ℓ} (b : Bool) (e : E) (m : Outcome E B) {x : B}
    → (require b e >> m) ≡ done x
    → (b ≡ true) × (m ≡ done x)
require-inv true e m h = (refl, h)
require-inv false e m h = absurd (cc h)

pub done_inj {ℓ} :
    {E : Type 0} {A : Type ℓ} (a b : A) → ◌≡◌ {A = Outcome E A} (done a) (done b) → a ≡ b
done_inj a b h = ap (λ o. elim o [ thrown e ↦ a | done x ↦ x ]) h
