-- ===== src/Shared/Errors.antt =====
-- A call that returns or raises. The exceptions that the components tell apart are named.
use mathlib.Core.Path.{◌≡◌, refl}
use mathlib.Core.Logic.{◌⊎◌, inl, inr}

pub data Error : Type 0 where
  value_error not_implemented duplicate_document low_text_coverage failure : Error

pub data Raises {ℓ} (A : Type ℓ) : Type ℓ where
  ok : A → Raises A
  raised : Error → Raises A

infixl 5 ◌>>=◌
abbrev pub ◌>>=◌ {μ ν} : {X : Type μ} {Y : Type ν} → Raises X → (X → Raises Y) → Raises Y
raised problem >>= next = raised problem
ok x >>= next = next x

pub Raises-cases {ℓ} :
    {A : Type ℓ} (r : Raises A) → ((e : Error) × (r ≡ raised e)) ⊎ ((a : A) × (r ≡ ok a))
Raises-cases (ok a) = inr (a, refl)
Raises-cases (raised e) = inl (e, refl)

pub ok-injective {ℓ} : {A : Type ℓ} (a b : A) → ok a ≡ ok b → a ≡ b
ok-injective a b h = cc

-- A bind that returns: both of its calls do.
pub >>=-eq-ok {μ ν} :
    {X : Type μ} {Y : Type ν} (first : Raises X) (next : X → Raises Y) {y : Y}
    → (first >>= next) ≡ ok y
    → (x : X) × (first ≡ ok x) × (next x ≡ ok y)
>>=-eq-ok (raised problem) next returns = cc
>>=-eq-ok (ok x) next returns = (x, refl, returns)

-- A bind whose first call returns.
pub >>=-ok {ℓ κ} :
    {A : Type ℓ} {B : Type κ} (m : Raises A) (f : A → Raises B) {a : A} → m ≡ ok a → (m >>= f) ≡ f a
>>=-ok m f h = rw h refl
