-- ===== src/Http.antt =====
-- How a handler of apps/api ends: with a value, by a `HTTPException` that its `_problem` builds, or
-- by any other exception, which the server answers with status 500.
use stock_analyst.Shared.{ℕ, Text, ◌≡◌, refl}

pub data Reply {ℓ} (A : Type ℓ) : Type ℓ where
  answer : A → Reply A
  problem : ℕ → Text → Reply A
  crashed : Text → Reply A

infixl 5 ◌>>=◌
abbrev pub ◌>>=◌ {ℓ κ} : {A : Type ℓ} {B : Type κ} → Reply A → (A → Reply B) → Reply B
problem status detail >>= handler = problem status detail
crashed detail >>= handler = crashed detail
answer a >>= handler = handler a

-- A bind that answers: both of its parts do.
pub >>=-eq-answer {ℓ κ} :
    {A : Type ℓ} {B : Type κ} (before : Reply A) (handler : A → Reply B) {b : B}
    → (before >>= handler) ≡ answer b
    → (a : A) × (before ≡ answer a) × (handler a ≡ answer b)
>>=-eq-answer (problem status detail) handler answers = cc
>>=-eq-answer (crashed detail) handler answers = cc
>>=-eq-answer (answer a) handler answers = (a, refl, answers)

-- Whether a reply has a value.
pub data Ended : Type 0 where
  served refused : Ended

abbrev pub ended {ℓ} : {A : Type ℓ} → Reply A → Ended
ended (answer _) = served
ended _ = refused
