-- ===== src/Index/Retries.antt =====
-- `_with_retry` of qdrant_client.py: a call of the vector store, tried three times.
use stock_analyst.Shared.{
  ℕ, zero, suc, ◌+◌, ◌*◌, ◌-◌, List, [], ◌∷◌, Raises, ok, raised, failure, Error, ltb,
  if◌then◌else◌, Raises-cases, ◌≡◌, inl, inr,
}

abbrev pub max_attempts : ℕ
max_attempts = 3

-- `2 ** n`
abbrev pub power_of_two : ℕ → ℕ
power_of_two zero = 1
power_of_two (suc n) = 2 * power_of_two n

module _ {A : Type 0} (base : ℕ) (func : ℕ → Raises A) where
  -- The pauses, in the unit of the base, are behind the result.
  unfoldable pub attempts_from : ℕ → ℕ → Raises A × List ℕ
  attempts_from zero attempt = (raised failure, [])
  attempts_from (suc left) attempt =
      let later = attempts_from left (attempt + 1) in
      elim (func attempt) [
        | ok a ↦ (ok a, [])
        | raised e ↦ (
          later.0,
          if ltb attempt (max_attempts - 1) then base * power_of_two attempt ∷ later.1 else later.1,
        )
      ]

  unfoldable pub with_retry : Raises A × List ℕ
  with_retry = attempts_from max_attempts 0

  abbrev pub Fails : ℕ → Type 0
  Fails attempt = (e : Error) × (func attempt ≡ raised e)

  -- How the attempts end: at the first that returns, or when three have raised.
  pub data Tried : Raises A × List ℕ → Type 0 where
    at_first : {a : A} → func 0 ≡ ok a → Tried (ok a, [])
    at_second : {a : A} → Fails 0 → func 1 ≡ ok a → Tried (ok a, base * 1 ∷ [])
    at_third : {a : A} → Fails 0 → Fails 1 → func 2 ≡ ok a → Tried (ok a, base * 1 ∷ base * 2 ∷ [])
    never : Fails 0 → Fails 1 → Fails 2 → Tried (raised failure, base * 1 ∷ base * 2 ∷ [])

-- A call with retries ends as its first attempt of three that returns, or with the error of the
-- connector when all three raise; before the second attempt it pauses for the base, before the third
-- for twice the base.
pub with_retry-Tried :
    {A : Type 0} (base : ℕ) (func : ℕ → Raises A) → Tried base func (with_retry base func)
unfolding with_retry attempts_from
with_retry-Tried base func = elim (Raises-cases (func 0)) [
  | inr (a, h₀) ↦ rw (with_retry, attempts_from, h₀) (at_first h₀)
  | inl (e₀, h₀) ↦ elim (Raises-cases (func 1)) [
    | inr (a, h₁) ↦ rw (with_retry, attempts_from, h₀, h₁) (at_second (e₀, h₀) h₁)
    | inl (e₁, h₁) ↦ elim (Raises-cases (func 2)) [
      | inr (a, h₂) ↦ rw (with_retry, attempts_from, h₀, h₁, h₂) (at_third (e₀, h₀) (e₁, h₁) h₂)
      | inl (e₂, h₂) ↦ rw (with_retry, attempts_from, h₀, h₁, h₂) (never (e₀, h₀) (e₁, h₁) (e₂, h₂))
    ]
  ]
]
