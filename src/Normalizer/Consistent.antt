-- ===== src/Normalizer/Consistent.antt =====
-- What the fields of a normalized value say of one another.
use stock_analyst.Shared.{
  ◌≤◌, ◌<◌, Text, codes, [], ◌∷◌, ◌++◌, Bool, true, false, Option, none, some, any, is_digit, strip,
  length, get_or, length-append, if◌then◌else◌, ◌≡◌, ◌≢◌, refl, ap, ◌⊎◌, inl, inr, arith,
}
use stock_analyst.Normalizer.{Decimal, NormalizedValue}
use stock_analyst.Normalizer.Values.{
  Kind, percentage, count, ratio, monetary, unknown, known_currency, result_of, read_value,
  normalize_value,
}

-- Not read: no number, no unit, no confidence. Read: a number, a unit with confidence, and a currency
-- exactly where the unit is in millions of it.
abbrev pub IsUnread : NormalizedValue → Type 0
IsUnread v = (v.numeric_value ≡ none) × (v.unit ≡ codes "unknown") × (v.confidence ≡ 0)

abbrev pub IsRead : NormalizedValue → Type 0
IsRead v =
    ((n : Decimal) × (v.numeric_value ≡ some n))
    × (v.unit ≢ codes "unknown")
    × (85 ≤ v.confidence)
    × (((v.currency ≡ none) × ((c : Text) → v.unit ≢ c ++ codes "_millions"))
        ⊎ ((c : Text) × (v.currency ≡ some c) × (v.unit ≡ c ++ codes "_millions")))

millions-known : (c : Text) → c ++ codes "_millions" ≢ codes "unknown"
millions-known c h = absurd (omega (arith, ap length h, length-append c (codes "_millions")))

short-not-millions : (t : Text) → length t < 9 → (c : Text) → t ≢ c ++ codes "_millions"
short-not-millions t h c e =
    absurd (omega (arith, ap length e, length-append c (codes "_millions")))

percentage-not-millions : (c : Text) → codes "percentage" ≢ c ++ codes "_millions"
percentage-not-millions [] e = cc
percentage-not-millions (x ∷ []) e = absurd (omega (arith, ap (λ (t : Text). get_or t 1 0) e))
percentage-not-millions (x ∷ y ∷ c) e =
    absurd (omega (arith, ap length e, length-append c (codes "_millions")))

result_of-cases :
    (raw : Text) (currency : Option Text) (negative : Bool) (k : Kind) (n : Option Decimal)
    → IsUnread (result_of raw currency negative k n) ⊎ IsRead (result_of raw currency negative k n)
unfolding result_of
result_of-cases raw currency negative percentage none = inl (refl, refl, refl)
result_of-cases raw currency negative count none = inl (refl, refl, refl)
result_of-cases raw currency negative ratio none = inl (refl, refl, refl)
result_of-cases raw currency negative monetary none = inl (refl, refl, refl)
result_of-cases raw currency negative percentage (some n) =
    inr ((n, refl), λ e. cc, omega arith, inl (refl, percentage-not-millions))
result_of-cases raw currency negative count (some n) =
    inr (
      (n, refl),
      λ e. cc,
      omega arith,
      inl (refl, short-not-millions (codes "count") (omega arith)),
    )
result_of-cases raw currency negative ratio (some n) =
    inr (
      (n, refl),
      λ e. cc,
      omega arith,
      inl (refl, short-not-millions (codes "ratio") (omega arith)),
    )
result_of-cases raw currency negative monetary (some n) = inr (
  (n, refl),
  millions-known (known_currency currency),
  omega arith,
  inr (known_currency currency, refl, refl),
)

abbrev IsEither : NormalizedValue → Type 0
IsEither v = IsUnread v ⊎ IsRead v

read_value-cases :
    (raw : Text) (context_unit : Option Text) (t : Text) → IsEither (read_value raw context_unit t)
unfolding read_value
read_value-cases raw context_unit t = result_of-cases _ _ _ _ _

IsEither-cases :
    (b : Bool) (raw : Text) (v : NormalizedValue)
    → IsEither v
    → IsEither (if b then v else unknown raw none false)
IsEither-cases true raw v h = h
IsEither-cases false raw v h = inl (refl, refl, refl)

-- A value is not read: it has no number, an unknown unit and no confidence; or it is read: it has a
-- number, a known unit, a confidence of at least 0.85, and a currency exactly where its unit is
-- millions of that currency.
pub normalize_value-cases :
    (raw : Text) (context_unit : Option Text)
    → IsUnread (normalize_value raw context_unit) ⊎ IsRead (normalize_value raw context_unit)
unfolding normalize_value
normalize_value-cases raw context_unit =
    IsEither-cases (any is_digit (strip raw)) raw (read_value raw context_unit (strip raw))
      (read_value-cases raw context_unit (strip raw))
