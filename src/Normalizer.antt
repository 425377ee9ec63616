-- ===== src/Normalizer.antt =====
-- The normalizer of packages/rag/src/rag/ingestion/parsers/financial_normalizer.py: values of filings
-- on one scale. A number is a decimal, exactly: the rounding of floats is left out.
pub mod Patterns
pub mod Values
pub mod Consistent
pub mod Spans
pub mod Kept
mod Examples
use stock_analyst.Shared.{
  ℕ, ◌+◌, ◌-◌, ◌*◌, Text, codes, List, [], ◌∷◌, ◌++◌, Bool, true, false, ◌&&◌, ◌||◌, not, Option,
  none, some, ◌==◌, is_empty, is_digit, lower, strip, same_text, filter_by, length, if◌then◌else◌,
}

-- (-1)^negative * mantissa / 10^decimals
pub record Decimal : Type 0 where
  pub negative : Bool
  pub mantissa : ℕ
  pub decimals : ℕ

-- Not a number is `none`; the confidence is in hundredths.
pub record NormalizedValue : Type 0 where
  pub raw_string : Text
  pub numeric_value : Option Decimal
  pub unit : Text
  pub currency : Option Text
  pub is_negative : Bool
  pub confidence : ℕ

-- A multiplier `times / 10^places`.
pub record Multiplier : Type 0 where
  pub times : ℕ
  pub places : ℕ

abbrev whole : ℕ → Multiplier
whole n = record { times = n; places = 0 }

abbrev thousandth : Multiplier
thousandth = record { times = 1; places = 3 }

-- `_MONETARY_SUFFIX_MULTIPLIER`, onto millions
abbrev pub monetary_suffixes : List (Text × Multiplier)
monetary_suffixes =
    (codes "b", whole 1000)
    ∷ (codes "bn", whole 1000)
    ∷ (codes "billion", whole 1000)
    ∷ (codes "m", whole 1)
    ∷ (codes "mm", whole 1)
    ∷ (codes "million", whole 1)
    ∷ (codes "k", thousandth)
    ∷ (codes "thousand", thousandth)
    ∷ []

-- `_COUNT_SUFFIX_MULTIPLIER`
abbrev pub count_suffixes : List (Text × Multiplier)
count_suffixes =
    (codes "b", whole 1000000000)
    ∷ (codes "bn", whole 1000000000)
    ∷ (codes "billion", whole 1000000000)
    ∷ (codes "m", whole 1000000)
    ∷ (codes "mm", whole 1000000)
    ∷ (codes "million", whole 1000000)
    ∷ (codes "k", whole 1000)
    ∷ (codes "thousand", whole 1000)
    ∷ []

-- `_CONTEXT_UNIT_MULTIPLIER`
abbrev pub context_units : List (Text × Multiplier)
context_units =
    (codes "thousands", thousandth)
    ∷ (codes "millions", whole 1)
    ∷ (codes "billions", whole 1000)
    ∷ []

-- `d.get(key)`
unfoldable pub lookup {ℓ} : {A : Type ℓ} → Text → List (Text × A) → Option A
lookup key [] = none
lookup key ((k, a) ∷ rest) =
    let later = lookup key rest in if same_text k key then some a else later

abbrev pub scale : Decimal → Multiplier → Decimal
scale d m = record d { mantissa = d.mantissa * m.times; decimals = d.decimals + m.places }

-- The digits of a text, to the right of what is read; `none` at any other character.
unfoldable pub read_digits : ℕ → Text → Option ℕ
read_digits n [] = some n
read_digits n (c ∷ t) =
    let rest = read_digits (n * 10 + (c - b'0')) t in if is_digit c then rest else none

-- A decimal point parts a text.
unfoldable pub split_point : Text → Text × Option Text
split_point [] = ([], none)
split_point (c ∷ t) =
    let rest = split_point t in if c == b'.' then ([], some t) else (c ∷ rest.0, rest.1)

unfoldable pub unsigned : Bool → Text → Option Decimal
unsigned negative t =
    let (left, right) = split_point t in
    let fraction : Text = elim right [ none ↦ [] | some r ↦ r ] in
    if is_empty (left ++ fraction) then none else elim (read_digits 0 (left ++ fraction)) [
      | none ↦ none
      | some n ↦ some (record { negative = negative; mantissa = n; decimals = length fraction })
    ]

-- `float`, on the numerals without an exponent, underscores or a name such as `nan`.
unfoldable pub float : Text → Option Decimal
float [] = none
float (c ∷ t) =
    if c == b'-'
    then unsigned true t
    else if c == b'+'
    then unsigned false t
    else unsigned false (c ∷ t)

-- `_to_float`
unfoldable pub to_float : Text → Option Decimal
to_float t = float (strip (filter_by (λ c. not (c == b',')) t))
