-- ===== src/Normalizer/Values.antt =====
-- `normalize_value` of financial_normalizer.py: one value, from the text of a filing.
use stock_analyst.Shared.{
  ℕ, ◌+◌, Text, codes, List, [], ◌∷◌, ◌++◌, Bool, true, false, not, Option, none, some, ◌==◌, any,
  filter_by, is_digit, lower, strip, take, drop, length, if◌then◌else◌,
}
use stock_analyst.Shared.Regex.{match, search_in, occurs_in, strip_matches, group_text, is_some}
use stock_analyst.Normalizer.{
  Decimal, NormalizedValue, Multiplier, monetary_suffixes, count_suffixes, context_units, lookup,
  scale, to_float,
}
use stock_analyst.Normalizer.Patterns.{
  dashes, number_suffix_pattern, ratio_pattern, percent_strip_pattern, percent_detect_pattern,
  shares_pattern, currency_word_pattern, parenthesis_pattern,
}

-- `_CURRENCY_SYMBOLS`
abbrev pub currency_symbols : List (ℕ × Text)
currency_symbols =
    (b'$', codes "USD") ∷ (8364, codes "EUR") ∷ (163, codes "GBP") ∷ (165, codes "JPY") ∷ []

-- `_CURRENCY_WORDS`
abbrev pub currency_words : List (Text × Text)
currency_words =
    (codes "usd", codes "USD")
    ∷ (codes "eur", codes "EUR")
    ∷ (codes "gbp", codes "GBP")
    ∷ (codes "jpy", codes "JPY")
    ∷ []

abbrev text_of : Option Text → Text
text_of none = []
text_of (some t) = t

-- The first symbol that occurs, and the text without it.
unfoldable pub symbol_currency : List (ℕ × Text) → Text → Option Text × Text
symbol_currency [] t = (none, t)
symbol_currency ((symbol, code) ∷ rest) t =
    let later = symbol_currency rest t in
    if any (λ c. c == symbol) t then (some code, filter_by (λ c. not (c == symbol)) t) else later

-- The first currency word, and the text without it.
unfoldable pub word_currency : Text → Option Text × Text
word_currency t = elim (search_in currency_word_pattern t) [
  | none ↦ (none, t)
  | some (i, m) ↦ (
    lookup (lower (text_of (group_text 1 m.groups))) currency_words,
    take i t ++ drop (i + length m.text) t,
  )
]

unfoldable pub find_currency : Text → Option Text × Text
find_currency t =
    let by_symbol = symbol_currency currency_symbols t in
    if is_some by_symbol.0 then by_symbol else word_currency by_symbol.1

-- A sign: parentheses, or a dash at the front.
unfoldable pub find_sign : Text → Bool × Text
find_sign t = elim (match parenthesis_pattern t) [
  | some m ↦
      (true, strip (strip (text_of (group_text 1 m.groups)) ++ text_of (group_text 2 m.groups)))
  | none ↦ elim t [
    | [] ↦ (false, [])
    | c ∷ rest ↦ if any (λ d. d == c) dashes then (true, strip rest) else (false, c ∷ rest)
  ]
]

-- The number of a suffixed numeral, by the multiplier of the suffix, or by that of no suffix.
unfoldable pub parse_scaled : List (Text × Multiplier) → Option Multiplier → Text → Option Decimal
parse_scaled suffixes bare t = elim (match number_suffix_pattern (strip t)) [
  | none ↦ none
  | some m ↦ elim (to_float (text_of (group_text 1 m.groups))) [
    | none ↦ none
    | some number ↦ elim (group_text 2 m.groups) [
      | none ↦ elim bare [ none ↦ some number | some by ↦ some (scale number by) ]
      | some suffix ↦ elim (lookup (lower suffix) suffixes) [
        | none ↦ none
        | some by ↦ some (scale number by)
      ]
    ]
  ]
]

-- `_parse_monetary`
unfoldable pub parse_monetary : Text → Option Text → Option Decimal
parse_monetary t context_unit =
    parse_scaled monetary_suffixes
      (elim (lookup (text_of context_unit) context_units) [
        | none ↦ some (record { times = 1; places = 0 })
        | some by ↦ some by
      ])
      t

-- `_parse_magnitude`
unfoldable pub parse_magnitude : Text → List (Text × Multiplier) → Option Decimal
parse_magnitude t multipliers = parse_scaled multipliers none t

-- What a text is a value of, without its sign and its currency.
pub data Kind : Type 0 where
  percentage count ratio monetary : Kind

unfoldable pub kind_of : Text → Kind
kind_of t =
    if occurs_in percent_detect_pattern t
    then percentage
    else if occurs_in shares_pattern t
    then count
    else if is_some (match ratio_pattern t)
    then ratio
    else monetary

unfoldable pub number_of : Kind → Text → Option Text → Option Decimal
number_of percentage t context_unit = to_float (strip (strip_matches percent_strip_pattern t))
number_of count t context_unit =
    parse_magnitude (strip (strip_matches shares_pattern t)) count_suffixes
number_of ratio t context_unit = elim (match ratio_pattern t) [
  | none ↦ none
  | some m ↦ to_float (text_of (group_text 1 m.groups))
]
number_of monetary t context_unit = parse_monetary t context_unit

-- A value that could not be read.
abbrev pub unknown : Text → Option Text → Bool → NormalizedValue
unknown raw currency is_negative = record {
  raw_string = raw;
  numeric_value = none;
  unit = codes "unknown";
  currency = currency;
  is_negative = is_negative;
  confidence = 0;
}

abbrev pub known_currency : Option Text → Text
known_currency none = codes "USD"
known_currency (some c) = c

-- The results of the four branches.
unfoldable pub result_of : Text → Option Text → Bool → Kind → Option Decimal → NormalizedValue
result_of raw currency is_negative monetary none = unknown raw currency is_negative
result_of raw currency is_negative kind none = unknown raw none is_negative
result_of raw currency is_negative percentage (some n) = record {
  raw_string = raw;
  numeric_value = some n;
  unit = codes "percentage";
  currency = none;
  is_negative = is_negative;
  confidence = 90;
}
result_of raw currency is_negative count (some n) = record {
  raw_string = raw;
  numeric_value = some n;
  unit = codes "count";
  currency = none;
  is_negative = is_negative;
  confidence = 90;
}
result_of raw currency is_negative ratio (some n) = record {
  raw_string = raw;
  numeric_value = some n;
  unit = codes "ratio";
  currency = none;
  is_negative = is_negative;
  confidence = 85;
}
result_of raw currency is_negative monetary (some n) = record {
  raw_string = raw;
  numeric_value = some n;
  unit = known_currency currency ++ codes "_millions";
  currency = some (known_currency currency);
  is_negative = is_negative;
  confidence = 90;
}

-- The branch of a text with a digit.
unfoldable pub read_value : Text → Option Text → Text → NormalizedValue
read_value raw context_unit text =
    let (currency, amount) = find_currency text in
    let (is_negative, unsigned) = find_sign (strip amount) in
    result_of raw currency is_negative (kind_of unsigned)
      (number_of (kind_of unsigned) unsigned context_unit)

-- `normalize_value`; no branch of `_normalize_value_impl` raises.
unfoldable pub normalize_value : Text → Option Text → NormalizedValue
normalize_value raw context_unit =
    let text = strip raw in
    if any is_digit text then read_value raw context_unit text else unknown raw none false
