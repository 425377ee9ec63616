-- ===== src/Normalizer/Examples.antt =====
-- Values of filings, and a text with overlapping matches.
use stock_analyst.Shared.{
  ℕ, Text, codes, List, [], ◌∷◌, true, false, Option, none, some, any, map, Pairwise, All,
  IsDescending, sort_desc, insert_desc, ◌≡◌, refl,
}
use stock_analyst.Shared.Regex.{search_in, match, occurs_in, find_iter, split, strip_matches}
use stock_analyst.Normalizer.{Decimal, lookup, to_float, float, unsigned, read_digits, split_point}
use stock_analyst.Normalizer.Patterns.{
  scan_patterns, number_suffix_pattern, ratio_pattern, percent_strip_pattern,
  percent_detect_pattern, shares_pattern, currency_word_pattern, parenthesis_pattern,
  currency_value_pattern, magnitude_value_pattern, percent_value_pattern, share_value_pattern,
}
use stock_analyst.Normalizer.Values.{
  normalize_value, find_currency, symbol_currency, word_currency, find_sign, kind_of, number_of,
  parse_monetary, parse_scaled, parse_magnitude, read_value, result_of,
}
use stock_analyst.Normalizer.Spans.{
  Span, spans_of, all_spans, kept_of, keep_from, starts_after, AreApart,
}
use stock_analyst.Normalizer.Kept.{settles, kept_of-IsChoice}

-- The number of a text, as it is kept.
abbrev number : Text → Option Decimal
number t = (normalize_value t none).numeric_value

abbrev tenth : ℕ → Option Decimal
tenth n = some (record { negative = false; mantissa = n; decimals = 1 })

-- A suffix scales onto millions; a parenthesis is a sign only where it closes the text, so that the
-- same amount before a magnitude word, or cut from a sentence, is not read.
reads :
    (number (codes "$1,234.5 billion") ≡ tenth 12345000)
    × (number (codes "(452.0)") ≡ tenth 4520)
    × (number (codes "($5.0) million") ≡ none)
    × (number (codes "($5.0") ≡ none)
    × (number (codes "12.5%") ≡ tenth 125)
    × (number (codes "(12.5%") ≡ none)
    × (number (codes ", shares") ≡ none)
unfolding normalize_value read_value result_of number_of kind_of find_sign find_currency
    symbol_currency word_currency parse_monetary parse_magnitude parse_scaled lookup to_float float
    unsigned read_digits split_point match search_in occurs_in strip_matches split find_iter
    parenthesis_pattern percent_detect_pattern shares_pattern ratio_pattern number_suffix_pattern
    currency_word_pattern percent_strip_pattern
reads = (refl, refl, refl, refl, refl, refl, refl)

-- The spans that are kept of a text, by their matches.
abbrev kept_texts : Text → List Text
kept_texts t = map (λ (k : Span). k.matched) (kept_of (all_spans scan_patterns t))

-- The negative amounts of a sentence lose their closing parenthesis, and a lone comma before the word
-- "shares" is taken for a value.
extracts :
    (kept_texts (codes "a loss of ($5.0).") ≡ codes "($5.0" ∷ [])
    × (kept_texts (codes "fell (12.5%) then") ≡ codes "(12.5%" ∷ [])
    × (kept_texts (codes "bonds, shares") ≡ codes ", shares" ∷ [])
    × (kept_texts (codes "$3 million shares") ≡ codes "$3 million" ∷ [])
unfolding kept_of keep_from all_spans spans_of find_iter sort_desc insert_desc
    currency_value_pattern magnitude_value_pattern percent_value_pattern share_value_pattern
extracts = (refl, refl, refl, refl)

abbrev span : ℕ → ℕ → Span
span a b = record { start = a; stop = b; matched = [] }

-- The second overlaps the first and begins behind it; the third is apart.
kept_of-IsChoice_example :
    let spans = span 4 9 ∷ span 2 6 ∷ span 9 12 ∷ [] in
    Pairwise AreApart (kept_of spans)
    × IsDescending starts_after (kept_of spans)
    × All (λ x. any (settles x) (kept_of spans) ≡ true) spans
kept_of-IsChoice_example = kept_of-IsChoice (span 4 9 ∷ span 2 6 ∷ span 9 12 ∷ [])
