-- ===== src/Normalizer/Patterns.antt =====
-- The regular expressions of financial_normalizer.py that read values. All ignore case.
use stock_analyst.Shared.{Text, codes, is_digit, is_alpha, is_space, not, List, [], ◌∷◌, ◌||◌, ◌==◌}
use stock_analyst.Shared.Regex.{
  Regex, Class, seq, group, opt, boundary, end, one, exactly, exactly_i, among, star, plus, maybe,
  literal_i, any_of, chain,
}

-- Hyphen, minus sign, en dash.
abbrev pub dashes : Text
dashes = b'-' ∷ 8722 ∷ 8211 ∷ []

-- Dollar, euro, pound, yen.
abbrev pub symbols : Text
symbols = b'$' ∷ 8364 ∷ 163 ∷ 165 ∷ []

abbrev digit_or_comma : Class
digit_or_comma c = is_digit c || c == b','

-- `[\d,]*\.?\d+`
abbrev numeral : Regex
numeral = chain (star digit_or_comma) (maybe (exactly b'.') ∷ plus is_digit ∷ [])

-- `_NUMBER_SUFFIX_RE`
unfoldable pub number_suffix_pattern : Regex
number_suffix_pattern =
    chain (group 1 numeral) (star is_space ∷ opt (group 2 (plus is_alpha)) ∷ end ∷ [])

-- `_RATIO_RE`
unfoldable pub ratio_pattern : Regex
ratio_pattern = chain (group 1 numeral) (star is_space ∷ one (exactly_i b'x') ∷ end ∷ [])

-- `_PERCENT_STRIP_RE`
unfoldable pub percent_strip_pattern : Regex
percent_strip_pattern =
    any_of (one (exactly b'%')) (literal_i (codes "percent") ∷ literal_i (codes "pct") ∷ [])

-- `_PERCENT_DETECT_RE`
unfoldable pub percent_detect_pattern : Regex
percent_detect_pattern = any_of (one (exactly b'%')) (
    chain boundary (literal_i (codes "percent") ∷ boundary ∷ [])
    ∷ chain boundary (literal_i (codes "pct") ∷ boundary ∷ [])
    ∷ [])

-- `_SHARES_DETECT_RE`, and `_SHARES_STRIP_RE`
unfoldable pub shares_pattern : Regex
shares_pattern = chain boundary (literal_i (codes "share") ∷ maybe (exactly_i b's') ∷ boundary ∷ [])

-- `_CURRENCY_WORD_RE`
unfoldable pub currency_word_pattern : Regex
currency_word_pattern = chain boundary (
    group 1 (
      any_of (literal_i (codes "usd"))
        (literal_i (codes "eur") ∷ literal_i (codes "gbp") ∷ literal_i (codes "jpy") ∷ []))
    ∷ boundary
    ∷ [])

-- `^\((.*)\)(%?)$`
unfoldable pub parenthesis_pattern : Regex
parenthesis_pattern = chain (one (exactly b'(')) (
    group 1 (star (λ c. not (c == 10)))
    ∷ one (exactly b')')
    ∷ group 2 (maybe (exactly b'%'))
    ∷ end
    ∷ [])

-- `\(?[-−–]?`
abbrev opening : Regex
opening = seq (maybe (exactly b'(')) (maybe (among dashes))

-- `[\d,]+(?:\.\d+)?`
abbrev amount : Regex
amount = seq (plus digit_or_comma) (opt (seq (one (exactly b'.')) (plus is_digit)))

-- `_CURRENCY_VALUE_RE`
unfoldable pub currency_value_pattern : Regex
currency_value_pattern = chain opening (
    one (among symbols)
    ∷ maybe is_space
    ∷ amount
    ∷ maybe (exactly b')')
    ∷ maybe is_space
    ∷ opt (
        any_of (literal_i (codes "billion")) (
          literal_i (codes "bn")
          ∷ literal_i (codes "million")
          ∷ literal_i (codes "mm")
          ∷ literal_i (codes "thousand")
          ∷ literal_i (codes "k")
          ∷ literal_i (codes "b")
          ∷ literal_i (codes "m")
          ∷ []))
    ∷ boundary
    ∷ [])

-- `_MAGNITUDE_VALUE_RE`
unfoldable pub magnitude_value_pattern : Regex
magnitude_value_pattern = chain opening (
    amount
    ∷ maybe (exactly b')')
    ∷ maybe is_space
    ∷ any_of (literal_i (codes "billion"))
        (literal_i (codes "bn") ∷ literal_i (codes "million") ∷ literal_i (codes "thousand") ∷ [])
    ∷ boundary
    ∷ [])

-- `_PERCENT_VALUE_RE`
unfoldable pub percent_value_pattern : Regex
percent_value_pattern = chain opening (
    amount
    ∷ maybe (exactly b')')
    ∷ maybe is_space
    ∷ any_of (one (exactly b'%')) (seq (literal_i (codes "percent")) boundary ∷ [])
    ∷ [])

-- `_SHARE_VALUE_RE`
unfoldable pub share_value_pattern : Regex
share_value_pattern = chain (maybe (among dashes)) (
    amount
    ∷ maybe is_space
    ∷ opt (
        any_of (literal_i (codes "million")) (
          literal_i (codes "billion")
          ∷ literal_i (codes "thousand")
          ∷ literal_i (codes "mm")
          ∷ literal_i (codes "bn")
          ∷ one (among (codes "mbkMBK"))
          ∷ []))
    ∷ star is_space
    ∷ literal_i (codes "share")
    ∷ maybe (exactly_i b's')
    ∷ boundary
    ∷ [])

-- `_SCAN_PATTERNS`
abbrev pub scan_patterns : List Regex
scan_patterns =
    currency_value_pattern ∷ magnitude_value_pattern ∷ percent_value_pattern ∷ share_value_pattern
    ∷ []
