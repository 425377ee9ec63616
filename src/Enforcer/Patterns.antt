-- ===== src/Enforcer/Patterns.antt =====
-- The regular expressions of packages/agents/src/agents/shared/citation_enforcer.py.
use stock_analyst.Shared.{ℕ, none, some, Text, codes, is_digit, is_space, [], ◌∷◌, ◌||◌, ◌==◌}
use stock_analyst.Shared.Regex.{
  Regex, repeat, seq, group, boundary, after, not_after, one, exactly, exactly_i, among, not_among,
  star, plus, maybe, literal, literal_i, any_of, chain,
}

abbrev quote_mark : ℕ
quote_mark = 34

-- `\[([^\]]+),\s*([^\]]+)\]:\s*"([^"]{10,})"`
unfoldable pub citation_pattern : Regex
citation_pattern = chain (literal (codes "[")) (
    group 1 (plus (not_among (codes "]")))
    ∷ literal (codes ",")
    ∷ star is_space
    ∷ group 2 (plus (not_among (codes "]")))
    ∷ literal (codes "]:")
    ∷ star is_space
    ∷ one (exactly quote_mark)
    ∷ group 3 (repeat (not_among (quote_mark ∷ [])) 10 none)
    ∷ one (exactly quote_mark)
    ∷ [])

-- `\[?[^\[\]\n]{1,80}\]?:\s*"[^"]{5,}"`
unfoldable pub citation_attempt_pattern : Regex
citation_attempt_pattern = chain (maybe (exactly b'[')) (
    repeat (not_among (b'[' ∷ b']' ∷ 10 ∷ [])) 1 (some 79)
    ∷ maybe (exactly b']')
    ∷ literal (codes ":")
    ∷ star is_space
    ∷ one (exactly quote_mark)
    ∷ repeat (not_among (quote_mark ∷ [])) 5 none
    ∷ one (exactly quote_mark)
    ∷ [])

-- `(?<!\[)\b\d[\d,]*\.?\d*\s*(?:billion|million|thousand|%|percent|B|M|K)\b`, IGNORECASE
unfoldable pub number_pattern : Regex
number_pattern = chain (not_after (exactly b'[')) (
    boundary
    ∷ one is_digit
    ∷ star (λ c. is_digit c || c == b',')
    ∷ maybe (exactly b'.')
    ∷ star is_digit
    ∷ star is_space
    ∷ any_of (literal_i (codes "billion")) (
        literal_i (codes "million")
        ∷ literal_i (codes "thousand")
        ∷ literal (codes "%")
        ∷ literal_i (codes "percent")
        ∷ literal_i (codes "b")
        ∷ literal_i (codes "m")
        ∷ literal_i (codes "k")
        ∷ [])
    ∷ boundary
    ∷ [])

-- The alternatives of `will\s+(?:grow|increase|decrease|improve|expand|reach)`.
abbrev will_pattern : Regex
will_pattern = chain (literal_i (codes "will")) (
    plus is_space
    ∷ any_of (literal_i (codes "grow")) (
        literal_i (codes "increase")
        ∷ literal_i (codes "decrease")
        ∷ literal_i (codes "improve")
        ∷ literal_i (codes "expand")
        ∷ literal_i (codes "reach")
        ∷ [])
    ∷ [])

abbrev two_words : Regex → Text → Regex
two_words p w = chain p (plus is_space ∷ literal_i w ∷ [])

-- A word with an optional final `s`.
abbrev maybe_s : Text → Regex
maybe_s w = seq (literal_i w) (maybe (exactly_i b's'))

unfoldable pub speculation_pattern : Regex
speculation_pattern = chain boundary (
    any_of will_pattern (
      two_words (maybe_s (codes "expect")) (codes "to")
      ∷ two_words (literal_i (codes "expected")) (codes "to")
      ∷ two_words (two_words (literal_i (codes "is")) (codes "expected")) (codes "to")
      ∷ two_words (literal_i (codes "analysts")) (codes "predict")
      ∷ maybe_s (codes "forecast")
      ∷ maybe_s (codes "project")
      ∷ [])
    ∷ boundary
    ∷ [])

unfoldable pub inference_pattern : Regex
inference_pattern = chain boundary (
    any_of (two_words (maybe_s (codes "appear")) (codes "to")) (
      two_words (maybe_s (codes "seem")) (codes "to")
      ∷ literal_i (codes "likely")
      ∷ literal_i (codes "probably")
      ∷ literal_i (codes "presumably")
      ∷ two_words (maybe_s (codes "suggest")) (codes "that")
      ∷ two_words (maybe_s (codes "implie")) (codes "that")
      ∷ [])
    ∷ boundary
    ∷ [])

-- `\b(?:is|are|was|were|has|have|had)\b`
unfoldable pub claim_verb_pattern : Regex
claim_verb_pattern = chain boundary (
    any_of (literal (codes "is")) (
      literal (codes "are")
      ∷ literal (codes "was")
      ∷ literal (codes "were")
      ∷ literal (codes "has")
      ∷ literal (codes "have")
      ∷ literal (codes "had")
      ∷ [])
    ∷ boundary
    ∷ [])

-- `(?<=[.!?])\s+`
unfoldable pub sentence_break : Regex
sentence_break = seq (after (among (codes ".!?"))) (plus is_space)
