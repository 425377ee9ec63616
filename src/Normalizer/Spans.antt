-- ===== src/Normalizer/Spans.antt =====
-- `extract_values_from_text` of financial_normalizer.py: the matches of the scan patterns, of which
-- those that overlap one kept before are dropped.
use stock_analyst.Shared.{
  ℕ, ◌+◌, ◌-◌, Text, List, [], ◌∷◌, ◌++◌, map, Bool, false, ◌&&◌, ◌||◌, none, ltb, ◌==◌, any,
  length, strip, if◌then◌else◌, Bool-cases, sort_desc, Pairwise, All, ◌≡◌, inl, inr, arith,
}
use stock_analyst.Shared.Regex.{Regex, Match, find_iter}
use stock_analyst.Normalizer.{NormalizedValue}
use stock_analyst.Normalizer.Patterns.{scan_patterns}
use stock_analyst.Normalizer.Values.{normalize_value}

-- A match, from `start` to before `stop`.
pub record Span : Type 0 where
  pub start : ℕ
  pub stop : ℕ
  pub matched : Text

unfoldable pub spans_of : List (ℕ × Match) → List Span
spans_of [] = []
spans_of ((i, m) ∷ ms) =
    record { start = i; stop = i + length m.text; matched = m.text } ∷ spans_of ms

-- The matches of all patterns, pattern by pattern.
unfoldable pub all_spans : List Regex → Text → List Span
all_spans [] t = []
all_spans (p ∷ ps) t = spans_of (find_iter p t) ++ all_spans ps t

-- By the key `(start, -(stop - start))`, `a` comes after `b`.
abbrev pub comes_after : Span → Span → Bool
comes_after a b =
    ltb b.start a.start || (a.start == b.start && ltb (a.stop - a.start) (b.stop - b.start))

abbrev pub overlaps : Span → Span → Bool
overlaps a b = ltb a.start b.stop && ltb b.start a.stop

-- The loop over the sorted matches.
unfoldable pub keep_from : List Span → List Span → List Span
keep_from kept [] = kept
keep_from kept (x ∷ xs) = keep_from (if any (overlaps x) kept then kept else kept ++ (x ∷ [])) xs

-- `kept.sort(key=lambda t: t[0])`
abbrev pub starts_after : Span → Span → Bool
starts_after a b = ltb b.start a.start

-- What is kept of some matches.
unfoldable pub kept_of : List Span → List Span
kept_of spans = sort_desc starts_after (keep_from [] (sort_desc comes_after spans))

-- `extract_values_from_text`
unfoldable pub extract_values_from_text : Text → List (Text × NormalizedValue)
extract_values_from_text t =
    map (λ k. (strip k.matched, normalize_value (strip k.matched) none))
      (kept_of (all_spans scan_patterns t))

-- Two spans have no position in common.
abbrev pub AreApart : Span → Span → Type 0
AreApart a b = overlaps a b ≡ false

pub apart_sym : (a b : Span) → AreApart a b → AreApart b a
apart_sym a b h = ground arith

All-snoc {ℓ κ} :
    {A : Type ℓ} (P : A → Type κ) (xs : List A) (x : A) → All P xs → P x → All P (xs ++ (x ∷ []))
All-snoc P [] x h p = (p, tt)
All-snoc P (y ∷ xs) x h p = (h.0, All-snoc P xs x h.1 p)

Pairwise-snoc {ℓ κ} :
    {A : Type ℓ} (R : A → A → Type κ) (xs : List A) (x : A)
    → Pairwise R xs
    → All (λ k. R k x) xs
    → Pairwise R (xs ++ (x ∷ []))
Pairwise-snoc R [] x h g = (tt, tt)
Pairwise-snoc R (y ∷ xs) x h g = (All-snoc (R y) xs x h.0 g.0, Pairwise-snoc R xs x h.1 g.1)

All-apart :
    (x : Span) (kept : List Span) → any (overlaps x) kept ≡ false → All (λ k. AreApart k x) kept
All-apart x [] h = tt
All-apart x (k ∷ kept) h = (ground arith, All-apart x kept (ground arith))

pub keep_from-apart :
    (kept xs : List Span) → Pairwise AreApart kept → Pairwise AreApart (keep_from kept xs)
unfolding keep_from
keep_from-apart kept [] h = h
keep_from-apart kept (x ∷ xs) h = elim (Bool-cases (any (overlaps x) kept)) [
  | inl taken ↦ rw taken (keep_from-apart kept xs h)
  | inr free ↦ rw free (
      keep_from-apart (kept ++ (x ∷ [])) xs
        (Pairwise-snoc AreApart kept x h (All-apart x kept free)))
]
