-- ===== src/Index/Sparse.antt =====
-- The sparse vectors of pipeline.py: `_tokenize` and `compute_bm25_sparse`.
use stock_analyst.Shared.{
  ℕ, ◌+◌, ◌*◌, ◌%◌, ◌<◌, Text, codes, List, [], ◌∷◌, map, ◌||◌, not, ◌==◌, any, filter_by, lower,
  is_digit, is_space, leb, ◌&&◌, same_text, if◌then◌else◌, All, Pairwise, ◌≢◌, arith, Bool-cases,
  inl, inr, Bool-cases, inl, inr,
}
use native.Mathlib.Nat.{mul-pos}
use stock_analyst.Shared.Regex.{Regex, plus, find_iter, split}

-- `[a-z0-9]+`
unfoldable pub term_pattern : Regex
term_pattern = plus (λ c. (leb b'a' c && leb c b'z') || is_digit c)

-- `_STOPWORDS`
unfoldable pub stopwords : List Text
stopwords = split (plus is_space) (
    codes
      "a an the and or but if while of at by for with about against between into through during before after above below to from up down in out on off over under again further then once here there all any both each few more most other some such no nor not only own same so than too very s t can will just don should now is are was were be been being have has had do does did doing this that these those i you he she it we they what which who whom as")

-- `_tokenize`
unfoldable pub tokenize : Text → List Text
tokenize text =
    filter_by (λ t. not (any (same_text t) stopwords))
      (map (λ (i, m). m.text) (find_iter term_pattern (lower text)))

-- An exact quotient.
pub record Weight : Type 0 where
  pub num : ℕ
  pub den : ℕ

abbrev pub SparseVector : Type 0
SparseVector = List (ℕ × Weight)

-- `Counter(tokens)`, in the order of the first occurrences
unfoldable pub add_count : Text → List (Text × ℕ) → List (Text × ℕ)
add_count t [] = (t, 1) ∷ []
add_count t ((u, n) ∷ counts) =
    let rest = add_count t counts in if same_text u t then (u, n + 1) ∷ counts else (u, n) ∷ rest

unfoldable pub counter : List (Text × ℕ) → List Text → List (Text × ℕ)
counter counts [] = counts
counter counts (t ∷ ts) = counter (add_count t counts) ts

-- `weights[id] = weights.get(id, 0.0) + w`
unfoldable pub add_weight : ℕ → Weight → SparseVector → SparseVector
add_weight id w [] = (id, w) ∷ []
add_weight id w ((i, v) ∷ ws) =
    let rest = add_weight id w ws in
    if i == id
    then (i, record { num = v.num * w.den + w.num * v.den; den = v.den * w.den }) ∷ ws
    else (i, v) ∷ rest

abbrev pub vocabulary_size : ℕ
vocabulary_size = 30000

-- The hash `zlib.crc32`, and the constant `k1` of `BM25Okapi`.
module _ (crc32 : Text → ℕ) (k1 : Weight) where
  -- `freq * (k1 + 1) / (freq + k1 * (1 - b + b * doc_len / avgdl))`; the one document of the corpus has
  -- the average length, so that the last factor is 1.
  abbrev pub saturation : ℕ → Weight
  saturation freq = record { num = freq * (k1.num + k1.den); den = freq * k1.den + k1.num }

  unfoldable pub weights_from : SparseVector → List (Text × ℕ) → SparseVector
  weights_from ws [] = ws
  weights_from ws ((t, freq) ∷ counts) =
      weights_from (add_weight (crc32 t % vocabulary_size) (saturation freq) ws) counts

  unfoldable pub compute_bm25_sparse : Text → SparseVector
  compute_bm25_sparse text = weights_from [] (counter [] (tokenize text))

abbrev pub IsOther : (ℕ × Weight) → (ℕ × Weight) → Type 0
IsOther p q = p.0 ≢ q.0

abbrev pub IsPositive : Weight → Type 0
IsPositive w = (0 < w.num) × (0 < w.den)

-- A vector as the store takes it: its indices are distinct and in the vocabulary, its weights are
-- positive.
abbrev pub IsSparse : SparseVector → Type 0
IsSparse v =
    Pairwise IsOther v
    × (All (λ (p : ℕ × Weight). p.0 < vocabulary_size) v
        × All (λ (p : ℕ × Weight). IsPositive p.1) v)

module _ (P : ℕ → Type 0) where
  All-add_weight :
      (id : ℕ) (w : Weight) (ws : SparseVector)
      → P id
      → All (λ (p : ℕ × Weight). P p.0) ws
      → All (λ (p : ℕ × Weight). P p.0) (add_weight id w ws)
  unfolding add_weight
  All-add_weight id w [] h hs = (h, tt)
  All-add_weight id w ((i, v) ∷ ws) h (hi, hs) = elim (Bool-cases (i == id)) [
    | inl same ↦ rw (add_weight, same) (hi, hs)
    | inr other ↦ rw (add_weight, other) (hi, All-add_weight id w ws h hs)
  ]

add_weight-Pairwise :
    (id : ℕ) (w : Weight) (ws : SparseVector)
    → Pairwise IsOther ws
    → Pairwise IsOther (add_weight id w ws)
unfolding add_weight
add_weight-Pairwise id w [] h = (tt, tt)
add_weight-Pairwise id w ((i, v) ∷ ws) (hi, hs) = elim (Bool-cases (i == id)) [
  | inl same ↦ rw (add_weight, same) (hi, hs)
  | inr other ↦
      rw (add_weight, other)
        (All-add_weight (λ j. i ≢ j) id w ws (λ e. ground arith) hi, add_weight-Pairwise id w ws hs)
]

sum-IsPositive :
    (v w : Weight)
    → IsPositive v
    → IsPositive w
    → IsPositive (record { num = v.num * w.den + w.num * v.den; den = v.den * w.den })
sum-IsPositive v w (vn, vd) (wn, wd) = (omega (arith, mul-pos vn wd), mul-pos vd wd)

add_weight-IsPositive :
    (id : ℕ) (w : Weight) (ws : SparseVector)
    → IsPositive w
    → All (λ (p : ℕ × Weight). IsPositive p.1) ws
    → All (λ (p : ℕ × Weight). IsPositive p.1) (add_weight id w ws)
unfolding add_weight
add_weight-IsPositive id w [] h hs = (h, tt)
add_weight-IsPositive id w ((i, v) ∷ ws) h (hi, hs) = elim (Bool-cases (i == id)) [
  | inl same ↦ rw (add_weight, same) (sum-IsPositive v w hi h, hs)
  | inr other ↦ rw (add_weight, other) (hi, add_weight-IsPositive id w ws h hs)
]

abbrev IsCounted : List (Text × ℕ) → Type 0
IsCounted = All (λ (p : Text × ℕ). 0 < p.1)

add_count-IsCounted :
    (t : Text) (counts : List (Text × ℕ)) → IsCounted counts → IsCounted (add_count t counts)
unfolding add_count
add_count-IsCounted t [] h = (omega arith, tt)
add_count-IsCounted t ((u, n) ∷ counts) (hn, h) = elim (Bool-cases (same_text u t)) [
  | inl same ↦ rw (add_count, same) (omega (arith, hn), h)
  | inr other ↦ rw (add_count, other) (hn, add_count-IsCounted t counts h)
]

counter-IsCounted :
    (ts : List Text) (counts : List (Text × ℕ)) → IsCounted counts → IsCounted (counter counts ts)
unfolding counter
counter-IsCounted [] counts h = h
counter-IsCounted (t ∷ ts) counts h =
    counter-IsCounted ts (add_count t counts) (add_count-IsCounted t counts h)

module _ (crc32 : Text → ℕ) (k1 : Weight) (k1_den : 0 < k1.den) where
  saturation-IsPositive : (freq : ℕ) → 0 < freq → IsPositive (saturation crc32 k1 freq)
  saturation-IsPositive freq h =
      (mul-pos h (omega (arith, k1_den)), omega (arith, mul-pos h k1_den))

  weights_from-IsSparse :
      (counts : List (Text × ℕ)) (ws : SparseVector)
      → IsCounted counts
      → IsSparse ws
      → IsSparse (weights_from crc32 k1 ws counts)
  unfolding weights_from
  weights_from-IsSparse [] ws h sparse = sparse
  weights_from-IsSparse ((t, freq) ∷ counts) ws (hf, h) (distinct, (below, positive)) =
      let id = crc32 t % vocabulary_size in
      let w = saturation crc32 k1 freq in
      weights_from-IsSparse counts (add_weight id w ws) h (
        add_weight-Pairwise id w ws distinct,
        (
          All-add_weight (λ i. i < vocabulary_size) id w ws (omega arith) below,
          add_weight-IsPositive id w ws (saturation-IsPositive freq hf) positive,
        ),
      )

  -- Whatever the hash, where the constant is a quotient with a positive denominator: the sparse
  -- vector of a text has distinct indices, all in the vocabulary, and positive weights.
  pub compute_bm25_sparse-IsSparse : (text : Text) → IsSparse (compute_bm25_sparse crc32 k1 text)
  unfolding compute_bm25_sparse
  compute_bm25_sparse-IsSparse text =
      weights_from-IsSparse (counter [] (tokenize text)) []
        (counter-IsCounted (tokenize text) [] tt) (tt, (tt, tt))
