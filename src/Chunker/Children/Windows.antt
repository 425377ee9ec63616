-- ===== src/Chunker/Children/Windows.antt =====
-- The windows of sentences of `_split_into_child_chunks`: their bounds and their budget.
use stock_analyst.Shared.{
  ℕ, zero, suc, ◌+◌, ◌-◌, ◌≤◌, ◌<◌, max, List, [], ◌∷◌, ◌≡◌, ◌≢◌, refl, get_or, ◌⊎◌, inl, inr, All,
  arith, Bool-cases, length, take, drop, leb, leb→le, ap,
}
use stock_analyst.Chunker.Defs.{Chunker}
use stock_analyst.Chunker.Children.{extend, window_size, step_back, windows_from, windows}

abbrev pub sum : List ℕ → ℕ
sum [] = 0
sum (t ∷ ts) = t + sum ts

-- From `start` on the windows are not empty, each begins behind the start of the one before and
-- at or before its end, and the last ends at `n`.
pub data Covers (n : ℕ) : ℕ → List (ℕ × ℕ) → Type 0 where
  last : (a b : ℕ) → a < b → b ≡ n → Covers n a ((a, b) ∷ [])
  more :
      (a b next : ℕ) (ws : List (ℕ × ℕ))
      → a < next
      → next ≤ b
      → b < n
      → Covers n next ws
      → Covers n a ((a, b) ∷ ws)

-- The sentences of a window are within the budget, or are one that is over it.
abbrev pub IsWithin : Chunker → List ℕ → ℕ × ℕ → Type 0
IsWithin c tokens (a, b) = (sum (take (b - a) (drop a tokens)) ≤ c.child_max_tokens) ⊎ (b ≡ a + 1)

extend-le : (limit total : ℕ) (ts : List ℕ) → extend limit total ts ≤ length ts
unfolding extend
extend-le limit total [] = omega arith
extend-le limit total (t ∷ ts) = ground (arith, extend-le limit (total + t) ts)

-- What was taken fits, unless nothing was.
extend_fits :
    (limit total : ℕ) (ts : List ℕ)
    → (total + sum (take (extend limit total ts) ts) ≤ limit) ⊎ (extend limit total ts ≡ 0)
unfolding extend
extend_fits limit total [] = inr refl
extend_fits limit total (t ∷ ts) = ground (arith, extend_fits limit (total + t) ts)

step_back-le :
    (overlap : ℕ) (tokens : List ℕ) (start k total : ℕ) → step_back overlap tokens start k total ≤ k
unfolding step_back
step_back-le overlap tokens start zero total = omega arith
step_back-le overlap tokens start (suc k) total =
    ground (arith, step_back-le overlap tokens start k (total + get_or tokens (start + suc k) 0))

length-drop : (n : ℕ) (ts : List ℕ) → length (drop n ts) ≡ length ts - n
length-drop zero ts = omega arith
length-drop (suc n) [] = omega arith
length-drop (suc n) (t ∷ ts) = omega (arith, length-drop n ts)

-- The end of a window is behind its start, and in range.
window_size_bounds :
    (limit : ℕ) (ts : List ℕ)
    → 0 < length ts
    → (0 < window_size limit ts) × (window_size limit ts ≤ length ts)
unfolding window_size
window_size_bounds limit [] h = absurd (omega arith)
window_size_bounds limit (t ∷ ts) h = (omega arith, omega (arith, extend-le limit t ts))

-- The bounds of one round: where the window ends, and where the next one begins.
round_bounds :
    (c : Chunker) (tokens : List ℕ) (start : ℕ)
    → start < length tokens
    → let stop = start + window_size c.child_max_tokens (drop start tokens) in
      let back = step_back c.child_overlap_tokens tokens start (stop - 1 - start) 0 in
      let next = max (start + back + 1) (start + 1) in
      (start < stop) × (stop ≤ length tokens) × (start < next) × (next ≤ stop)
round_bounds c tokens start inside =
    let size = window_size c.child_max_tokens (drop start tokens) in
    let (some_taken, in_range) =
      window_size_bounds c.child_max_tokens (drop start tokens)
        (omega (arith, length-drop start tokens)) in
    let stepped = step_back-le c.child_overlap_tokens tokens start (start + size - 1 - start) 0 in
    (omega arith, omega (arith, length-drop start tokens), omega arith, omega arith)

windows_from-Covers :
    (fuel : ℕ) (c : Chunker) (tokens : List ℕ) (start : ℕ)
    → start < length tokens
    → length tokens - start ≤ fuel
    → Covers (length tokens) start (windows_from fuel c tokens start)
unfolding windows_from
windows_from-Covers zero c tokens start inside enough = absurd (omega arith)
windows_from-Covers (suc fuel) c tokens start inside enough =
    let stop = start + window_size c.child_max_tokens (drop start tokens) in
    let back = step_back c.child_overlap_tokens tokens start (stop - 1 - start) 0 in
    let next = max (start + back + 1) (start + 1) in
    let (taken, in_range, ahead, overlapping) = round_bounds c tokens start inside in
    elim (Bool-cases (leb (length tokens) stop)) [
      | inl done ↦
          let reached = leb→le (length tokens) stop done in
          rw (done, windows_from) (last start stop taken (omega arith))
      | inr go_on ↦
          let short : stop < length tokens = ground arith in
          rw (go_on, windows_from)
            (more start stop next _ ahead overlapping short
              (windows_from-Covers fuel c tokens next (omega arith) (omega arith)))
    ]

-- The first sentence is taken whatever it holds, the others only while they fit.
window_fits :
    (limit : ℕ) (ts : List ℕ)
    → (sum (take (window_size limit ts) ts) ≤ limit) ⊎ (window_size limit ts ≡ 1)
unfolding window_size
window_fits limit [] = inl (omega arith)
window_fits limit (t ∷ ts) = elim (extend_fits limit t ts) [
  | inl fits ↦ inl fits
  | inr none_more ↦ inr (ap (λ k. suc k) none_more)
]

window-IsWithin :
    (c : Chunker) (tokens : List ℕ) (start : ℕ)
    → IsWithin c tokens (start, start + window_size c.child_max_tokens (drop start tokens))
window-IsWithin c tokens start =
    let ts = drop start tokens in
    let size = window_size c.child_max_tokens ts in
    let back : start + size - start ≡ size = omega arith in
    elim (window_fits c.child_max_tokens ts) [
      | inl fits ↦ inl (rw back fits)
      | inr alone ↦ inr (ap (λ k. start + k) alone)
    ]

windows_from-IsWithin :
    (fuel : ℕ) (c : Chunker) (tokens : List ℕ) (start : ℕ)
    → start < length tokens
    → All (IsWithin c tokens) (windows_from fuel c tokens start)
unfolding windows_from
windows_from-IsWithin zero c tokens start inside = tt
windows_from-IsWithin (suc fuel) c tokens start inside =
    let stop = start + window_size c.child_max_tokens (drop start tokens) in
    let back = step_back c.child_overlap_tokens tokens start (stop - 1 - start) 0 in
    let next = max (start + back + 1) (start + 1) in
    let (taken, in_range, ahead, overlapping) = round_bounds c tokens start inside in
    elim (Bool-cases (leb (length tokens) stop)) [
      | inl done ↦ rw (done, windows_from) (window-IsWithin c tokens start, tt)
      | inr go_on ↦
          let short : stop < length tokens = ground arith in
          rw (go_on, windows_from)
            (window-IsWithin c tokens start, windows_from-IsWithin fuel c tokens next (omega arith))
    ]

-- For sentences with the given token counts, at least one, the windows cover all of them in order:
-- the first begins at the first sentence, each later one begins behind the start of the one before
-- and at or before its end, and the last ends at the last sentence. A window is within the child
-- budget or holds one sentence.
pub windows_cover :
    (c : Chunker) (tokens : List ℕ)
    → tokens ≢ []
    → Covers (length tokens) 0 (windows c tokens) × All (IsWithin c tokens) (windows c tokens)
unfolding windows
windows_cover c [] h = absurd (h refl)
windows_cover c (t ∷ ts) h = (
  windows_from-Covers (length (t ∷ ts)) c (t ∷ ts) 0 (omega arith) (omega arith),
  windows_from-IsWithin (length (t ∷ ts)) c (t ∷ ts) 0 (omega arith),
)
