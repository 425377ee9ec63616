-- ===== src/Chunker/Children.antt =====
-- `_split_into_child_chunks` of hierarchical.py: windows of sentences that overlap.
pub mod Windows
use stock_analyst.Shared.{
  ℕ, zero, suc, ◌+◌, ◌-◌, max, Text, codes, List, [], ◌∷◌, map, Bool, true, false, Option, none,
  some, ltb, leb, filter_by, is_space, join, if◌then◌else◌, length, take, drop, get_or, is_empty,
}
use stock_analyst.Shared.Regex.{Regex, split, after, among, plus, seq}
use stock_analyst.Chunker.Defs.{
  Chunk, ChunkType, child, Base, Chunker, token_estimate, locate_offsets, make_chunk,
}
use stock_analyst.Chunker.Parents.{not_blank}

-- `(?<=[.\n])\s+`
unfoldable pub sentence_split : Regex
sentence_split = seq (after (among (b'.' ∷ 10 ∷ []))) (plus is_space)

unfoldable pub sentences_of : Text → List Text
sentences_of content = filter_by not_blank (split sentence_split content)

-- How many more sentences fit after a total, given their tokens.
unfoldable pub extend : ℕ → ℕ → List ℕ → ℕ
extend limit total [] = 0
extend limit total (t ∷ ts) =
    let more = extend limit (total + t) ts in if leb (total + t) limit then suc more else 0

-- The sentences of a window that begins at the front of the list: the first, and what fits.
unfoldable pub window_size : ℕ → List ℕ → ℕ
window_size limit [] = 0
window_size limit (t ∷ ts) = suc (extend limit t ts)

-- The step back over trailing sentences: from `k` places behind the start of the window, down
-- to where it stops.
unfoldable pub step_back : ℕ → List ℕ → ℕ → ℕ → ℕ → ℕ
step_back overlap tokens start zero total = 0
step_back overlap tokens start (suc k) total =
    let lower = step_back overlap tokens start k (total + get_or tokens (start + suc k) 0) in
    if ltb total overlap then lower else suc k

-- The loop over windows, on fuel: each is `(start_idx, idx)`.
unfoldable pub windows_from : ℕ → Chunker → List ℕ → ℕ → List (ℕ × ℕ)
windows_from zero c tokens start = []
windows_from (suc fuel) c tokens start =
    let stop = start + window_size c.child_max_tokens (drop start tokens) in
    let back = step_back c.child_overlap_tokens tokens start (stop - 1 - start) 0 in
    let rest = windows_from fuel c tokens (max (start + back + 1) (start + 1)) in
    (start, stop) ∷ (if leb (length tokens) stop then [] else rest)

-- A round for every sentence is enough.
unfoldable pub windows : Chunker → List ℕ → List (ℕ × ℕ)
windows c [] = []
windows c (t ∷ ts) = windows_from (length (t ∷ ts)) c (t ∷ ts) 0

unfoldable pub child_of : Chunk → List Text → List (ℕ × ℕ) → ℕ → ℕ × ℕ → Chunk
child_of parent sentences offsets id (start, stop) =
    make_chunk id (join (codes " ") (take (stop - start) (drop start sentences))) child
      (some parent.chunk_id) parent.metadata.base
      (parent.metadata.char_start + (get_or offsets start (0, 0)).0)
      (parent.metadata.char_start + (get_or offsets (stop - 1) (0, 0)).1)

unfoldable pub children_from : Chunk → List Text → List (ℕ × ℕ) → ℕ → List (ℕ × ℕ) → List Chunk
children_from parent sentences offsets id [] = []
children_from parent sentences offsets id (w ∷ ws) =
    child_of parent sentences offsets id w ∷ children_from parent sentences offsets (id + 1) ws

unfoldable pub split_into_child_chunks : Chunker → Chunk → ℕ → List Chunk
split_into_child_chunks c parent id =
    let sentences = sentences_of parent.content in
    children_from parent sentences (locate_offsets parent.content sentences) id
      (windows c (map token_estimate sentences))
