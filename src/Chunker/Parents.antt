-- ===== src/Chunker/Parents.antt =====
-- `_split_into_parent_chunks` of hierarchical.py: paragraphs gathered up to a token budget.
pub mod Partition
use stock_analyst.Shared.{
  ℕ, ◌+◌, ◌≤◌, Text, List, [], ◌∷◌, ◌++◌, map, Bool, true, false, ◌&&◌, not, Option, none, some,
  ltb, filter_by, is_empty, is_space, strip, join, if◌then◌else◌, ◌≡◌, refl, ◌⊎◌, inl, inr, All,
  All-append, All-map, All-weaken, arith, Bool-cases, length, ap, sym, ◌∙◌, ltb→lt,
}
use mathlib.Core.List.{zip, append_assoc, append-nil}
use stock_analyst.Shared.Regex.{Regex, split, one, exactly, star, chain}
use stock_analyst.Chunker.Defs.{
  Chunk, ChunkType, parent, Base, Chunker, token_estimate, locate_offsets, make_chunk,
}

-- `\n\s*\n`
unfoldable pub paragraph_split : Regex
paragraph_split = chain (one (exactly 10)) (star is_space ∷ one (exactly 10) ∷ [])

-- `p.strip()` is not empty
abbrev pub not_blank : Text → Bool
not_blank t = not (is_empty (strip t))

unfoldable pub paragraphs_of : Text → List Text
paragraphs_of text = filter_by not_blank (split paragraph_split text)

-- A paragraph with its place in the section.
abbrev pub Placed : Type 0
Placed = Text × (ℕ × ℕ)

-- The variables of the loop: the open group, its tokens, its start and its end.
pub record Group : Type 0 where
  pub paragraphs : List Text
  pub tokens : ℕ
  pub start : Option ℕ
  pub end : ℕ

abbrev pub empty_group : Group
empty_group = record { paragraphs = []; tokens = 0; start = none; end = 0 }

-- `flush`
unfoldable pub flush : Group → List Group
flush g = if is_empty g.paragraphs then [] else g ∷ []

unfoldable pub add : Group → Placed → Group
add g (p, (s, e)) = record {
  paragraphs = g.paragraphs ++ (p ∷ []);
  tokens = g.tokens + token_estimate p;
  start = elim g.start [ none ↦ some s | some s₀ ↦ some s₀ ];
  end = e;
}

-- The group is full for the next paragraph.
abbrev pub is_full : Chunker → Group → Placed → Bool
is_full c g p =
    not (is_empty g.paragraphs) && ltb c.parent_max_tokens (g.tokens + token_estimate p.0)

unfoldable pub gather : Chunker → List Placed → Group → List Group
gather c [] g = flush g
gather c (p ∷ ps) g =
    (if is_full c g p then flush g else [])
    ++ gather c ps (add (if is_full c g p then empty_group else g) p)

abbrev pub blank_line : Text
blank_line = 10 ∷ 10 ∷ []

unfoldable pub parent_of : Base → ℕ → ℕ → Group → Chunk
parent_of base section_char_offset id g =
    make_chunk id (join blank_line g.paragraphs) parent none base
      (section_char_offset + elim g.start [ none ↦ 0 | some s ↦ s ]) (section_char_offset + g.end)

-- The parents of a list of groups, with identifiers from `id` on.
unfoldable pub parents_from : Base → ℕ → ℕ → List Group → List Chunk
parents_from base offset id [] = []
parents_from base offset id (g ∷ gs) =
    parent_of base offset id g ∷ parents_from base offset (id + 1) gs

unfoldable pub split_into_parent_chunks : Chunker → Text → Base → ℕ → ℕ → List Chunk
split_into_parent_chunks c text base offset id =
    let ps = paragraphs_of text in
    parents_from base offset id (gather c (zip ps (locate_offsets text ps)) empty_group)
