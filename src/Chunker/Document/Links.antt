-- ===== src/Chunker/Document/Links.antt =====
-- The links of children to parents in the result of `chunk_document`.
use stock_analyst.Shared.{
  ℕ, ◌+◌, Text, List, [], ◌∷◌, ◌++◌, Option, none, some, ◌≡◌, ◌≢◌, refl, sym, subst, inl, inr, All,
  Bool-cases, length,
}
use mathlib.Core.List.{append_assoc}
use stock_analyst.Chunker.Defs.{Chunk, ChunkType, parent, child, Base, Chunker, make_chunk}
use stock_analyst.Chunker.Parents.{
  Group, parent_of, parents_from, split_into_parent_chunks, not_blank,
}
use stock_analyst.Chunker.Children.{child_of, children_from, split_into_child_chunks}
use stock_analyst.Chunker.Pages.{ParsedDocument}
use stock_analyst.Chunker.Document.{
  ExtractedTable, create_table_chunk, Groups, pop_tables, table_chunks, with_children,
  section_chunks, leftover_chunks, sections_from, chunk_document,
}

-- A parent or a table has no parent; a child has the parent that is open.
abbrev pub Link : ChunkType → Option ℕ → Chunk → Type 0
Link child open_parent x = (x.parent_chunk_id ≡ open_parent) × (open_parent ≢ none)
Link _ open_parent x = x.parent_chunk_id ≡ none

abbrev pub opened : ChunkType → ℕ → Option ℕ → Option ℕ
opened parent id last = some id
opened _ id last = last

-- The chunks are linked, each to the closest parent before it.
abbrev pub IsLinked : Option ℕ → List Chunk → Type 0
IsLinked last [] = Unit
IsLinked last (x ∷ xs) =
    Link x.chunk_type last x × IsLinked (opened x.chunk_type x.chunk_id last) xs

-- Linked wherever they stand.
abbrev LinkedAnywhere : List Chunk → Type 0
LinkedAnywhere xs = (last : Option ℕ) → IsLinked last xs

parents_from-base :
    (base : Base) (offset id : ℕ) (gs : List Group)
    → All
        (λ p. (p.chunk_type ≡ parent) × (p.parent_chunk_id ≡ none) × (p.metadata.base ≡ base))
        (parents_from base offset id gs)
unfolding parents_from parent_of make_chunk
parents_from-base base offset id [] = tt
parents_from-base base offset id (g ∷ gs) =
    ((refl, refl, refl), parents_from-base base offset (id + 1) gs)

-- A parent of a section.
abbrev pub IsParent : Base → Chunk → Type 0
IsParent base p = (p.chunk_type ≡ parent) × (p.parent_chunk_id ≡ none) × (p.metadata.base ≡ base)

pub split-IsParent :
    (c : Chunker) (content : Text) (base : Base) (offset id : ℕ)
    → All (IsParent base) (split_into_parent_chunks c content base offset id)
unfolding split_into_parent_chunks
split-IsParent c content base offset id = parents_from-base base offset id _

-- A child of `p`.
abbrev pub IsChildOf : Chunk → Chunk → Type 0
IsChildOf p x =
    (x.chunk_type ≡ child)
    × (x.parent_chunk_id ≡ some p.chunk_id)
    × (x.metadata.base ≡ p.metadata.base)

children_from-IsChildOf :
    (p : Chunk) (sentences : List Text) (offsets : List (ℕ × ℕ)) (id : ℕ) (ws : List (ℕ × ℕ))
    → All (IsChildOf p) (children_from p sentences offsets id ws)
unfolding children_from child_of make_chunk
children_from-IsChildOf p sentences offsets id [] = tt
children_from-IsChildOf p sentences offsets id ((a, b) ∷ ws) =
    ((refl, refl, refl), children_from-IsChildOf p sentences offsets (id + 1) ws)

pub split-IsChildOf :
    (c : Chunker) (p : Chunk) (id : ℕ) → All (IsChildOf p) (split_into_child_chunks c p id)
unfolding split_into_child_chunks
split-IsChildOf c p id = children_from-IsChildOf p _ _ id _

children-IsLinked :
    (p : Chunk) (xs rest : List Chunk)
    → All (IsChildOf p) xs
    → IsLinked (some p.chunk_id) rest
    → IsLinked (some p.chunk_id) (xs ++ rest)
children-IsLinked p [] rest h linked = linked
children-IsLinked p (x ∷ xs) rest h linked =
    rw h.0.0 ((h.0.1, λ e. cc), children-IsLinked p xs rest h.1 linked)

parent-IsLinked :
    (base : Base) (p : Chunk) (xs : List Chunk) (last : Option ℕ)
    → IsParent base p
    → IsLinked (some p.chunk_id) xs
    → IsLinked last (p ∷ xs)
parent-IsLinked base p xs last h linked = rw h.0 (h.1, linked)

module _ (c : Chunker) (name tenant_id coverage_id : Text) where
  with_children-IsLinked :
      (base : Base) (id : ℕ) (ps rest : List Chunk)
      → All (IsParent base) ps
      → LinkedAnywhere rest
      → LinkedAnywhere (with_children c name tenant_id coverage_id id ps ++ rest)
  unfolding with_children
  with_children-IsLinked base id [] rest h linked last = linked last
  with_children-IsLinked base id (p ∷ ps) rest h linked last =
      let children = split_into_child_chunks c p id in
      let others = with_children c name tenant_id coverage_id (id + length children) ps in
      parent-IsLinked base p _ last h.0 (
        subst (IsLinked (some p.chunk_id)) (sym (append_assoc children others rest)) (
          children-IsLinked p children (others ++ rest) (split-IsChildOf c p id) (
            with_children-IsLinked base (id + length children) ps rest h.1 linked
              (some p.chunk_id))))

  table_chunks-IsLinked :
      (id : ℕ) (ts : List ExtractedTable) (rest : List Chunk)
      → LinkedAnywhere rest
      → LinkedAnywhere (table_chunks c name tenant_id coverage_id id ts ++ rest)
  unfolding table_chunks create_table_chunk make_chunk
  table_chunks-IsLinked id [] rest linked last = linked last
  table_chunks-IsLinked id (t ∷ ts) rest linked last =
      (refl, table_chunks-IsLinked (id + 1) ts rest linked last)

  leftover-IsLinked :
      (id : ℕ) (gs : Groups) → LinkedAnywhere (leftover_chunks c name tenant_id coverage_id id gs)
  unfolding leftover_chunks
  leftover-IsLinked id [] = λ last. tt
  leftover-IsLinked id ((n, ts) ∷ gs) =
      table_chunks-IsLinked id ts _ (leftover-IsLinked (id + length ts) gs)

  section-IsLinked :
      (id : ℕ) (base : Base) (content : Text) (offset : ℕ) (rest : List Chunk)
      → LinkedAnywhere rest
      → LinkedAnywhere (section_chunks c name tenant_id coverage_id id base content offset ++ rest)
  unfolding section_chunks
  section-IsLinked id base content offset rest linked = elim (Bool-cases (not_blank content)) [
    | inl holds ↦
        let ps = split_into_parent_chunks c content base offset id in
        rw (holds, section_chunks)
          (with_children-IsLinked base (id + length ps) ps rest
            (split-IsParent c content base offset id) linked)
    | inr blank ↦ rw (blank, section_chunks) linked
  ]

  sections-IsLinked :
      (base_of : Text → Base) (id offset : ℕ) (sections : List (Text × Text)) (gs : Groups)
      → LinkedAnywhere (sections_from c name tenant_id coverage_id base_of id offset sections gs)
  unfolding sections_from
  sections-IsLinked base_of id offset [] gs = leftover-IsLinked id gs
  sections-IsLinked base_of id offset ((n, content) ∷ rest) gs =
      let chunks = section_chunks c name tenant_id coverage_id id (base_of n) content offset in
      let (ts, gs') = pop_tables n gs in
      let next = id + length chunks in
      section-IsLinked id (base_of n) content offset _ (
        table_chunks-IsLinked next ts _
          (sections-IsLinked base_of (next + length ts) (offset + length content + 2) rest gs'))

-- In the list of a document's chunks a child has the identifier of the closest parent before it,
-- and there is one; a parent or a table has none.
pub chunk_document-IsLinked :
    (c : Chunker) (doc : ParsedDocument) (tables : List ExtractedTable)
    (tenant_id coverage_id : Text) (filing_type period document_name : Option Text)
    → IsLinked none
        (chunk_document c doc tables tenant_id coverage_id filing_type period document_name)
unfolding chunk_document
chunk_document-IsLinked c doc tables tenant_id coverage_id filing_type period document_name =
    sections-IsLinked c _ tenant_id coverage_id _ 0 0 doc.sections _ none
