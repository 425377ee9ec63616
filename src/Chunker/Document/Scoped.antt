-- ===== src/Chunker/Document/Scoped.antt =====
-- The metadata and the table chunks of the result of `chunk_document`.
use stock_analyst.Shared.{
  ℕ, ◌+◌, Text, List, [], ◌∷◌, ◌++◌, Bool, true, false, Option, ◌≡◌, refl, inl, inr, All,
  All-append, arith, Bool-cases, length, length-append, same_text, if◌then◌else◌,
}
use stock_analyst.Chunker.Defs.{Chunk, ChunkType, table, Base, Chunker, make_chunk}
use stock_analyst.Chunker.Parents.{split_into_parent_chunks, not_blank}
use stock_analyst.Chunker.Children.{split_into_child_chunks}
use stock_analyst.Chunker.Pages.{ParsedDocument}
use stock_analyst.Chunker.Document.{
  ExtractedTable, given, create_table_chunk, Groups, add_table, group_tables, pop_tables,
  table_chunks, with_children, section_chunks, leftover_chunks, sections_from, chunk_document,
}
use stock_analyst.Chunker.Document.Links.{IsParent, IsChildOf, split-IsParent, split-IsChildOf}

-- Under the tenant, the coverage and the document's name.
abbrev pub IsUnder : Text → Text → Text → Base → Type 0
IsUnder name tenant_id coverage_id b =
    (b.document_name ≡ name) × (b.tenant_id ≡ tenant_id) × (b.coverage_id ≡ coverage_id)

abbrev pub is_table : Chunk → Bool
is_table x = elim x.chunk_type [ table ↦ true | _ ↦ false ]

abbrev pub one_if_table : Chunk → ℕ
one_if_table x = if is_table x then 1 else 0

abbrev pub table_count : List Chunk → ℕ
table_count [] = 0
table_count (x ∷ xs) = one_if_table x + table_count xs

parent_count : (x : Chunk) → x.chunk_type ≡ ChunkType.parent → one_if_table x ≡ 0
parent_count x h = rw (one_if_table, is_table, h) refl

abbrev group_count : Groups → ℕ
group_count [] = 0
group_count ((n, ts) ∷ gs) = length ts + group_count gs

count-append : (xs ys : List Chunk) → table_count (xs ++ ys) ≡ table_count xs + table_count ys
count-append [] ys = omega arith
count-append (x ∷ xs) ys = omega (arith, count-append xs ys)

count-add : (t : ExtractedTable) (gs : Groups) → group_count (add_table t gs) ≡ group_count gs + 1
unfolding add_table
count-add t [] = omega arith
count-add t ((n, ts) ∷ gs) = elim (Bool-cases (same_text n t.section_name)) [
  | inl here ↦ rw (here, add_table) (omega (arith, length-append ts (t ∷ [])))
  | inr other ↦ rw (other, add_table) (omega (arith, count-add t gs))
]

count-group :
    (ts : List ExtractedTable) (gs : Groups)
    → group_count (group_tables ts gs) ≡ length ts + group_count gs
unfolding group_tables
count-group [] gs = omega arith
count-group (t ∷ ts) gs = omega (arith, count-group ts (add_table t gs), count-add t gs)

count-pop :
    (n : Text) (gs : Groups)
    → let (ts, rest) = pop_tables n gs in length ts + group_count rest ≡ group_count gs
unfolding pop_tables
count-pop n [] = omega arith
count-pop n ((m, ts) ∷ gs) = elim (Bool-cases (same_text m n)) [
  | inl here ↦ rw (here, pop_tables) refl
  | inr other ↦ rw (other, pop_tables) (omega (arith, count-pop n gs))
]

-- What a part of the list of chunks adds: chunks under the document, and so many tables.
record Part (name tenant_id coverage_id : Text) (n : ℕ) (xs : List Chunk) : Type 0 where
  under : All (λ x. IsUnder name tenant_id coverage_id x.metadata.base) xs
  tables : table_count xs ≡ n

module _ (c : Chunker) (name tenant_id coverage_id : Text) where
  append-Part :
      (n m : ℕ) (xs ys : List Chunk)
      → Part name tenant_id coverage_id n xs
      → Part name tenant_id coverage_id m ys
      → Part name tenant_id coverage_id (n + m) (xs ++ ys)
  append-Part n m xs ys p q = record {
    under = All-append _ xs ys p.under q.under;
    tables = omega (arith, count-append xs ys, p.tables, q.tables);
  }

  tables-Part :
      (id : ℕ) (ts : List ExtractedTable)
      → Part name tenant_id coverage_id
          (length ts)
          (table_chunks c name tenant_id coverage_id id ts)
  unfolding table_chunks create_table_chunk make_chunk
  tables-Part id [] = record { under = tt; tables = refl }
  tables-Part id (t ∷ ts) =
      let rest = tables-Part (id + 1) ts in
      record { under = ((refl, refl, refl), rest.under); tables = omega (arith, rest.tables) }

  children-Part :
      (p : Chunk) (xs : List Chunk)
      → IsUnder name tenant_id coverage_id p.metadata.base
      → All (IsChildOf p) xs
      → Part name tenant_id coverage_id 0 xs
  children-Part p [] under h = record { under = tt; tables = refl }
  children-Part p (x ∷ xs) under h =
      let rest = children-Part p xs under h.1 in
      record {
        under = (rw h.0.2 under, rest.under);
        tables = rw h.0.0 (omega (arith, rest.tables));
      }

  parents-Part :
      (base : Base) (id : ℕ) (ps : List Chunk)
      → IsUnder name tenant_id coverage_id base
      → All (IsParent base) ps
      → Part name tenant_id coverage_id 0 (with_children c name tenant_id coverage_id id ps)
  unfolding with_children
  parents-Part base id [] under h = record { under = tt; tables = refl }
  parents-Part base id (p ∷ ps) under h =
      let children = split_into_child_chunks c p id in
      let below : IsUnder name tenant_id coverage_id p.metadata.base = rw h.0.2 under in
      let rest =
        append-Part 0 0 children _ (children-Part p children below (split-IsChildOf c p id))
          (parents-Part base (id + length children) ps under h.1) in
      record {
        under = (below, rest.under);
        tables = omega (arith, parent_count p h.0.0, rest.tables);
      }

  section-Part :
      (id : ℕ) (base : Base) (content : Text) (offset : ℕ)
      → IsUnder name tenant_id coverage_id base
      → Part name tenant_id coverage_id 0
          (section_chunks c name tenant_id coverage_id id base content offset)
  unfolding section_chunks
  section-Part id base content offset under = elim (Bool-cases (not_blank content)) [
    | inl holds ↦
        let ps = split_into_parent_chunks c content base offset id in
        rw (holds, section_chunks)
          (parents-Part base (id + length ps) ps under (split-IsParent c content base offset id))
    | inr blank ↦ rw (blank, section_chunks) (record { under = tt; tables = refl })
  ]

  leftover-Part :
      (id : ℕ) (gs : Groups)
      → Part name tenant_id coverage_id
          (group_count gs)
          (leftover_chunks c name tenant_id coverage_id id gs)
  unfolding leftover_chunks
  leftover-Part id [] = record { under = tt; tables = refl }
  leftover-Part id ((n, ts) ∷ gs) =
      append-Part (length ts) (group_count gs) _ _ (tables-Part id ts)
        (leftover-Part (id + length ts) gs)

  sections-Part :
      (base_of : Text → Base)
      → ((n : Text) → IsUnder name tenant_id coverage_id (base_of n))
      → (id offset : ℕ) (sections : List (Text × Text)) (gs : Groups)
      → Part name tenant_id coverage_id
          (group_count gs)
          (sections_from c name tenant_id coverage_id base_of id offset sections gs)
  unfolding sections_from
  sections-Part base_of under id offset [] gs = leftover-Part id gs
  sections-Part base_of under id offset ((n, content) ∷ rest) gs =
      let chunks = section_chunks c name tenant_id coverage_id id (base_of n) content offset in
      let (ts, gs') = pop_tables n gs in
      let next = id + length chunks in
      let all = append-Part 0 _ chunks _ (section-Part id (base_of n) content offset (under n)) (
        append-Part (length ts) (group_count gs') _ _ (tables-Part next ts) (
          sections-Part base_of under (next + length ts) (offset + length content + 2) rest gs')) in
      record { under = all.under; tables = omega (arith, all.tables, count-pop n gs) }

-- Every chunk of a document carries the tenant and the coverage that the caller gives and the
-- name of the document, which is the given one or else that of the file; and as many chunks are
-- tables as the document has tables.
pub chunk_document-IsUnder :
    (c : Chunker) (doc : ParsedDocument) (tables : List ExtractedTable)
    (tenant_id coverage_id : Text) (filing_type period document_name : Option Text)
    → let chunks =
        chunk_document c doc tables tenant_id coverage_id filing_type period document_name in
      All
        (λ x. IsUnder (given document_name doc.file_name) tenant_id coverage_id x.metadata.base)
        chunks
      × (table_count chunks ≡ length tables)
unfolding chunk_document
chunk_document-IsUnder c doc tables tenant_id coverage_id filing_type period document_name =
    let all =
      sections-Part c (given document_name doc.file_name) tenant_id coverage_id _
        (λ n. (refl, refl, refl)) 0 0 doc.sections (group_tables tables []) in
    (all.under, omega (arith, all.tables, count-group tables []))
