-- ===== src/Chunker/Parents/Partition.antt =====
-- The groups of paragraphs of `_split_into_parent_chunks`, and their budget.
use stock_analyst.Shared.{
  ℕ, ◌+◌, ◌≤◌, Text, List, [], ◌∷◌, ◌++◌, map, false, is_empty, join, ◌≡◌, refl, ◌⊎◌, inl, inr, All,
  All-append, arith, Bool-cases, length, ap, sym, ◌∙◌,
}
use mathlib.Core.Path.{ap₂}
use mathlib.Core.List.{zip, append_assoc, append-nil, map-append}
use stock_analyst.Chunker.Defs.{
  Base, Chunker, token_estimate, locate_from, locate_offsets, make_chunk,
}
use stock_analyst.Chunker.Parents.{
  paragraphs_of, Placed, Group, empty_group, flush, add, is_full, gather, blank_line, parent_of,
  parents_from, split_into_parent_chunks,
}

abbrev pub concat : List (List Text) → List Text
concat [] = []
concat (xs ∷ xss) = xs ++ concat xss

abbrev pub total_tokens : List Text → ℕ
total_tokens [] = 0
total_tokens (p ∷ ps) = token_estimate p + total_tokens ps

-- Within the budget, or a single paragraph that is over it.
abbrev pub IsWithin : Chunker → List Text → Type 0
IsWithin c ps = (total_tokens ps ≤ c.parent_max_tokens) ⊎ (length ps ≡ 1)

total_tokens-append :
    (ps qs : List Text) → total_tokens (ps ++ qs) ≡ total_tokens ps + total_tokens qs
total_tokens-append [] qs = omega arith
total_tokens-append (p ∷ ps) qs = omega (arith, total_tokens-append ps qs)

abbrev groups_of : List Group → List (List Text)
groups_of = map (λ g. g.paragraphs)

groups-flush : (g : Group) → concat (groups_of (flush g)) ≡ g.paragraphs
unfolding flush
groups-flush g = ground (arith, append-nil g.paragraphs)

concat-append : (xs ys : List (List Text)) → concat (xs ++ ys) ≡ concat xs ++ concat ys
concat-append [] ys = refl
concat-append (x ∷ xs) ys = rw (concat-append xs ys) (sym (append_assoc x (concat xs) (concat ys)))

gather-paragraphs :
    (c : Chunker) (ps : List Placed) (g : Group)
    → concat (groups_of (gather c ps g)) ≡ g.paragraphs ++ map (λ p. p.0) ps
unfolding gather add
gather-paragraphs c [] g = groups-flush g ∙ sym (append-nil g.paragraphs)
gather-paragraphs c (p ∷ ps) g = elim (Bool-cases (is_full c g p)) [
  | inl full ↦ rw full (
      rw
        (
          map-append (λ (x : Group). x.paragraphs) (flush g) (gather c ps (add empty_group p)),
          concat-append,
        )
        (ap₂ (λ (xs ys : List Text). xs ++ ys) (groups-flush g)
          (gather-paragraphs c ps (add empty_group p))))
  | inr room ↦
      rw room (
        gather-paragraphs c ps (add g p) ∙ append_assoc g.paragraphs (p.0 ∷ []) (map (λ x. x.0) ps))
]

-- The open group counts its tokens, and is within the budget.
record IsCounted (c : Chunker) (g : Group) : Type 0 where
  counted : g.tokens ≡ total_tokens g.paragraphs
  within : IsWithin c g.paragraphs

has_room :
    (c : Chunker) (g : Group) (p : Placed)
    → is_full c g p ≡ false
    → (g.paragraphs ≡ []) ⊎ (g.tokens + token_estimate p.0 ≤ c.parent_max_tokens)
has_room c g p room = ground arith

empty-IsCounted : (c : Chunker) → IsCounted c empty_group
empty-IsCounted c = record { counted = refl; within = inl (omega arith) }

add-IsCounted :
    (c : Chunker) (g : Group) (p : Placed)
    → is_full c g p ≡ false
    → IsCounted c g
    → IsCounted c (add g p)
unfolding add
add-IsCounted c g p room h = record {
  counted = rw (total_tokens-append g.paragraphs (p.0 ∷ [])) (omega (arith, h.counted));
  within = elim (has_room c g p room) [
    | inl none_yet ↦ inr (rw none_yet refl)
    | inr fits ↦ inl (rw (total_tokens-append g.paragraphs (p.0 ∷ [])) (omega (arith, h.counted)))
  ];
}

flush-IsWithin : (c : Chunker) (g : Group) → IsCounted c g → All (IsWithin c) (groups_of (flush g))
unfolding flush
flush-IsWithin c g h = elim (Bool-cases (is_empty g.paragraphs)) [
  | inl nothing ↦ rw (nothing, flush) tt
  | inr something ↦ rw (something, flush) (h.within, tt)
]

gather-IsWithin :
    (c : Chunker) (ps : List Placed) (g : Group)
    → IsCounted c g
    → All (IsWithin c) (groups_of (gather c ps g))
unfolding gather flush
gather-IsWithin c [] g h = flush-IsWithin c g h
gather-IsWithin c (p ∷ ps) g h = elim (Bool-cases (is_full c g p)) [
  | inl full ↦ rw full (
      rw (map-append (λ (x : Group). x.paragraphs) (flush g) (gather c ps (add empty_group p))) (
        All-append (IsWithin c) (groups_of (flush g)) _ (flush-IsWithin c g h) (
          gather-IsWithin c ps (add empty_group p)
            (add-IsCounted c empty_group p refl (empty-IsCounted c)))))
  | inr room ↦ rw room (gather-IsWithin c ps (add g p) (add-IsCounted c g p room h))
]

-- The places of the pieces are as many as the pieces.
zip-locate :
    (text : Text) (ps : List Text) (cursor : ℕ)
    → map (λ (x : Placed). x.0) (zip ps (locate_from text cursor ps)) ≡ ps
unfolding locate_from zip
zip-locate text [] cursor = refl
zip-locate text (p ∷ ps) cursor = ap (λ (l : List Text). p ∷ l) (zip-locate text ps _)

contents-parents :
    (base : Base) (offset id : ℕ) (gs : List Group)
    → map (λ x. x.content) (parents_from base offset id gs) ≡ map (join blank_line) (groups_of gs)
unfolding parents_from parent_of make_chunk
contents-parents base offset id [] = refl
contents-parents base offset id (g ∷ gs) =
    ap (λ (l : List Text). join blank_line g.paragraphs ∷ l)
      (contents-parents base offset (id + 1) gs)

-- The parents of a section are groups of its paragraphs, joined by blank lines: together the groups
-- are all the paragraphs in order, and a group is within the parent budget or is one paragraph.
pub parents_partition :
    (c : Chunker) (text : Text) (base : Base) (offset id : ℕ)
    → (groups : List (List Text)) × (map
          (λ x. x.content)
          (split_into_parent_chunks c text base offset id)
        ≡ map (join blank_line) groups)
      × (concat groups ≡ paragraphs_of text)
      × All (IsWithin c) groups
unfolding split_into_parent_chunks locate_offsets
parents_partition c text base offset id =
    let ps = paragraphs_of text in
    let gs = gather c (zip ps (locate_offsets text ps)) empty_group in
    (
      groups_of gs,
      contents-parents base offset id gs,
      gather-paragraphs c (zip ps (locate_offsets text ps)) empty_group ∙ zip-locate text ps 0,
      gather-IsWithin c (zip ps (locate_offsets text ps)) empty_group (empty-IsCounted c),
    )
