-- ===== src/Index/Calls.antt =====
-- The calls of the vector store that `ensure_collection` and the batches of pipeline.py make.
use stock_analyst.Shared.{
  Text, List, [], ◌∷◌, ◌++◌, map, Bool, true, false, Option, none, some, All, All-append, any,
  same_text, Raises, ok, raised, Error, ◌≡◌, refl, sym, ap, ◌∙◌, ◌⊎◌, inl, inr,
}
use mathlib.Core.List.{append_assoc, append-nil}
use stock_analyst.Index.{
  PointStruct, Call, create_collection, upsert, IndexClients, Indexing, and_then, issue, issued,
  created, ensure_collection, upsert_batches,
}

module _ {Vector : Type 0} where
  -- A bind that returns: both parts do, and it ends where the second does.
  pub and_then-eq-ok :
      {A B : Type 0} (p : Raises A × List (Call Vector)) (next : A → Indexing Vector B) {b : B}
      → (and_then p next).0 ≡ ok b
      → (a : A) × (p.0 ≡ ok a) × ((next a p.1).0 ≡ ok b) × ((and_then p next).1 ≡ (next a p.1).1)
  and_then-eq-ok (ok a, calls) next h = (a, refl, h, refl)
  and_then-eq-ok (raised e, calls) next h = cc

  -- A call that changes one collection only.
  abbrev pub IsFor : Text → Call Vector → Type 0
  IsFor name (create_collection other size) = other ≡ name
  IsFor name (upsert other points) = other ≡ name

  -- What is sent goes to one collection, however it ends.
  abbrev pub SendsFor : Text → List (Call Vector) → List (Call Vector) → Type 0
  SendsFor name before after =
      (sent : List (Call Vector)) × (after ≡ before ++ sent) × All (IsFor name) sent

  pub nothing_sent : (name : Text) (calls : List (Call Vector)) → SendsFor name calls calls
  nothing_sent name calls = ([], sym (append-nil calls), tt)

  pub SendsFor-and_then :
      {A B : Type 0} (name : Text) (before : List (Call Vector)) (p : Raises A × List (Call Vector))
      (next : A → Indexing Vector B)
      → SendsFor name before p.1
      → ((a : A) (calls : List (Call Vector)) → SendsFor name calls (next a calls).1)
      → SendsFor name before (and_then p next).1
  SendsFor-and_then name before (raised e, calls) next h k = h
  SendsFor-and_then name before (ok a, calls) next (sent, same, all_for) k =
      let (more, after, more_for) = k a calls in
      (
        sent ++ more,
        after ∙ ap (λ (l : List (Call Vector)). l ++ more) same ∙ append_assoc before sent more,
        All-append (IsFor name) sent more all_for more_for,
      )

  issued-eq-ok :
      (o : Option Error) (c : Call Vector) (calls : List (Call Vector)) {u : Unit {0}}
      → (issued o c calls).0 ≡ ok u
      → (issued o c calls).1 ≡ calls ++ (c ∷ [])
  issued-eq-ok none c calls h = refl
  issued-eq-ok (some e) c calls h = cc

  issued-SendsFor :
      (name : Text) (o : Option Error) (c : Call Vector) (calls : List (Call Vector))
      → IsFor name c
      → SendsFor name calls (issued o c calls).1
  issued-SendsFor name none c calls h = (c ∷ [], refl, (h, tt))
  issued-SendsFor name (some e) c calls h = nothing_sent name calls

module _ {Vector : Type 0} (s : IndexClients Vector) where
  -- A collection that was there, or is created first.
  abbrev pub Creates : Text → List (Call Vector) → Type 0
  Creates name sent = (sent ≡ []) ⊎ (sent ≡ create_collection name 768 ∷ [])

  created-eq-ok :
      (there : Bool) (name : Text) (calls : List (Call Vector)) {u : Unit {0}}
      → (created s there name calls).0 ≡ ok u
      → (sent : List (Call Vector)) × ((created s there name calls).1 ≡ calls ++ sent)
        × Creates name sent
  created-eq-ok true name calls h = ([], sym (append-nil calls), inl refl)
  created-eq-ok false name calls h =
      let c = create_collection name 768 in
      (c ∷ [], issued-eq-ok (s.fails calls c) c calls h, inr refl)

  created-SendsFor :
      (there : Bool) (name : Text) (calls : List (Call Vector))
      → SendsFor name calls (created s there name calls).1
  created-SendsFor true name calls = nothing_sent name calls
  created-SendsFor false name calls =
      let c = create_collection name 768 in issued-SendsFor name (s.fails calls c) c calls refl

  pub ensure_collection-eq-ok :
      (name : Text) (calls : List (Call Vector)) {u : Unit {0}}
      → (ensure_collection s name calls).0 ≡ ok u
      → (sent : List (Call Vector)) × ((ensure_collection s name calls).1 ≡ calls ++ sent)
        × Creates name sent
  unfolding ensure_collection
  ensure_collection-eq-ok name calls h =
      let (existing, _, made, ends) =
        and_then-eq-ok (s.collections calls, calls) (λ l. created s (any (same_text name) l) name)
          h in
      let (sent, after, creates) = created-eq-ok (any (same_text name) existing) name calls made in
      (sent, ends ∙ after, creates)

  pub ensure_collection-SendsFor :
      (name : Text) (calls : List (Call Vector))
      → SendsFor name calls (ensure_collection s name calls).1
  unfolding ensure_collection
  ensure_collection-SendsFor name calls =
      SendsFor-and_then name calls (s.collections calls, calls)
        (λ l. created s (any (same_text name) l) name) (nothing_sent name calls)
        (λ l w. created-SendsFor (any (same_text name) l) name w)

  pub upsert_batches-eq-ok :
      (name : Text) (bs : List (List (PointStruct Vector))) (calls : List (Call Vector))
      {u : Unit {0}}
      → (upsert_batches s name bs calls).0 ≡ ok u
      → (upsert_batches s name bs calls).1 ≡ calls ++ map (upsert name) bs
  unfolding upsert_batches
  upsert_batches-eq-ok name [] calls h = sym (append-nil calls)
  upsert_batches-eq-ok name (b ∷ bs) calls h =
      let c = upsert name b in
      let (_, sent, later, ends) =
        and_then-eq-ok (issue s c calls) (λ _. upsert_batches s name bs) h in
      ends
      ∙ upsert_batches-eq-ok name bs (issue s c calls).1 later
      ∙ ap (λ (l : List (Call Vector)). l ++ map (upsert name) bs)
          (issued-eq-ok (s.fails calls c) c calls sent)
      ∙ append_assoc calls (c ∷ []) (map (upsert name) bs)

  pub upsert_batches-SendsFor :
      (name : Text) (bs : List (List (PointStruct Vector))) (calls : List (Call Vector))
      → SendsFor name calls (upsert_batches s name bs calls).1
  unfolding upsert_batches
  upsert_batches-SendsFor name [] calls = nothing_sent name calls
  upsert_batches-SendsFor name (b ∷ bs) calls =
      let c = upsert name b in
      SendsFor-and_then name calls (issue s c calls) (λ _. upsert_batches s name bs)
        (issued-SendsFor name (s.fails calls c) c calls refl)
        (λ _ w. upsert_batches-SendsFor name bs w)
