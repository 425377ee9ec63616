-- ===== src/Documents/Deleted.antt =====
-- What a deletion that is answered has done.
use stock_analyst.Shared.{
  ℕ, ◌-◌, Text, codes, List, [], ◌∷◌, ◌++◌, map, Bool, false, not, Option, none, some, ◌==◌,
  find_first, any, starts_with, filter_by, if◌then◌else◌, Bool-cases, ◌≡◌, refl, sym, ap, ◌∙◌,
  subst, inl, inr, arith,
}
use stock_analyst.Http.{Reply, answer, problem, crashed}
use stock_analyst.Storage.{
  delete_file, is_object, attempted, validate_tenant_path, split_path, bucket_of,
}
use stock_analyst.Storage.Paths.{any-filter_by}
use stock_analyst.Documents.{
  Coverage, DocumentRow, Rows, World, DocumentServices, M, then_run, ◌>>=◌, read, change, store,
  get_owned_coverage, get_document, request, committed, find_coverage, find_document_row,
}
use stock_analyst.Documents.Handlers.{
  deleted, delete_by_filter, is_selected, remove_document, delete_document,
}
use stock_analyst.Documents.Owned.{get_owned_coverage-owned}

then-answer :
    {A B : Type 0} (r : Reply A × World) (k : A → M B) (b : B) (w' : World)
    → then_run r k ≡ (answer b, w')
    → (a : A) × (v : World) × (r ≡ (answer a, v)) × (k a v ≡ (answer b, w'))
then-answer (answer a, v) k b w' h = (a, v, refl, h)
then-answer (problem status detail, v) k b w' h = cc (ap (λ q. q.0) h)
then-answer (crashed detail, v) k b w' h = cc (ap (λ q. q.0) h)

-- A handler that answers: its first call does, and what follows it.
bind-answer :
    {A B : Type 0} (m : M A) (k : A → M B) (w : World) (b : B) (w' : World)
    → (m >>= k) w ≡ (answer b, w')
    → (a : A) × (v : World) × (m w ≡ (answer a, v)) × (k a v ≡ (answer b, w'))
bind-answer m k w b w' h = then-answer (m w) k b w' h

committed-answer :
    {A : Type 0} (before : Rows) (r : Reply A × World) (a : A) (w' : World)
    → committed before r ≡ (answer a, w')
    → r ≡ (answer a, w')
committed-answer before (answer b, v) a w' h = h
committed-answer before (problem status detail, v) a w' h = cc (ap (λ q. q.0) h)
committed-answer before (crashed detail, v) a w' h = cc (ap (λ q. q.0) h)

find_first-without {ℓ} :
    {A : Type ℓ} (p : A → Bool) (xs : List A) → find_first p (filter_by (λ x. not (p x)) xs) ≡ none
find_first-without p [] = refl
find_first-without p (x ∷ xs) = ground (arith, find_first-without p xs)

find_document_row-without :
    (i j : ℕ) (xs : List DocumentRow)
    → (j == i) ≡ false
    → find_first
        (λ (d : DocumentRow). d.id == j)
        (filter_by (λ (d : DocumentRow). not (d.id == i)) xs)
      ≡ find_first (λ (d : DocumentRow). d.id == j) xs
find_document_row-without i j [] h = refl
find_document_row-without i j (x ∷ xs) h = ground (arith, find_document_row-without i j xs h)

find_coverage-update :
    (c : Coverage) (n : ℕ) (xs : List Coverage)
    → find_first (λ (x : Coverage). x.id == c.id) xs ≡ some c
    → find_first
        (λ (x : Coverage). x.id == c.id)
        (map (λ (x : Coverage). if x.id == c.id then record x { document_count = n } else x) xs)
      ≡ some (record c { document_count = n })
find_coverage-update c n [] h = cc
find_coverage-update c n (x ∷ xs) h = elim (Bool-cases (x.id == c.id)) [
  | inl here ↦
      let same : x ≡ c = ground (arith, here) in
      rw (here, here) (ap (λ (y : Coverage). some (record y { document_count = n })) same)
  | inr away ↦ rw (away, away) (find_coverage-update c n xs (rw away at h))
]

module _ (s : DocumentServices) where
  -- What is left after the deletion of document `d` of coverage `c`.
  pub record IsGone (tenant : ℕ) (c : Coverage) (d : DocumentRow) (w w' : World) : Type 0 where
    pub removed : find_document_row d.id w'.rows ≡ none
    pub others :
        (i : ℕ) → (i == d.id) ≡ false → find_document_row i w'.rows ≡ find_document_row i w.rows
    pub counted :
        find_coverage c.id w'.rows ≡ some (record c { document_count = c.document_count - 1 })
    pub unindexed : any (is_selected s (s.show_uuid d.id) (s.show_uuid tenant)) w'.points ≡ false
    pub no_object : any (is_object (split_path d.storage_path)) w'.objects ≡ false
    pub same_queue : w'.rows.queue ≡ w.rows.queue
    pub same_jobs : w'.jobs ≡ w.jobs

  deleted-answer :
      (document_id tenant_id : Text) (w : World) (e : Option Text) (v : World)
      → deleted s document_id tenant_id w e ≡ (answer tt, v)
      → v ≡ record w {
        points = filter_by (λ p. not (is_selected s document_id tenant_id p)) w.points;
      }
  deleted-answer document_id tenant_id w none v h = sym (ap (λ q. q.1) h)
  deleted-answer document_id tenant_id w (some e) v h = cc (ap (λ q. q.0) h)

  attempted-answer :
      (e : Option Text) (objects objects' after : List (Text × Text))
      → attempted s.client e tt objects objects' ≡ (answer tt, after)
      → after ≡ objects'
  attempted-answer none objects objects' after h = sym (ap (λ q. q.1) h)
  attempted-answer (some e) objects objects' after h = cc (ap (λ q. q.0) h)

  delete_file-answer :
      (tenant_id path : Text) (objects after : List (Text × Text))
      → delete_file s.client tenant_id path objects ≡ (answer tt, after)
      → after ≡ filter_by (λ o. not (is_object (split_path path) o)) objects
  unfolding delete_file validate_tenant_path
  delete_file-answer tenant_id path objects after h =
      elim (Bool-cases (starts_with path (bucket_of tenant_id ++ codes "/"))) [
        | inl own ↦
            attempted-answer (s.client.remove_object (split_path path).0 (split_path path).1)
              objects _ after (rw (own, delete_file, validate_tenant_path) at h)
        | inr other ↦
            absurd
              (ground (arith, other, ap (λ (q : Reply (Unit {0}) × List (Text × Text)). q.0) h))
      ]

  -- The world after the deletion.
  abbrev after_delete : ℕ → Coverage → DocumentRow → World → World
  after_delete tenant c d w = record {
    rows = remove_document s c d w.rows;
    objects = filter_by (λ o. not (is_object (split_path d.storage_path) o)) w.objects;
    points =
        filter_by (λ p. not (is_selected s (s.show_uuid d.id) (s.show_uuid tenant) p)) w.points;
    jobs = w.jobs;
  }

  gone :
      (tenant : ℕ) (c : Coverage) (d : DocumentRow) (w : World)
      → find_coverage c.id w.rows ≡ some c
      → IsGone tenant c d w (after_delete tenant c d w)
  gone tenant c d w at = record {
    removed = find_first-without (λ (x : DocumentRow). x.id == d.id) w.rows.documents;
    others = λ i h. find_document_row-without d.id i w.rows.documents h;
    counted = find_coverage-update c (c.document_count - 1) w.rows.coverages at;
    unindexed = any-filter_by (is_selected s (s.show_uuid d.id) (s.show_uuid tenant)) w.points;
    no_object = any-filter_by (is_object (split_path d.storage_path)) w.objects;
    same_queue = refl;
    same_jobs = refl;
  }

  ended-with :
      (tenant : ℕ) (c : Coverage) (d : DocumentRow) (w w₂ w₃ w₄ w' : World)
      → w₂ ≡ w
      → delete_by_filter s (s.show_uuid d.id) (s.show_uuid tenant) w₂ ≡ (answer tt, w₃)
      → store (delete_file s.client (s.show_uuid tenant) d.storage_path) w₃ ≡ (answer tt, w₄)
      → change (λ v. record v { rows = remove_document s c d v.rows }) w₄ ≡ (answer tt, w')
      → after_delete tenant c d w ≡ w'
  unfolding delete_by_filter
  ended-with tenant c d w w₂ w₃ w₄ w' start cleared dropped last =
      let third : w₃ ≡ record w₂ {
        points =
            filter_by (λ p. not (is_selected s (s.show_uuid d.id) (s.show_uuid tenant) p))
              w₂.points;
      } =
        deleted-answer (s.show_uuid d.id) (s.show_uuid tenant) w₂ _ w₃ cleared in
      let shrunk =
        delete_file-answer (s.show_uuid tenant) d.storage_path w₃.objects
          (delete_file s.client (s.show_uuid tenant) d.storage_path w₃.objects).1
          (λ i. (
            ap (λ q. q.0) dropped i,
            (delete_file s.client (s.show_uuid tenant) d.storage_path w₃.objects).1,
          )) in
      let clear = λ (v : World).
        let v' : World = record v {
          points =
              filter_by (λ p. not (is_selected s (s.show_uuid d.id) (s.show_uuid tenant) p))
                v.points;
        } in
        v' in
      let drop_object = λ (v : World).
        let v' : World = record v {
          objects = filter_by (λ o. not (is_object (split_path d.storage_path) o)) v.objects;
        } in
        v' in
      let with_objects =
        λ (o : List (Text × Text)). let v' : World = record w₃ { objects = o } in v' in
      let without_row =
        λ (v : World). let v' : World = record v { rows = remove_document s c d v.rows } in v' in
      sym (
        sym (ap (λ q. q.1) last)
        ∙ ap without_row (
            sym (ap (λ q. q.1) dropped)
            ∙ ap with_objects shrunk
            ∙ ap drop_object (third ∙ ap clear start)))

  -- A deletion that is answered was of a document of a coverage of the tenant: that document, its
  -- points and its object are gone, the other documents, the queue and the jobs are as before, and
  -- the coverage counts one document less, or none.
  pub delete_document-IsGone :
      (tenant : ℕ) (coverage_id document_id : Text) (w w' : World)
      → delete_document s tenant coverage_id document_id w ≡ (answer tt, w')
      → (c : Coverage) × (d : DocumentRow) × (get_owned_coverage s coverage_id tenant w.rows
          ≡ answer c)
        × (get_document s c document_id w.rows ≡ answer d)
        × IsGone tenant c d w w'
  unfolding delete_document request
  delete_document-IsGone tenant coverage_id document_id w w' h =
      let h₀ = committed-answer w.rows _ tt w' h in
      let (c, w₁, owned, h₁) =
        bind-answer (read (get_owned_coverage s coverage_id tenant)) _ w tt w' h₀ in
      let (d, w₂, got, h₂) = bind-answer (read (get_document s c document_id)) _ w₁ tt w' h₁ in
      let (_, w₃, cleared, h₃) =
        bind-answer (delete_by_filter s (s.show_uuid d.id) (s.show_uuid tenant)) _ w₂ tt w' h₂ in
      let (_, w₄, dropped, h₄) =
        bind-answer (store (delete_file s.client (s.show_uuid tenant) d.storage_path)) _ w₃ tt w'
          h₃ in
      let start : w₂ ≡ w = sym (ap (λ q. q.1) owned ∙ ap (λ q. q.1) got) in
      let owner : get_owned_coverage s coverage_id tenant w.rows ≡ answer c = ap (λ q. q.0) owned in
      let document : get_document s c document_id w.rows ≡ answer d =
        ap (λ (v : World). get_document s c document_id v.rows) (ap (λ q. q.1) owned)
        ∙ ap (λ q. q.0) got in
      (
        c,
        d,
        owner,
        document,
        subst (IsGone tenant c d w) (ended-with tenant c d w w₂ w₃ w₄ w' start cleared dropped h₄)
            (gone tenant c d w (get_owned_coverage-owned s tenant coverage_id w.rows c owner).0),
      )
