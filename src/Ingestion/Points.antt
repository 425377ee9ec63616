-- ===== src/Ingestion/Points.antt =====
-- What the vector store was sent when an ingestion is done.
use stock_analyst.Shared.{
  ℕ, suc, Text, codes, not, List, [], ◌∷◌, ◌++◌, map, Bool, true, false, none, some, length,
  filter_by, All, All-append, All-map, All-weaken, All-filter_by, Raises, ok, raised, Error, ◌≡◌,
  refl, sym, ap, ◌∙◌, subst, length-map,
}
use stock_analyst.Chunker.Defs.{Chunk, Metadata, default_chunker}
use stock_analyst.Chunker.Document.{ExtractedTable}
use stock_analyst.Chunker.Document.Scoped.{chunk_document-IsUnder}
use stock_analyst.Index.{
  PointStruct, Call, IndexClients, points_of, searchable_point, parent_point, unsearchable,
}
use stock_analyst.Index.Batches.{flatten, Embeds}
use stock_analyst.Index.Sent.{Indexes, index_chunks-Indexes}
use stock_analyst.Orchestrator.Tasks.{returned}
use stock_analyst.Ingestion.Rows.{
  Document, World, ParsedDocument, IngestStatus, find_document, is_searchable,
}
use stock_analyst.Ingestion.Run.{done, run_ingestion}
use stock_analyst.Ingestion.Completed.{Completed, finalized, run_ingestion-Completed}
use stock_analyst.Ingestion.Assembled.{External, attempt_of, indexing, cut_chunks, assembled_tools}

All-unmap :
    {A B : Type 0} (P : B → Type 0) (f : A → B) (xs : List A)
    → All P (map f xs)
    → All (λ a. P (f a)) xs
All-unmap P f [] h = tt
All-unmap P f (x ∷ xs) h = (h.0, All-unmap P f xs h.1)

attempt_of-eq-returned :
    {A : Type 0} (show : Error → Text) (r : Raises A) {a : A}
    → attempt_of show r ≡ returned a
    → r ≡ ok a
attempt_of-eq-returned show (ok b) h = cc
attempt_of-eq-returned show (raised e) h = cc

returned-injective : {A : Type 0} (a b : A) → returned a ≡ returned b → a ≡ b
returned-injective a b h = cc

-- The points that a search can find.
abbrev pub has_vector : {Vector : Type 0} → PointStruct Vector → Bool
has_vector p = elim p.vector [ none ↦ false | some v ↦ true ]

module _ {Vector : Type 0} (s : IndexClients Vector) where
  no_vectors : (cs : List Chunk) → length (filter_by has_vector (map (parent_point s) cs)) ≡ 0
  no_vectors [] = refl
  no_vectors (c ∷ cs) = no_vectors cs

  vectors :
      (es : List (Chunk × Vector)) (cs : List Chunk)
      → length (filter_by has_vector (map (searchable_point s) es ++ map (parent_point s) cs))
        ≡ length es
  vectors [] cs = no_vectors cs
  vectors (e ∷ es) cs = ap suc (vectors es cs)

  -- The points with a vector are as many as the chunks that can be searched.
  vectors-points_of :
      (chunks : List Chunk) (es : List (Chunk × Vector))
      → Embeds s.embed (filter_by is_searchable chunks) es
      → length (filter_by has_vector (points_of s chunks es))
        ≡ length (filter_by is_searchable chunks)
  vectors-points_of chunks es h =
      vectors es (unsearchable s chunks)
      ∙ sym (length-map (λ (e : Chunk × Vector). e.0) es)
      ∙ ap length h.chunks

  -- What holds of the metadata of the chunks holds of that of the points.
  All-points_of :
      (P : Metadata → Type 0) (chunks : List Chunk) (es : List (Chunk × Vector))
      → Embeds s.embed (filter_by is_searchable chunks) es
      → All (λ (c : Chunk). P c.metadata) chunks
      → All (λ (p : PointStruct Vector). P p.metadata) (points_of s chunks es)
  All-points_of P chunks es h all =
      All-append (λ (p : PointStruct Vector). P p.metadata) (map (searchable_point s) es) _
        (All-map (λ (p : PointStruct Vector). P p.metadata) (searchable_point s) es
          (All-unmap (λ (c : Chunk). P c.metadata) (λ (e : Chunk × Vector). e.0) es
            (subst (All (λ (c : Chunk). P c.metadata)) (sym h.chunks)
              (All-filter_by (λ (c : Chunk). P c.metadata) is_searchable chunks all))))
        (All-map (λ (p : PointStruct Vector). P p.metadata) (parent_point s) (unsearchable s chunks)
          (All-filter_by (λ (c : Chunk). P c.metadata) (λ c. not (is_searchable c)) chunks all))

module _ {Quality Vector : Type 0} (x : External Quality Vector) (now tenant_id id coverage_id : ℕ)
    (before : List (Call Vector)) where
  -- The metadata of the tenant and the coverage.
  abbrev pub IsScoped : Metadata → Type 0
  IsScoped m =
      (m.base.tenant_id ≡ x.show_uuid tenant_id) × (m.base.coverage_id ≡ x.show_uuid coverage_id)

  -- A run that is done, with what the store was sent behind `before`.
  pub record Searchable (w w' : World Quality) : Type 0 where
    pub run : Completed (assembled_tools x tenant_id before) now tenant_id id coverage_id w w'
    pub indexes :
        Indexes x.clients
          (codes "tenant")
          run.chunks
          (x.show_uuid tenant_id)
          run.count
          before
          (indexing x tenant_id before run.chunks).1
    pub scoped : All (λ (p : PointStruct Vector). IsScoped p.metadata) (flatten indexes.sent)
    pub document : Document Quality
    pub found : find_document id w'.documents ≡ some document
    pub status : document.ingest_status ≡ IngestStatus.indexed
    pub counted : document.chunk_count ≡ length (filter_by has_vector (flatten indexes.sent))

  cut_chunks-IsScoped :
      (d : Document Quality) (parsed : ParsedDocument Quality) (tables : List ExtractedTable)
      → All
          (λ (c : Chunk). IsScoped c.metadata)
          (cut_chunks x tenant_id before coverage_id d parsed tables)
  cut_chunks-IsScoped d parsed tables =
      All-weaken _ (λ (c : Chunk). IsScoped c.metadata) (λ c h. (h.1, h.2)) _
        (chunk_document-IsUnder default_chunker parsed.contents tables (x.show_uuid tenant_id)
          (x.show_uuid coverage_id) (some d.filing_type) (some d.period) (some d.file_name)).0

  Completed-Searchable :
      (w w' : World Quality)
      → Completed (assembled_tools x tenant_id before) now tenant_id id coverage_id w w'
      → Searchable w w'
  Completed-Searchable w w' run =
      let indexes =
        index_chunks-Indexes x.clients (codes "tenant") run.chunks (x.show_uuid tenant_id) before (
          attempt_of-eq-returned x.show_error (indexing x tenant_id before run.chunks).0
            run.indexes) in
      let chunks =
        subst (All (λ (c : Chunk). IsScoped c.metadata))
          (returned-injective
            (cut_chunks x tenant_id before coverage_id run.document run.parsed run.tables)
            run.chunks run.cuts)
          (cut_chunks-IsScoped run.document run.parsed run.tables) in
      let (document, stored, status, counted) =
        finalized now id (x.sha256 run.content) (length (filter_by is_searchable run.chunks))
          run.count run.parsed.overall_text_coverage run.parsed.total_pages w run.found in
      record {
        run = run;
        indexes = indexes;
        scoped =
            subst (All (λ (p : PointStruct Vector). IsScoped p.metadata)) (sym indexes.whole)
              (All-points_of x.clients IsScoped run.chunks indexes.embedded indexes.embeds chunks);
        document = document;
        found = ap (λ (v : World Quality). find_document id v.documents) run.ends ∙ stored;
        status = status;
        counted =
            counted
            ∙ sym (vectors-points_of x.clients run.chunks indexes.embedded indexes.embeds)
            ∙ ap (λ (l : List (PointStruct Vector)). length (filter_by has_vector l))
                (sym indexes.whole);
      }

  -- Where the ingestion of a document is done, with the extractor of tables, the chunker and the
  -- index of the repository: the store was sent the points of the document's chunks, in batches for
  -- the collection of the tenant; each point has the tenant and the coverage in its payload; and the
  -- document is indexed, with the number of the points that have a vector as its count.
  pub run_ingestion-Searchable :
      (w w' : World Quality) {d : Document Quality}
      → find_document id w.documents ≡ some d
      → run_ingestion (assembled_tools x tenant_id before) now tenant_id id coverage_id w
        ≡ (w', done)
      → Searchable w w'
  run_ingestion-Searchable w w' found h = Completed-Searchable w w' (
      run_ingestion-Completed (assembled_tools x tenant_id before) now tenant_id id coverage_id w w'
        found h)
