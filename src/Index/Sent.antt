-- ===== src/Index/Sent.antt =====
-- What `index_chunks` of pipeline.py sends to the vector store.
use stock_analyst.Shared.{
  ℕ, ◌+◌, Text, List, [], ◌∷◌, ◌++◌, map, length, filter_by, All, ok, ok-injective, ◌≡◌, refl, sym,
  ap, ◌∙◌, arith, subst, length-append, length-map,
}
use mathlib.Core.List.{append_assoc}
use stock_analyst.Chunker.Defs.{Chunk}
use stock_analyst.Ingestion.Rows.{is_searchable}
use stock_analyst.Index.Embed.{batches, embed_batches}
use stock_analyst.Index.Batches.{
  flatten, IsBatch, flatten-batches, batches-IsBatch, Embeds, embed_batches-Embeds,
}
use stock_analyst.Index.{
  PointStruct, Call, upsert, IndexClients, ◌>>=◌, respond, created, ensure_collection,
  searchable_point, parent_point, upsert_batches, unsearchable, tenant_collection, points_of,
  store_points, index_chunks, upsert_batch_size, embed_batch_size,
}
use stock_analyst.Index.Calls.{
  and_then-eq-ok, SendsFor, nothing_sent, SendsFor-and_then, Creates, ensure_collection-eq-ok,
  ensure_collection-SendsFor, upsert_batches-eq-ok, upsert_batches-SendsFor,
}

module _ {Vector : Type 0} (s : IndexClients Vector) where
  -- What the store is sent for some chunks of a tenant, from the calls before to those after.
  pub record Indexes (prefix : Text) (chunks : List Chunk) (tenant_id : Text) (n : ℕ)
      (before after : List (Call Vector)) : Type 0 where
    pub embedded : List (Chunk × Vector)
    pub embeds : Embeds s.embed (filter_by is_searchable chunks) embedded
    pub creation : List (Call Vector)
    pub creates : Creates s (tenant_collection s prefix tenant_id) creation
    pub sent : List (List (PointStruct Vector))
    pub sends :
        after ≡ before ++ (creation ++ map (upsert (tenant_collection s prefix tenant_id)) sent)
    pub whole : flatten sent ≡ points_of s chunks embedded
    pub bounded : All (IsBatch upsert_batch_size) sent
    pub counted : n ≡ length chunks

  store_points-eq-ok :
      (name : Text) (ps : List (PointStruct Vector)) (calls : List (Call Vector)) {n : ℕ}
      → (store_points s name ps calls).0 ≡ ok n
      → (n ≡ length ps)
        × ((store_points s name ps calls).1
            ≡ calls ++ map (upsert name) (batches upsert_batch_size ps))
  unfolding store_points
  store_points-eq-ok name ps calls {n} h =
      let (_, sent, counted, ends) =
        and_then-eq-ok (upsert_batches s name (batches upsert_batch_size ps) calls)
          (λ _. respond (ok (length ps))) h in
      (
        sym (ok-injective (length ps) n counted),
        ends ∙ upsert_batches-eq-ok s name (batches upsert_batch_size ps) calls sent,
      )

  store_points-SendsFor :
      (name : Text) (ps : List (PointStruct Vector)) (calls : List (Call Vector))
      → SendsFor name calls (store_points s name ps calls).1
  unfolding store_points
  store_points-SendsFor name ps calls =
      SendsFor-and_then name calls (upsert_batches s name (batches upsert_batch_size ps) calls)
        (λ _. respond (ok (length ps)))
        (upsert_batches-SendsFor s name (batches upsert_batch_size ps) calls)
        (λ _ w. nothing_sent name w)

  -- The chunks fall into those with vectors and those without.
  length-parts :
      (chunks : List Chunk)
      → length (filter_by is_searchable chunks) + length (unsearchable s chunks) ≡ length chunks
  length-parts [] = refl
  length-parts (c ∷ cs) = ground (arith, length-parts cs)

  length-points_of :
      (chunks : List Chunk) (es : List (Chunk × Vector))
      → Embeds s.embed (filter_by is_searchable chunks) es
      → length (points_of s chunks es) ≡ length chunks
  length-points_of chunks es h =
      let embedded : length es ≡ length (filter_by is_searchable chunks) =
        sym (length-map (λ (e : Chunk × Vector). e.0) es) ∙ ap length h.chunks in
      omega (
        arith,
        length-append (map (searchable_point s) es) (map (parent_point s) (unsearchable s chunks)),
        length-map (searchable_point s) es,
        length-map (parent_point s) (unsearchable s chunks),
        length-parts chunks,
        embedded,
      )

  -- Where an indexing returns, the store was sent, behind what it was sent before: the creation of
  -- the collection of the tenant or nothing, and batches of 1 to 100 points, which together are a
  -- point for each chunk, those of children and tables first, in order and with the vector of their
  -- content, then the parents without one; the number of the chunks is returned.
  pub index_chunks-Indexes :
      (prefix : Text) (chunks : List Chunk) (tenant_id : Text) (calls : List (Call Vector)) {n : ℕ}
      → (index_chunks s prefix chunks tenant_id calls).0 ≡ ok n
      → Indexes prefix chunks tenant_id n calls (index_chunks s prefix chunks tenant_id calls).1
  unfolding index_chunks
  index_chunks-Indexes prefix chunks tenant_id calls h =
      let name = tenant_collection s prefix tenant_id in
      let searchable = filter_by is_searchable chunks in
      let asked = embed_batches s.embed (batches embed_batch_size searchable) in
      let (_, there, later, ends) =
        and_then-eq-ok (ensure_collection s name calls)
          (λ _. respond asked >>= (λ es. store_points s name (points_of s chunks es))) h in
      let (creation, created, creates) = ensure_collection-eq-ok s name calls there in
      let middle = (ensure_collection s name calls).1 in
      let (es, embedded, stored, finally) =
        and_then-eq-ok (asked, middle) (λ es. store_points s name (points_of s chunks es)) later in
      let ps = points_of s chunks es in
      let (counted, sent) = store_points-eq-ok name ps middle stored in
      let embeds =
        subst (λ (l : List Chunk). Embeds s.embed l es) (flatten-batches 31 searchable)
          (embed_batches-Embeds s.embed (batches embed_batch_size searchable) embedded) in
      record {
        embedded = es;
        embeds = embeds;
        creation = creation;
        creates = creates;
        sent = batches upsert_batch_size ps;
        sends =
            ends
            ∙ finally
            ∙ sent
            ∙ ap (λ (l : List (Call Vector)). l ++ map (upsert name) (batches upsert_batch_size ps))
                created
            ∙ append_assoc calls creation (map (upsert name) (batches upsert_batch_size ps));
        whole = flatten-batches 99 ps;
        bounded = batches-IsBatch 99 ps;
        counted = counted ∙ length-points_of chunks es embeds;
      }

  -- However an indexing ends, what the store was sent changes the collection of the tenant only.
  pub index_chunks-SendsFor :
      (prefix : Text) (chunks : List Chunk) (tenant_id : Text) (calls : List (Call Vector))
      → SendsFor
          (tenant_collection s prefix tenant_id)
          calls
          (index_chunks s prefix chunks tenant_id calls).1
  unfolding index_chunks
  index_chunks-SendsFor prefix chunks tenant_id calls =
      let name = tenant_collection s prefix tenant_id in
      let asked =
        embed_batches s.embed (batches embed_batch_size (filter_by is_searchable chunks)) in
      SendsFor-and_then name calls (ensure_collection s name calls)
        (λ _. respond asked >>= (λ es. store_points s name (points_of s chunks es)))
        (ensure_collection-SendsFor s name calls)
        (λ _ w.
          SendsFor-and_then name w (asked, w) (λ es. store_points s name (points_of s chunks es))
            (nothing_sent name w) (λ es v. store_points-SendsFor name (points_of s chunks es) v))
