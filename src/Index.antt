-- ===== src/Index.antt =====
-- The index of chunks: packages/rag/src/rag/ingestion/pipeline.py, which embeds and stores them, and
-- the retries of packages/rag/src/rag/connectors/qdrant_client.py.
pub mod Sparse
pub mod Embed
pub mod Batches
pub mod Calls
pub mod Sent
pub mod Retries
mod Examples
use stock_analyst.Shared.{
  ℕ, Text, codes, List, [], ◌∷◌, ◌++◌, map, Bool, true, false, not, Option, none, some, length,
  filter_by, any, same_text, Raises, ok, raised, Error,
}
use stock_analyst.Chunker.Defs.{Chunk, Metadata}
use stock_analyst.Ingestion.Rows.{is_searchable}
use stock_analyst.Index.Embed.{batches, embed_batches}
use stock_analyst.Index.Sparse.{SparseVector, Weight, compute_bm25_sparse}

abbrev pub upsert_batch_size : ℕ
upsert_batch_size = 100

abbrev pub embed_batch_size : ℕ
embed_batch_size = 32

module _ (Vector : Type 0) where
  -- A point: its two vectors, or none of them, and its payload, the metadata and the content.
  pub record PointStruct : Type 0 where
    pub id : ℕ
    pub vector : Option (Vector × SparseVector)
    pub metadata : Metadata
    pub content : Text

  -- A call of the vector store that changes it.
  pub data Call : Type 0 where
    create_collection : Text → ℕ → Call
    upsert : Text → List PointStruct → Call

  -- What the pipeline calls: the embedder, the hash and the constant of the sparse vectors, and the
  -- vector store, whose answers may depend on the calls before. `fails` tells how a call ends that
  -- raises; one that raises has no effect.
  pub record IndexClients : Type 0 where
    pub embed : Text → Raises Vector
    pub crc32 : Text → ℕ
    pub k1 : Weight
    pub collections : List Call → Raises (List Text)
    pub fails : List Call → Call → Option Error

-- A coroutine: its result, and the calls that were made until then.
abbrev pub Indexing : Type 0 → Type 0 → Type 0
Indexing Vector A = List (Call Vector) → Raises A × List (Call Vector)

module _ {Vector : Type 0} where
  abbrev pub and_then :
      {A B : Type 0}
      → Raises A × List (Call Vector)
      → (A → Indexing Vector B)
      → Raises B × List (Call Vector)
  and_then (ok a, calls) next = next a calls
  and_then (raised e, calls) next = (raised e, calls)

  infixl 5 ◌>>=◌
  abbrev pub ◌>>=◌ :
      {A B : Type 0} → Indexing Vector A → (A → Indexing Vector B) → Indexing Vector B
  ◌>>=◌ m next calls = and_then (m calls) next

  abbrev pub respond : {A : Type 0} → Raises A → Indexing Vector A
  respond r calls = (r, calls)

  -- A call, by how it ends.
  abbrev pub issued : Option Error → Call Vector → Indexing Vector (Unit {0})
  issued (some e) c calls = (raised e, calls)
  issued none c calls = (ok tt, calls ++ (c ∷ []))

module _ {Vector : Type 0} (s : IndexClients Vector) where
  abbrev pub issue : Call Vector → Indexing Vector (Unit {0})
  issue c calls = issued (s.fails calls c) c calls

  abbrev pub created : Bool → Text → Indexing Vector (Unit {0})
  created true name = respond (ok tt)
  created false name = issue (create_collection name 768)

  -- `_ensure_collection_sync`; the dense vectors have 768 dimensions.
  unfoldable pub ensure_collection : Text → Indexing Vector (Unit {0})
  ensure_collection name = do
    existing ← λ calls. (s.collections calls, calls)
    created (any (same_text name) existing) name

  abbrev pub searchable_point : Chunk × Vector → PointStruct Vector
  searchable_point (c, v) = record {
    id = c.chunk_id;
    vector = some (v, compute_bm25_sparse s.crc32 s.k1 c.content);
    metadata = c.metadata;
    content = c.content;
  }

  abbrev pub parent_point : Chunk → PointStruct Vector
  parent_point c = record {
    id = c.chunk_id;
    vector = none;
    metadata = c.metadata;
    content = c.content;
  }

  unfoldable pub upsert_batches :
      Text → List (List (PointStruct Vector)) → Indexing Vector (Unit {0})
  upsert_batches name [] = respond (ok tt)
  upsert_batches name (b ∷ bs) = do _ ← issue (upsert name b); upsert_batches name bs

  abbrev pub unsearchable : List Chunk → List Chunk
  unsearchable = filter_by (λ c. not (is_searchable c))

  -- `collection_name`, with the prefix of the constructor
  abbrev pub tenant_collection : Text → Text → Text
  tenant_collection prefix tenant_id = prefix ++ (codes "_" ++ tenant_id)

  -- The points of some chunks, those that can be searched first.
  abbrev pub points_of : List Chunk → List (Chunk × Vector) → List (PointStruct Vector)
  points_of chunks embedded =
      map searchable_point embedded ++ map parent_point (unsearchable chunks)

  unfoldable pub store_points : Text → List (PointStruct Vector) → Indexing Vector ℕ
  store_points name points = do
    _ ← upsert_batches name (batches upsert_batch_size points)
    respond (ok (length points))

  unfoldable pub index_chunks : Text → List Chunk → Text → Indexing Vector ℕ
  index_chunks prefix chunks tenant_id = do
    _ ← ensure_collection (tenant_collection prefix tenant_id)
    embedded ←
        respond (embed_batches s.embed (batches embed_batch_size (filter_by is_searchable chunks)))
    store_points (tenant_collection prefix tenant_id) (points_of chunks embedded)
