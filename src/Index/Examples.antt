-- ===== src/Index/Examples.antt =====
-- A child and its parent in the index, and sparse vectors.
use stock_analyst.Shared.{
  ℕ, zero, suc, codes, List, [], ◌∷◌, Option, none, some, Raises, ok, raised, failure, Error, ◌≡◌,
  refl, arith, length,
}
use stock_analyst.Shared.Regex.{find_iter, split}
use stock_analyst.Chunker.Defs.{Chunk, Metadata, ChunkType}
use stock_analyst.Index.Embed.{batches_on, batches, gather_vectors, embed_batches}
use stock_analyst.Index.Sparse.{
  Weight, IsSparse, term_pattern, stopwords, tokenize, counter, add_count, weights_from, add_weight,
  compute_bm25_sparse, compute_bm25_sparse-IsSparse,
}
use stock_analyst.Index.Calls.{SendsFor}
use stock_analyst.Index.Sent.{Indexes, index_chunks-Indexes, index_chunks-SendsFor}
use stock_analyst.Index.Retries.{with_retry, Tried, with_retry-Tried}
use stock_analyst.Index.{
  Call, create_collection, upsert, IndexClients, ensure_collection, upsert_batches,
  searchable_point, parent_point, store_points, index_chunks,
}

abbrev metadata : ChunkType → Metadata
metadata kind = record {
  base = record {
    document_id = codes "d";
    document_name = codes "10-K";
    filing_type = codes "10-K";
    period = codes "2023";
    section_name = codes "s";
    tenant_id = codes "t";
    coverage_id = codes "c";
    page_number = 1;
  };
  chunk_type = kind;
  parent_chunk_id = none;
  char_start = 0;
  char_end = 4;
  token_estimate = 1;
}

abbrev chunk : ℕ → ChunkType → Chunk
chunk id kind = record {
  chunk_id = id;
  content = codes "Cash rose";
  chunk_type = kind;
  parent_chunk_id = none;
  metadata = metadata kind;
}

abbrev k1 : Weight
k1 = record { num = 3; den = 2 }

-- A store that has no collection and takes every call.
abbrev clients : IndexClients ℕ
clients = record {
  embed = λ t. ok (length t);
  crc32 = length;
  k1 = k1;
  collections = λ calls. ok [];
  fails = λ calls c. none;
}

-- A store that fails at its second call.
abbrev flaky : List (Call ℕ) → Call ℕ → Option Error
flaky [] c = none
flaky (_ ∷ _) c = some failure

abbrev chunks : List Chunk
chunks = chunk 1 ChunkType.parent ∷ chunk 2 ChunkType.child ∷ []

-- The child comes first, with its vector.
indexed : index_chunks clients (codes "tenant") chunks (codes "t") [] ≡ (
  ok 2,
  create_collection (codes "tenant_t") 768
      ∷ upsert (codes "tenant_t") (
          searchable_point clients (chunk 2 ChunkType.child, 9)
          ∷ parent_point clients (chunk 1 ChunkType.parent)
          ∷ [])
      ∷ [],
)
unfolding index_chunks ensure_collection store_points upsert_batches batches batches_on
    embed_batches gather_vectors
indexed = refl

-- The collection stays when the points fail.
half_indexed :
    index_chunks (record clients { fails = flaky }) (codes "tenant") chunks (codes "t") []
    ≡ (raised failure, create_collection (codes "tenant_t") 768 ∷ [])
unfolding index_chunks ensure_collection store_points upsert_batches batches batches_on
    embed_batches gather_vectors
half_indexed = refl

index_chunks-Indexes_example :
    Indexes clients
      (codes "tenant")
      chunks
      (codes "t")
      2
      []
      (index_chunks clients (codes "tenant") chunks (codes "t") []).1
index_chunks-Indexes_example =
    index_chunks-Indexes clients (codes "tenant") chunks (codes "t") [] (λ i. (indexed i).0)

index_chunks-SendsFor_example :
    SendsFor (codes "tenant_t") [] (index_chunks clients (codes "tenant") chunks (codes "t") []).1
index_chunks-SendsFor_example = index_chunks-SendsFor clients (codes "tenant") chunks (codes "t") []

-- The stop word is left out; the two words are hashed to one index, whose weights are added.
weights :
    compute_bm25_sparse length k1 (codes "The cash rose: cash!")
    ≡ (4, record { num = 85; den = 35 }) ∷ []
unfolding compute_bm25_sparse weights_from add_weight counter add_count tokenize find_iter split
    term_pattern stopwords
weights = refl

compute_bm25_sparse-IsSparse_example :
    IsSparse (compute_bm25_sparse length k1 (codes "The cash rose: cash!"))
compute_bm25_sparse-IsSparse_example =
    compute_bm25_sparse-IsSparse length k1 (omega arith) (codes "The cash rose: cash!")

abbrev third_time : ℕ → Raises ℕ
third_time zero = raised failure
third_time (suc zero) = raised failure
third_time (suc (suc n)) = ok n

with_retry-Tried_example : Tried 5 third_time (with_retry 5 third_time)
with_retry-Tried_example = with_retry-Tried 5 third_time
