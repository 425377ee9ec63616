-- ===== src/Index/Embed.antt =====
-- `embed_chunks` of pipeline.py: chunks are embedded in batches.
use stock_analyst.Shared.{
  ℕ, zero, suc, Text, List, [], ◌∷◌, ◌++◌, take, drop, length, Raises, ok, ◌>>=◌,
}
use stock_analyst.Chunker.Defs.{Chunk}

-- `xs[i : i + size]` for `i` in `range(0, len(xs), size)`; a round for every element is enough.
unfoldable pub batches_on {ℓ} : {A : Type ℓ} → ℕ → ℕ → List A → List (List A)
batches_on zero size xs = []
batches_on (suc rounds) size [] = []
batches_on (suc rounds) size (x ∷ xs) =
    take size (x ∷ xs) ∷ batches_on rounds size (drop size (x ∷ xs))

unfoldable pub batches {ℓ} : {A : Type ℓ} → ℕ → List A → List (List A)
batches size xs = batches_on (length xs) size xs

module _ {Vector : Type 0} (embed : Text → Raises Vector) where
  -- `asyncio.gather` over one batch: the results in order, or an exception of one of them.
  unfoldable pub gather_vectors : List Chunk → Raises (List (Chunk × Vector))
  gather_vectors [] = ok []
  gather_vectors (c ∷ cs) = do v ← embed c.content; vs ← gather_vectors cs; ok ((c, v) ∷ vs)

  unfoldable pub embed_batches : List (List Chunk) → Raises (List (Chunk × Vector))
  embed_batches [] = ok []
  embed_batches (b ∷ bs) = do vs ← gather_vectors b; rest ← embed_batches bs; ok (vs ++ rest)
