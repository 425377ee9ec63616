-- ===== src/Index/Batches.antt =====
-- Batches, and the embeddings that are made by batches.
use stock_analyst.Shared.{
  ℕ, zero, suc, ◌≤◌, Text, List, [], ◌∷◌, ◌++◌, map, take, drop, length, take-append-drop,
  length-take, All, All-append, ok, Raises, >>=-eq-ok, ◌>>=◌, ok-injective, ◌≡◌, refl, ap, ◌∙◌,
  arith, subst,
}
use stock_analyst.Chunker.Defs.{Chunk}
use mathlib.Core.List.{map-append}
use stock_analyst.Index.Embed.{batches_on, batches, gather_vectors, embed_batches}

abbrev pub flatten {ℓ} : {A : Type ℓ} → List (List A) → List A
flatten [] = []
flatten (xs ∷ xss) = xs ++ flatten xss

-- Neither empty nor longer than a batch.
abbrev pub IsBatch {ℓ} : {A : Type ℓ} → ℕ → List A → Type 0
IsBatch size b = (1 ≤ length b) × (length b ≤ size)

module _ {A : Type 0} where
  length-drop-le : (n : ℕ) (xs : List A) → length (drop n xs) ≤ length xs
  length-drop-le zero xs = omega arith
  length-drop-le (suc n) [] = omega arith
  length-drop-le (suc n) (x ∷ xs) = omega (arith, length-drop-le n xs)

  flatten-batches_on :
      (rounds size : ℕ) (xs : List A)
      → length xs ≤ rounds
      → flatten (batches_on rounds (suc size) xs) ≡ xs
  unfolding batches_on
  flatten-batches_on zero size [] h = refl
  flatten-batches_on zero size (x ∷ xs) h = absurd (omega (arith, h))
  flatten-batches_on (suc rounds) size [] h = refl
  flatten-batches_on (suc rounds) size (x ∷ xs) h =
      ap (λ (l : List A). x ∷ (take size xs ++ l))
        (flatten-batches_on rounds size (drop size xs) (omega (arith, h, length-drop-le size xs)))
      ∙ ap (λ (l : List A). x ∷ l) (take-append-drop size xs)

  batches_on-IsBatch :
      (rounds size : ℕ) (xs : List A) → All (IsBatch (suc size)) (batches_on rounds (suc size) xs)
  unfolding batches_on
  batches_on-IsBatch zero size xs = tt
  batches_on-IsBatch (suc rounds) size [] = tt
  batches_on-IsBatch (suc rounds) size (x ∷ xs) = (
    (omega arith, omega (arith, length-take size xs)),
    batches_on-IsBatch rounds size (drop size xs),
  )

  -- The batches of a list are the list, cut.
  pub flatten-batches : (size : ℕ) (xs : List A) → flatten (batches (suc size) xs) ≡ xs
  unfolding batches
  flatten-batches size xs = flatten-batches_on (length xs) size xs (omega arith)

  pub batches-IsBatch : (size : ℕ) (xs : List A) → All (IsBatch (suc size)) (batches (suc size) xs)
  unfolding batches
  batches-IsBatch size xs = batches_on-IsBatch (length xs) size xs

module _ {Vector : Type 0} (embed : Text → Raises Vector) where
  -- The chunks in order, each with the vector that the embedder gives for its content.
  pub record Embeds (cs : List Chunk) (es : List (Chunk × Vector)) : Type 0 where
    pub chunks : map (λ (e : Chunk × Vector). e.0) es ≡ cs
    pub vectors : All (λ (e : Chunk × Vector). embed e.0.content ≡ ok e.1) es

  Embeds-append :
      (cs ds : List Chunk) (es fs : List (Chunk × Vector))
      → Embeds cs es
      → Embeds ds fs
      → Embeds (cs ++ ds) (es ++ fs)
  Embeds-append cs ds es fs h k = record {
    chunks = map-append (λ (e : Chunk × Vector). e.0) es fs ∙ (λ i. h.chunks i ++ k.chunks i);
    vectors = All-append _ es fs h.vectors k.vectors;
  }

  gather-Embeds :
      (cs : List Chunk) {es : List (Chunk × Vector)}
      → gather_vectors embed cs ≡ ok es
      → Embeds cs es
  unfolding gather_vectors
  gather-Embeds [] {es} h =
      subst (Embeds []) (ok-injective [] es h) (record { chunks = refl; vectors = tt })
  gather-Embeds (c ∷ cs) {es} h =
      let (v, embedded, later) =
        >>=-eq-ok (embed c.content) (λ v. gather_vectors embed cs >>= (λ vs. ok ((c, v) ∷ vs))) h in
      let (vs, gathered, same) =
        >>=-eq-ok (gather_vectors embed cs) (λ vs. ok ((c, v) ∷ vs)) later in
      let rest = gather-Embeds cs gathered in
      subst (Embeds (c ∷ cs)) (ok-injective ((c, v) ∷ vs) es same) (record {
        chunks = ap (λ (l : List Chunk). c ∷ l) rest.chunks;
        vectors = (embedded, rest.vectors);
      })

  pub embed_batches-Embeds :
      (bs : List (List Chunk)) {es : List (Chunk × Vector)}
      → embed_batches embed bs ≡ ok es
      → Embeds (flatten bs) es
  unfolding embed_batches
  embed_batches-Embeds [] {es} h =
      subst (Embeds []) (ok-injective [] es h) (record { chunks = refl; vectors = tt })
  embed_batches-Embeds (b ∷ bs) {es} h =
      let (vs, gathered, later) =
        >>=-eq-ok (gather_vectors embed b)
          (λ vs. embed_batches embed bs >>= (λ rest. ok (vs ++ rest))) h in
      let (rest, embedded, same) =
        >>=-eq-ok (embed_batches embed bs) (λ rest. ok (vs ++ rest)) later in
      subst (Embeds (flatten (b ∷ bs))) (ok-injective (vs ++ rest) es same) (
        Embeds-append b (flatten bs) vs rest (gather-Embeds b gathered)
          (embed_batches-Embeds bs embedded))
