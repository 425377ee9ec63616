-- ===== src/Retriever/Fusion.antt =====
-- The fusion of two rankings: what is a candidate, with which score, in which order.
use stock_analyst.Shared.{
  ℕ, ◌+◌, Text, List, [], ◌∷◌, Bool, true, false, ◌||◌, ◌≡◌, refl, sym, ap, ◌∙◌, inl, inr, All,
  All-weaken, any, arith, Bool-cases, same_text, same_text_refl, same_text→eq, same_text_comm,
  if◌then◌else◌, Pairwise, Pairwise-sort_desc, All-sort_desc, any-sort_desc, IsDescending,
  sort_desc-IsDescending,
}
use stock_analyst.Retriever.{
  Payload, Fraction, add_reciprocal, zero_score, is_lower, rrf_k, Point, payload_of, Candidate,
  add_hit, add_hits, has_lower_score, reciprocal_rank_fusion,
}

-- The score that a chunk gathers in one ranking, on top of what it has.
abbrev pub gathered : {Score : Type 0} → Text → ℕ → List (Point Score) → Fraction → Fraction
gathered id rank [] f = f
gathered id rank (p ∷ ps) f =
    gathered id (rank + 1) ps (if same_text p.id id then add_reciprocal f (rrf_k + rank) else f)

-- The sum over both rankings of the reciprocals of 60 plus the rank.
abbrev pub fused_score :
    {Score : Type 0} → List (Point Score) → List (Point Score) → Text → Fraction
fused_score dense sparse id = gathered id 1 sparse (gathered id 1 dense zero_score)

abbrev pub is_hit : {Score : Type 0} → Text → List (Point Score) → Bool
is_hit id ps = any (λ p. same_text p.id id) ps

abbrev pub is_candidate : Text → List Candidate → Bool
is_candidate id cs = any (λ c. same_text c.chunk_id id) cs

abbrev pub Differ : Candidate → Candidate → Type 0
Differ a b = same_text a.chunk_id b.chunk_id ≡ false

-- The score of an identifier in the table.
abbrev score_in : Text → List Candidate → Fraction
score_in id [] = zero_score
score_in id (c ∷ cs) =
    let later = score_in id cs in if same_text c.chunk_id id then c.rrf_score else later

same_text-swap : (a b c : Text) → same_text a b ≡ true → same_text b c ≡ same_text a c
same_text-swap a b c h = rw (same_text→eq a b h) refl

same_text-apart :
    (a b c : Text) → same_text a b ≡ false → same_text a c ≡ true → same_text b c ≡ false
same_text-apart a b c h e =
    same_text_comm b c ∙ ap (λ t. same_text t b) (sym (same_text→eq a c e)) ∙ h

score-add_hit :
    (id : Text) (payload : Payload) (rank : ℕ) (cs : List Candidate) (x : Text)
    → score_in x (add_hit id payload rank cs)
      ≡ (if same_text id x then add_reciprocal (score_in x cs) (rrf_k + rank) else score_in x cs)
unfolding add_hit
score-add_hit id payload rank [] x = ground arith
score-add_hit id payload rank (c ∷ cs) x = elim (Bool-cases (same_text c.chunk_id id)) [
  | inl here ↦ ground (arith, same_text-swap c.chunk_id id x here)
  | inr other ↦
      ground (arith, score-add_hit id payload rank cs x, same_text-apart c.chunk_id id x other)
]

candidate-add_hit :
    (id : Text) (payload : Payload) (rank : ℕ) (cs : List Candidate) (x : Text)
    → is_candidate x (add_hit id payload rank cs) ≡ is_candidate x cs || same_text id x
unfolding add_hit
candidate-add_hit id payload rank [] x = ground arith
candidate-add_hit id payload rank (c ∷ cs) x = elim (Bool-cases (same_text c.chunk_id id)) [
  | inl here ↦ ground (arith, same_text-swap c.chunk_id id x here)
  | inr other ↦ ground (arith, candidate-add_hit id payload rank cs x)
]

Differ-add_hit :
    (c : Candidate) (id : Text) (payload : Payload) (rank : ℕ) (cs : List Candidate)
    → same_text c.chunk_id id ≡ false
    → All (Differ c) cs
    → All (Differ c) (add_hit id payload rank cs)
unfolding add_hit
Differ-add_hit c id payload rank [] new h = (new, tt)
Differ-add_hit c id payload rank (d ∷ cs) new h = elim (Bool-cases (same_text d.chunk_id id)) [
  | inl here ↦ rw (here, add_hit) h
  | inr other ↦ rw (other, add_hit) (h.0, Differ-add_hit c id payload rank cs new h.1)
]

distinct-add_hit :
    (id : Text) (payload : Payload) (rank : ℕ) (cs : List Candidate)
    → Pairwise Differ cs
    → Pairwise Differ (add_hit id payload rank cs)
unfolding add_hit
distinct-add_hit id payload rank [] h = (tt, tt)
distinct-add_hit id payload rank (c ∷ cs) h = elim (Bool-cases (same_text c.chunk_id id)) [
  | inl here ↦ rw (here, add_hit) h
  | inr other ↦
      rw (other, add_hit)
        (Differ-add_hit c id payload rank cs other h.0, distinct-add_hit id payload rank cs h.1)
]

-- What holds of every hit's identifier and payload holds of every candidate's.
All-add_hit :
    (P : Text → Payload → Type 0) (id : Text) (payload : Payload) (rank : ℕ) (cs : List Candidate)
    → P id payload
    → All (λ c. P c.chunk_id c.metadata) cs
    → All (λ c. P c.chunk_id c.metadata) (add_hit id payload rank cs)
unfolding add_hit
All-add_hit P id payload rank [] hit h = (hit, tt)
All-add_hit P id payload rank (c ∷ cs) hit h = elim (Bool-cases (same_text c.chunk_id id)) [
  | inl here ↦ rw (here, add_hit) h
  | inr other ↦ rw (other, add_hit) (h.0, All-add_hit P id payload rank cs hit h.1)
]

module _ {Score : Type 0} where
  score-add_hits :
      (rank : ℕ) (ps : List (Point Score)) (cs : List Candidate) (x : Text)
      → score_in x (add_hits rank ps cs) ≡ gathered x rank ps (score_in x cs)
  unfolding add_hits
  score-add_hits rank [] cs x = refl
  score-add_hits rank (p ∷ ps) cs x =
      score-add_hits (rank + 1) ps (add_hit p.id (payload_of Score p) rank cs) x
      ∙ ap (λ (f : Fraction). gathered x (rank + 1) ps f)
          (score-add_hit p.id (payload_of Score p) rank cs x)

  candidate-add_hits :
      (rank : ℕ) (ps : List (Point Score)) (cs : List Candidate) (x : Text)
      → is_candidate x (add_hits rank ps cs) ≡ is_candidate x cs || is_hit x ps
  unfolding add_hits
  candidate-add_hits rank [] cs x = ground arith
  candidate-add_hits rank (p ∷ ps) cs x = ground (
    arith,
    candidate-add_hits (rank + 1) ps (add_hit p.id (payload_of Score p) rank cs) x,
    candidate-add_hit p.id (payload_of Score p) rank cs x,
  )

  distinct-add_hits :
      (rank : ℕ) (ps : List (Point Score)) (cs : List Candidate)
      → Pairwise Differ cs
      → Pairwise Differ (add_hits rank ps cs)
  unfolding add_hits
  distinct-add_hits rank [] cs h = h
  distinct-add_hits rank (p ∷ ps) cs h =
      distinct-add_hits (rank + 1) ps _ (distinct-add_hit p.id (payload_of Score p) rank cs h)

  pub All-add_hits :
      (P : Text → Payload → Type 0) (rank : ℕ) (ps : List (Point Score)) (cs : List Candidate)
      → All (λ p. P p.id (payload_of Score p)) ps
      → All (λ c. P c.chunk_id c.metadata) cs
      → All (λ c. P c.chunk_id c.metadata) (add_hits rank ps cs)
  unfolding add_hits
  All-add_hits P rank [] cs hits h = h
  All-add_hits P rank (p ∷ ps) cs hits h =
      All-add_hits P (rank + 1) ps _ hits.1
        (All-add_hit P p.id (payload_of Score p) rank cs hits.0 h)

score-skip :
    (c : Candidate) (cs ds : List Candidate)
    → All (Differ c) ds
    → All (λ d. score_in d.chunk_id cs ≡ d.rrf_score) ds
    → All (λ d. score_in d.chunk_id (c ∷ cs) ≡ d.rrf_score) ds
score-skip c cs [] apart h = tt
score-skip c cs (d ∷ ds) apart h = (rw apart.0 h.0, score-skip c cs ds apart.1 h.1)

score-own :
    (cs : List Candidate) → Pairwise Differ cs → All (λ c. score_in c.chunk_id cs ≡ c.rrf_score) cs
score-own [] h = tt
score-own (c ∷ cs) h =
    (rw (same_text_refl c.chunk_id) refl, score-skip c cs cs h.0 (score-own cs h.1))

is_lower-asymmetric : (a b : Fraction) → is_lower a b ≡ true → is_lower b a ≡ false
is_lower-asymmetric a b h = ground arith

-- What a fusion of two rankings is.
pub record IsFusion {Score : Type 0} (dense sparse : List (Point Score)) (cs : List Candidate)
    : Type 0 where
  pub hits : (id : Text) → is_candidate id cs ≡ is_hit id dense || is_hit id sparse
  pub distinct : Pairwise Differ cs
  pub scored : All (λ c. c.rrf_score ≡ fused_score dense sparse c.chunk_id) cs
  pub ordered : IsDescending has_lower_score cs

-- The candidates of a fusion are the identifiers that occur in a ranking, each once, with the sum
-- of the reciprocals of 60 plus its ranks as score, and in descending order of the scores.
pub reciprocal_rank_fusion-IsFusion :
    {Score : Type 0} (dense sparse : List (Point Score))
    → IsFusion dense sparse (reciprocal_rank_fusion dense sparse)
unfolding reciprocal_rank_fusion
reciprocal_rank_fusion-IsFusion dense sparse =
    let after_dense = add_hits 1 dense [] in
    let table = add_hits 1 sparse after_dense in
    let apart = distinct-add_hits 1 sparse after_dense (distinct-add_hits 1 dense [] tt) in
    record {
      hits = λ id.
          any-sort_desc has_lower_score (λ c. same_text c.chunk_id id) table
          ∙ candidate-add_hits 1 sparse after_dense id
          ∙ ap (λ (b : Bool). b || is_hit id sparse) (candidate-add_hits 1 dense [] id);
      distinct =
          Pairwise-sort_desc has_lower_score Differ
            (λ a b h. same_text_comm b.chunk_id a.chunk_id ∙ h) table apart;
      scored = All-sort_desc has_lower_score _ table (
          All-weaken _ _
            (λ c own.
              sym own
              ∙ score-add_hits 1 sparse after_dense c.chunk_id
              ∙ ap (λ (f : Fraction). gathered c.chunk_id 1 sparse f)
                  (score-add_hits 1 dense [] c.chunk_id))
            table (score-own table apart));
      ordered =
          sort_desc-IsDescending has_lower_score
            (λ a b h. is_lower-asymmetric a.rrf_score b.rrf_score h) table;
    }
