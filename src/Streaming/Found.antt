-- ===== src/Streaming/Found.antt =====
-- The citations that the token stream announces.
use stock_analyst.Shared.{
  Text, List, [], ◌∷◌, ◌++◌, Bool, true, false, ◌≡◌, refl, ap, inl, inr, All, All-append,
  All-weaken, arith, Bool-cases, ◌||◌, ◌&&◌, not, length, leb, ◌==◌, map, take,
}
use mathlib.Core.List.{append-nil}
use stock_analyst.Message.{Citation}
use stock_analyst.Enforcer.Quotes.{citations_of}
use stock_analyst.Streaming.{
  Progress, citation_found, same_citation, is_seen, stripped, flush_point, announce, flush_chunk,
  stream_from, stream, chunk_flush_threshold,
}

-- The citations announced, in order.
abbrev pub found_of : List Progress → List Citation
found_of [] = []
found_of (citation_found c ∷ es) = c ∷ found_of es
found_of (_ ∷ es) = found_of es

-- No citation is announced after one with the same document, section and quote.
abbrev pub NoRepeats : List Citation → Type 0
NoRepeats [] = Unit
NoRepeats (c ∷ cs) = All (λ later. same_citation later c ≡ false) cs × NoRepeats cs

abbrev Fresh : List Citation → List Citation → Type 0
Fresh seen found = All (λ c. is_seen seen c ≡ false) found × NoRepeats found

-- What one loop over citations did: `seen'` knows what it announced, and what was known before.
record Announced (seen seen' found : List Citation) : Type 0 where
  fresh : Fresh seen found
  covers :
      (x : Citation)
      → is_seen seen' x ≡ false
      → (is_seen seen x ≡ false) × All (λ c. same_citation x c ≡ false) found

or-false : (a b : Bool) → (a || b) ≡ false → (a ≡ false) × (b ≡ false)
or-false a b h = ground arith

found-append : (es fs : List Progress) → found_of (es ++ fs) ≡ found_of es ++ found_of fs
found-append [] fs = refl
found-append (citation_found c ∷ es) fs = ap (λ (l : List Citation). c ∷ l) (found-append es fs)
found-append (_ ∷ es) fs = found-append es fs

announce_new :
    (seen seen' : List Citation) (c : Citation) (found : List Citation)
    → is_seen seen c ≡ false
    → Announced (c ∷ seen) seen' found
    → Announced seen seen' (c ∷ found)
announce_new seen seen' c found new a = record {
  fresh = (
    (
      new,
      All-weaken _ _ (λ x h. (or-false (same_citation x c) (is_seen seen x) h).1) found a.fresh.0,
    ),
    (
      All-weaken _ _ (λ x h. (or-false (same_citation x c) (is_seen seen x) h).0) found a.fresh.0,
      a.fresh.1,
    ),
  );
  covers = λ x h.
      let (known, others) = a.covers x h in
      let (not_c, not_seen) = or-false (same_citation x c) (is_seen seen x) known in
      (not_seen, (not_c, others));
}

announce_lem :
    (seen cs : List Citation)
    → let (seen', es) = announce seen cs in Announced seen seen' (found_of es)
unfolding announce
announce_lem seen [] = record { fresh = (tt, tt); covers = λ x h. (h, tt) }
announce_lem seen (c ∷ cs) = elim (Bool-cases (is_seen seen c)) [
  | inl old ↦ rw (old, announce) (announce_lem seen cs)
  | inr new ↦ rw (new, announce) (announce_new seen _ c _ new (announce_lem (c ∷ seen) cs))
]

NoRepeats-append :
    (f g : List Citation)
    → NoRepeats f
    → NoRepeats g
    → All (λ x. All (λ c. same_citation x c ≡ false) f) g
    → NoRepeats (f ++ g)
NoRepeats-append [] g hf hg apart = hg
NoRepeats-append (c ∷ f) g hf hg apart = (
  All-append _ f g hf.0 (All-weaken _ _ (λ x h. h.0) g apart),
  NoRepeats-append f g hf.1 hg (All-weaken _ _ (λ x h. h.1) g apart),
)

Fresh-append :
    (seen seen' f g : List Citation) → Announced seen seen' f → Fresh seen' g → Fresh seen (f ++ g)
Fresh-append seen seen' f g a h = (
  All-append _ f g a.fresh.0 (All-weaken _ _ (λ x known. (a.covers x known).0) g h.0),
  NoRepeats-append f g a.fresh.1 h.1 (All-weaken _ _ (λ x known. (a.covers x known).1) g h.0),
)

flush_Announced :
    (buffer : Text) (seen : List Citation) (force : Bool)
    → let r = flush_chunk buffer seen force in Announced seen r.seen (found_of r.events)
unfolding flush_chunk
flush_Announced buffer seen force = elim (Bool-cases (flush_point buffer force == 0)) [
  | inl nothing ↦ rw (nothing, flush_chunk) (record { fresh = (tt, tt); covers = λ x h. (h, tt) })
  | inr something ↦
      let cs = map stripped (citations_of (take (flush_point buffer force) buffer)) in
      rw (something, flush_chunk) (simp (found-append, append-nil) (announce_lem seen cs))
]

stream_from-Fresh :
    (deltas : List Text) (buffer : Text) (seen : List Citation)
    → Fresh seen (found_of (stream_from deltas buffer seen))
unfolding stream_from
stream_from-Fresh [] [] seen = (tt, tt)
stream_from-Fresh [] (c ∷ buffer) seen = (flush_Announced (c ∷ buffer) seen true).fresh
stream_from-Fresh (delta ∷ deltas) buffer seen =
    elim (Bool-cases
      (leb chunk_flush_threshold (length (buffer ++ delta)) && not (length delta == 0))) [
        | inl cut ↦
            let r = flush_chunk (buffer ++ delta) seen false in
            rw (cut, stream_from)
              (rw (found-append r.events _) (
                Fresh-append seen r.seen _ _ (flush_Announced (buffer ++ delta) seen false)
                  (stream_from-Fresh deltas r.remainder r.seen)))
        | inr keep ↦ rw (keep, stream_from) (stream_from-Fresh deltas (buffer ++ delta) seen)
      ]

-- In the stream of one completion no citation is announced twice: of two announced, the document,
-- the section or the quote differs.
pub stream-NoRepeats : (deltas : List Text) → NoRepeats (found_of (stream deltas))
unfolding stream
stream-NoRepeats deltas = (stream_from-Fresh deltas [] []).1
