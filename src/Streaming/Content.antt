-- ===== src/Streaming/Content.antt =====
-- The text of the token stream: what is published, and what is held back.
use stock_analyst.Shared.{
  ℕ, ◌<◌, Text, List, [], ◌∷◌, ◌++◌, Bool, true, false, ◌≡◌, refl, sym, ap, ◌∙◌, ◌⊎◌, inl, inr,
  arith, ◌≤◌, some, Option-cases, ltb→lt, rfind_char, zero, suc, length, take, drop, map,
  take-append-drop, Bool-cases, ◌==◌, ◌&&◌, not, ltb, leb,
}
use mathlib.Core.List.{append-nil, append_assoc}
use stock_analyst.Shared.Regex.{match, is_some}
use stock_analyst.Enforcer.Patterns.{citation_pattern}
use stock_analyst.Enforcer.Quotes.{citations_of}
use stock_analyst.Message.{Citation}
use stock_analyst.Streaming.{
  Progress, chunk, flush_point, announce, flush_chunk, stream_from, stream, chunk_flush_threshold,
  stripped,
}

-- The text of the chunks, in order.
abbrev pub content_of : List Progress → Text
content_of [] = []
content_of (chunk t _ ∷ es) = t ++ content_of es
content_of (_ ∷ es) = content_of es

abbrev pub concat : List Text → Text
concat [] = []
concat (t ∷ ts) = t ++ concat ts

content-append : (es fs : List Progress) → content_of (es ++ fs) ≡ content_of es ++ content_of fs
content-append [] fs = refl
content-append (chunk t cs ∷ es) fs =
    ap (λ (s : Text). t ++ s) (content-append es fs)
    ∙ sym (append_assoc t (content_of es) (content_of fs))
content-append (_ ∷ es) fs = content-append es fs

content-announce : (seen cs : List Citation) → content_of (announce seen cs).1 ≡ []
unfolding announce
content-announce seen [] = refl
content-announce seen (c ∷ cs) =
    ground (arith, content-announce seen cs, content-announce (c ∷ seen) cs)

-- The events that cut at `to`.
cut_content :
    (to : ℕ) (buffer : Text) (found : List Progress) (cs : List Citation)
    → content_of found ≡ []
    → content_of (found ++ (chunk (take to buffer) cs ∷ [])) ++ drop to buffer ≡ buffer
cut_content to buffer found cs none_there =
    simp (content-append, none_there, append-nil) (take-append-drop to buffer)

-- The text that a flush publishes, followed by the text that it keeps, is the buffer.
pub flush_content :
    (buffer : Text) (seen : List Citation) (force : Bool)
    → let r = flush_chunk buffer seen force in content_of r.events ++ r.remainder ≡ buffer
unfolding flush_chunk
flush_content buffer seen force = elim (Bool-cases (flush_point buffer force == 0)) [
  | inl nothing ↦ rw (nothing, flush_chunk) refl
  | inr something ↦
      let to = flush_point buffer force in
      let cs = map stripped (citations_of (take to buffer)) in
      rw (something, flush_chunk)
        (cut_content to buffer (announce seen cs).1 cs (content-announce seen cs))
]

drop_at_zero : (n : ℕ) (t : Text) → n ≡ 0 → t ≡ drop n t
drop_at_zero zero t h = refl
drop_at_zero (suc n) t h = absurd (omega arith)

drop-length {ℓ} : {A : Type ℓ} (xs : List A) → drop (length xs) xs ≡ []
drop-length [] = refl
drop-length (x ∷ xs) = drop-length xs

flush_forced :
    (c : ℕ) (buffer : Text) (seen : List Citation)
    → (flush_chunk (c ∷ buffer) seen true).remainder ≡ []
unfolding flush_chunk flush_point
flush_forced c buffer seen = ground (arith, drop-length buffer)

stream_from_content :
    (deltas : List Text) (buffer : Text) (seen : List Citation)
    → content_of (stream_from deltas buffer seen) ≡ buffer ++ concat deltas
unfolding stream_from
stream_from_content [] [] seen = refl
stream_from_content [] (c ∷ buffer) seen =
    sym (append-nil (content_of (flush_chunk (c ∷ buffer) seen true).events))
    ∙ ap (λ (t : Text). content_of (flush_chunk (c ∷ buffer) seen true).events ++ t)
        (sym (flush_forced c buffer seen))
    ∙ flush_content (c ∷ buffer) seen true
    ∙ sym (append-nil (c ∷ buffer))
stream_from_content (delta ∷ deltas) buffer seen =
    elim (Bool-cases
      (leb chunk_flush_threshold (length (buffer ++ delta)) && not (length delta == 0))) [
        | inl cut ↦
            let r = flush_chunk (buffer ++ delta) seen false in
            rw (cut, stream_from)
              (content-append r.events _
                ∙ ap (λ (t : Text). content_of r.events ++ t)
                    (stream_from_content deltas r.remainder r.seen)
                ∙ sym (append_assoc (content_of r.events) r.remainder (concat deltas))
                ∙ ap (λ (t : Text). t ++ concat deltas) (flush_content (buffer ++ delta) seen false)
                ∙ append_assoc buffer delta (concat deltas))
        | inr keep ↦
            rw (keep, stream_from)
              (stream_from_content deltas (buffer ++ delta) seen
                ∙ append_assoc buffer delta (concat deltas))
      ]

-- The chunks that a completion is published in spell exactly the text of its deltas.
pub stream_content : (deltas : List Text) → content_of (stream deltas) ≡ concat deltas
unfolding stream
stream_content deltas = stream_from_content deltas [] []

remainder-eq-drop :
    (buffer : Text) (seen : List Citation) (force : Bool)
    → (flush_chunk buffer seen force).remainder ≡ drop (flush_point buffer force) buffer
unfolding flush_chunk
remainder-eq-drop buffer seen force = ground (arith, drop_at_zero (flush_point buffer force) buffer)

rfind-drop :
    (c : ℕ) (t : Text) (i : ℕ) → rfind_char c t ≡ some i → (rest : Text) × (drop i t ≡ c ∷ rest)
rfind-drop c [] i h = absurd (cc)
rfind-drop c (a ∷ t) i h = elim (Option-cases (rfind_char c t)) [
  | inl none_later ↦
      let (same, first) : (a ≡ c) × (i ≡ 0) = ground arith in (t, rw (first, same) refl)
  | inr (j, later) ↦
      let next : i ≡ suc j = ground arith in
      let (rest, found) = rfind-drop c t j later in (rest, rw next found)
]

-- A remainder that waits for the rest of a citation.
abbrev pub IsOpenCitation : Text → Type 0
IsOpenCitation r =
    (r ≡ []) ⊎ ((t : Text) × (r ≡ b'[' ∷ t) × (is_some (match citation_pattern r) ≡ false))

length-drop-le {ℓ} : {A : Type ℓ} (n : ℕ) (xs : List A) → length (drop n xs) ≤ length xs
length-drop-le zero xs = omega arith
length-drop-le (suc n) [] = omega arith
length-drop-le (suc n) (x ∷ xs) = omega (arith, length-drop-le n xs)

nothing_held :
    (buffer : Text)
    → (length (drop (length buffer) buffer) < 2000) × IsOpenCitation (drop (length buffer) buffer)
nothing_held buffer = rw (drop-length buffer) (omega arith, inl refl)

drop-flush_point :
    (buffer : Text)
    → (length (drop (flush_point buffer false) buffer) < 2000)
      × IsOpenCitation (drop (flush_point buffer false) buffer)
unfolding flush_point
drop-flush_point buffer = elim (Bool-cases (ltb (length buffer) 2000)) [
  | inr large ↦ rw (large, flush_point) (nothing_held buffer)
  | inl small ↦ elim (Option-cases (rfind_char b'[' buffer)) [
    | inl no_bracket ↦ rw (small, flush_point, no_bracket) (nothing_held buffer)
    | inr (i, bracket) ↦ elim (Bool-cases (is_some (match citation_pattern (drop i buffer)))) [
      | inl whole ↦ rw (small, flush_point, bracket, whole) (nothing_held buffer)
      | inr part ↦
          let (rest, found) = rfind-drop b'[' buffer i bracket in
          rw (small, flush_point, bracket, part)
            (omega (arith, length-drop-le i buffer, ltb→lt _ _ small), inr (rest, found, part))
    ]
  ]
]

-- What a flush keeps back, unless it is forced, is shorter than 2000 characters, and is empty or
-- begins with an opening bracket at which no whole citation stands.
pub held_back :
    (buffer : Text) (seen : List Citation)
    → let r = flush_chunk buffer seen false in
      (length r.remainder < 2000) × IsOpenCitation r.remainder
held_back buffer seen = rw (remainder-eq-drop buffer seen false) (drop-flush_point buffer)
