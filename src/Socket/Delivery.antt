-- ===== src/Socket/Delivery.antt =====
-- A subscription that is in time: what is sent, and that the socket closes.
use stock_analyst.Shared.{
  ℕ, ◌+◌, ◌*◌, ◌≤◌, ◌<◌, List, [], ◌∷◌, ◌++◌, map, true, false, Option, none, some, length,
  length-append, Bool-cases, ◌≡◌, ◌≢◌, refl, sym, ap, ◌∙◌, subst, inl, inr, arith,
}
use mathlib.Core.List.{append_assoc}
use stock_analyst.Orchestrator.Tasks.{TaskRow, Event, is_terminal}
use stock_analyst.Socket.{
  Act, set, publish, Frame, forwarded, Phase, accepted, checked, closed, listening, State,
  delivered, on_row, on_event, Step, store, emit, read, subscribe, send, Reach, here, next,
  events_of, Closing,
}

-- The frames that are due to a listening socket: sent, held and still to come.
abbrev Due : List Frame → Phase → List Frame → List Event → Type 0
Due total (listening inbox) sent es =
    (sent ++ map forwarded (inbox ++ es) ≡ total) × Closing (inbox ++ es) × ((inbox ++ es) ≢ [])
Due total closed sent es = sent ≡ total
Due total _ sent es = ⊥

delivered-Due :
    (total : List Frame) (phase : Phase) (sent : List Frame) (e : Event) (es : List Event)
    → Due total phase sent (e ∷ es)
    → Due total (delivered e phase) sent es
delivered-Due total (listening inbox) sent e es h =
    subst (λ (l : List Event). (sent ++ map forwarded l ≡ total) × Closing l × (l ≢ []))
      (sym (append_assoc inbox (e ∷ []) es)) h
delivered-Due total closed sent e es h = h
delivered-Due total accepted sent e es h = h
delivered-Due total checked sent e es h = h

-- Where a closing event comes first, nothing follows it.
Closing-last : (e : Event) (es : List Event) → Closing (e ∷ es) → is_terminal e ≡ true → es ≡ []
Closing-last e [] c h = refl
Closing-last e (e' ∷ es) c h = cc

Closing-first :
    (e : Event) (es : List Event)
    → Closing (e ∷ es)
    → is_terminal e ≡ false
    → Closing es × (es ≢ [])
Closing-first e [] c h = cc
Closing-first e (e' ∷ es) c h = (c.1, λ q. cc)

append-empty : (xs ys : List Event) → xs ++ ys ≡ [] → xs ≡ []
append-empty [] ys h = refl
append-empty (x ∷ xs) ys h = cc

on_event-Due :
    (total : List Frame) (sent : List Frame) (e : Event) (inbox es : List Event)
    → Due total (listening (e ∷ inbox)) sent es
    → Due total (on_event e inbox) (sent ++ (forwarded e ∷ [])) es
unfolding on_event
on_event-Due total sent e inbox es h = elim (Bool-cases (is_terminal e)) [
  | inl ends ↦ rw ends (
      ap (λ (l : List Event). sent ++ (forwarded e ∷ map forwarded l))
        (sym (Closing-last e (inbox ++ es) h.1 ends))
      ∙ h.0)
  | inr goes_on ↦ rw goes_on (
    append_assoc sent (forwarded e ∷ []) (map forwarded (inbox ++ es)) ∙ h.0,
    (Closing-first e (inbox ++ es) h.1 goes_on).0,
    (Closing-first e (inbox ++ es) h.1 goes_on).1,
  )
]

abbrev IsDue : List Frame → State → Type 0
IsDue total s = Due total s.phase s.sent (events_of s.rest)

Step-IsDue :
    {tenant : ℕ} {s t : State} (total : List Frame)
    → Step tenant s t
    → IsDue total s
    → IsDue total t
Step-IsDue total (store s t rest e) h =
    subst (λ (l : List Act). Due total s.phase s.sent (events_of l)) e h
Step-IsDue total (emit s ev rest e) h =
    delivered-Due total s.phase s.sent ev (events_of rest)
      (subst (λ (l : List Act). Due total s.phase s.sent (events_of l)) e h)
Step-IsDue total (read s e) h = absurd (subst (λ p. Due total p s.sent (events_of s.rest)) e h)
Step-IsDue total (subscribe s e) h = absurd (subst (λ p. Due total p s.sent (events_of s.rest)) e h)
Step-IsDue total (send s ev inbox e) h =
    on_event-Due total s.sent ev inbox (events_of s.rest)
      (subst (λ p. Due total p s.sent (events_of s.rest)) e h)

-- How many steps are left at most.
abbrev left : Phase → ℕ
left accepted = 3
left checked = 2
left closed = 0
left (listening inbox) = 1 + length inbox

abbrev measure : State → ℕ
measure s = 2 * length s.rest + left s.phase

left-delivered : (e : Event) (phase : Phase) → left (delivered e phase) ≤ left phase + 1
left-delivered e (listening inbox) = omega (arith, length-append inbox (e ∷ []))
left-delivered e accepted = omega arith
left-delivered e checked = omega arith
left-delivered e closed = omega arith

left-on_row :
    (tenant : ℕ) (row : Option TaskRow) (sent : List Frame) → left (on_row tenant row sent).0 ≤ 2
unfolding on_row
left-on_row tenant none sent = omega arith
left-on_row tenant (some t) sent = ground arith

left-on_event : (e : Event) (inbox : List Event) → left (on_event e inbox) ≤ 1 + length inbox
unfolding on_event
left-on_event e inbox = ground arith

Step-measure : {tenant : ℕ} {s t : State} → Step tenant s t → measure t < measure s
Step-measure (store s t rest e) = omega (arith, ap length e)
Step-measure (emit s ev rest e) = omega (arith, ap length e, left-delivered ev s.phase)
Step-measure {tenant} (read s e) = omega (arith, ap left e, left-on_row tenant s.row s.sent)
Step-measure (subscribe s e) = omega (arith, ap left e)
Step-measure (send s ev inbox e) = omega (arith, ap left e, left-on_event ev inbox)

pub Reach-measure :
    {tenant : ℕ} {s t : State} {n : ℕ} → Reach tenant s n t → n + measure t ≤ measure s
Reach-measure here = omega arith
Reach-measure (next r st) = omega (arith, Reach-measure r, Step-measure st)

Reach-IsDue :
    {tenant : ℕ} {s t : State} {n : ℕ} (total : List Frame)
    → Reach tenant s n t
    → IsDue total s
    → IsDue total t
Reach-IsDue total here h = h
Reach-IsDue total (next r st) h = Step-IsDue total st (Reach-IsDue total r h)

-- No step is left.
abbrev pub IsFinal : ℕ → State → Type 0
IsFinal tenant s = (t : State) → ¬ Step tenant s t

rest_empty : (tenant : ℕ) (s : State) (l : List Act) → IsFinal tenant s → s.rest ≡ l → l ≡ []
rest_empty tenant s [] h e = refl
rest_empty tenant s (set t ∷ l) h e = absurd (h _ (store s t l e))
rest_empty tenant s (publish ev ∷ l) h e = absurd (h _ (emit s ev l e))

-- Where a socket can be when no step is left.
abbrev IsLastPhase : Phase → Type 0
IsLastPhase accepted = ⊥
IsLastPhase checked = ⊥
IsLastPhase closed = Unit
IsLastPhase (listening inbox) = inbox ≡ []

last_phase : (tenant : ℕ) (s : State) (p : Phase) → IsFinal tenant s → s.phase ≡ p → IsLastPhase p
last_phase tenant s accepted h e = h _ (read s e)
last_phase tenant s checked h e = h _ (subscribe s e)
last_phase tenant s closed h e = tt
last_phase tenant s (listening []) h e = refl
last_phase tenant s (listening (ev ∷ inbox)) h e = absurd (h _ (send s ev inbox e))

Due-final :
    (total : List Frame) (p : Phase) (sent : List Frame)
    → IsLastPhase p
    → Due total p sent []
    → (p ≡ closed) × (sent ≡ total)
Due-final total accepted sent l d = absurd l
Due-final total checked sent l d = absurd l
Due-final total closed sent l d = (refl, d)
Due-final total (listening []) sent l d = absurd (d.2 refl)
Due-final total (listening (e ∷ inbox)) sent l d = cc

-- A socket subscribes while the worker has events to publish, of which the last, and only the last,
-- ends a subscription. Whatever the interleaving, at most twice as many steps and one follow as the
-- worker has acts left; when no step is left the socket is closed, and has sent all those events,
-- in order.
pub socket_closes :
    {tenant : ℕ} {s t : State} {n : ℕ}
    → s.phase ≡ listening []
    → Closing (events_of s.rest)
    → events_of s.rest ≢ []
    → Reach tenant s n t
    → (n ≤ 2 * length s.rest + 1)
      × (IsFinal tenant t
          → (t.phase ≡ closed) × (t.sent ≡ s.sent ++ map forwarded (events_of s.rest)))
socket_closes {tenant} {s} {t} {n} e c some_left r =
    let total = s.sent ++ map forwarded (events_of s.rest) in
    let due : IsDue total t =
      Reach-IsDue total r
        (subst (λ p. Due total p s.sent (events_of s.rest)) (sym e) (refl, c, some_left)) in
    (
      omega (arith, Reach-measure r, ap left e),
      λ final. Due-final total t.phase t.sent (last_phase tenant t t.phase final refl) (
          subst (λ (l : List Act). Due total t.phase t.sent (events_of l))
            (rest_empty tenant t t.rest final refl) due),
    )
