-- ===== src/Socket/Late.antt =====
-- A subscription that is late.
use stock_analyst.Shared.{ℕ, suc, List, [], ◌∷◌, some, ◌≡◌, ◌≢◌, refl, ap, ◌∙◌, subst, ◌⊎◌, arith}
use stock_analyst.Orchestrator.Tasks.{TaskRow, TaskStatus, Event, Act, set, publish}
use stock_analyst.Socket.{
  Frame, Phase, accepted, checked, closed, listening, State, delivered, on_row, Step, store, emit,
  read, subscribe, send, Reach, here, next, events_of,
}

-- A socket that has read the row and is not closed, with nothing to send and nothing to come.
abbrev IsIdle : Phase → List Event → Type 0
IsIdle checked es = es ≡ []
IsIdle (listening inbox) es = (inbox ≡ []) × (es ≡ [])
IsIdle _ es = ⊥

Waits : List Frame → State → Type 0
Waits sent s = IsIdle s.phase (events_of s.rest) × (s.sent ≡ sent)

not-IsIdle : (p : Phase) (e : Event) (es : List Event) → ¬ IsIdle p (e ∷ es)
not-IsIdle accepted e es h = h
not-IsIdle checked e es h = cc
not-IsIdle closed e es h = h
not-IsIdle (listening inbox) e es h = cc (h.1)

Step-Waits :
    {tenant : ℕ} {s t : State} (sent : List Frame) → Step tenant s t → Waits sent s → Waits sent t
unfolding Waits
Step-Waits sent (store s t rest e) (idle, h) =
    (subst (λ (l : List Act). IsIdle s.phase (events_of l)) e idle, h)
Step-Waits sent (emit s ev rest e) (idle, h) = absurd (
    not-IsIdle s.phase ev (events_of rest)
      (subst (λ (l : List Act). IsIdle s.phase (events_of l)) e idle))
Step-Waits sent (read s e) (idle, h) = absurd (subst (λ p. IsIdle p (events_of s.rest)) e idle)
Step-Waits sent (subscribe s e) (idle, h) =
    ((refl, subst (λ p. IsIdle p (events_of s.rest)) e idle), h)
Step-Waits sent (send s ev inbox e) (idle, h) =
    let w : IsIdle (listening (ev ∷ inbox)) (events_of s.rest) =
      subst (λ p. IsIdle p (events_of s.rest)) e idle in
    cc (w.0)

Reach-Waits :
    {tenant : ℕ} {s t : State} {n : ℕ} (sent : List Frame)
    → Reach tenant s n t
    → Waits sent s
    → Waits sent t
Reach-Waits sent here h = h
Reach-Waits sent (next r st) h = Step-Waits sent st (Reach-Waits sent r h)

Waits-open : (sent : List Frame) (s : State) → Waits sent s → (s.phase ≢ closed) × (s.sent ≡ sent)
unfolding Waits
Waits-open sent s (idle, h) = (λ e. subst (λ p. IsIdle p (events_of s.rest)) e idle, h)

-- The worker runs to its end while a socket has read the row and has not subscribed.
abbrev IsUnheard : ℕ → State → List Frame → Type 0
IsUnheard tenant s sent =
    (n : ℕ) × (u : State) × Reach tenant s n u
    × (u.rest ≡ [])
    × (u.phase ≡ checked)
    × (u.sent ≡ sent)

run_acts :
    {tenant : ℕ} {s : State} {n : ℕ} (sent : List Frame) (acts : List Act) (t : State)
    → Reach tenant s n t
    → t.rest ≡ acts
    → t.phase ≡ checked
    → t.sent ≡ sent
    → IsUnheard tenant s sent
run_acts {n = n} sent [] t r e p h = (n, t, r, e, p, h)
run_acts sent (set row ∷ acts) t r e p h =
    run_acts sent acts (record t { row = some row; rest = acts }) (next r (store t row acts e)) refl
      p h
run_acts sent (publish ev ∷ acts) t r e p h =
    run_acts sent acts (record t { rest = acts; phase = delivered ev t.phase })
      (next r (emit t ev acts e)) refl (ap (delivered ev) p) h

on_row-open :
    (tenant : ℕ) (t : TaskRow) (sent : List Frame)
    → t.tenant_id ≡ tenant
    → (t.status ≡ TaskStatus.queued) ⊎ (t.status ≡ TaskStatus.running)
    → on_row tenant (some t) sent ≡ (checked, sent)
unfolding on_row
on_row-open tenant t sent own open_status = ground arith

subscribed-Waits :
    (u : State) (sent : List Frame)
    → u.rest ≡ []
    → u.sent ≡ sent
    → Waits sent (record u { phase = listening [] })
unfolding Waits
subscribed-Waits u sent ended kept = ((refl, ap events_of ended), kept)

-- Whatever a worker still does, a socket that reads a queued or running row of its tenant may
-- subscribe when the worker has ended: that interleaving is possible, and from then on no
-- interleaving sends anything or closes the socket.
pub late_socket_waits :
    (tenant : ℕ) (s : State) (t : TaskRow)
    → s.phase ≡ accepted
    → s.row ≡ some t
    → t.tenant_id ≡ tenant
    → (t.status ≡ TaskStatus.queued) ⊎ (t.status ≡ TaskStatus.running)
    → (n : ℕ) × (u : State) × Reach tenant s n u
      × (u.rest ≡ [])
      × ((m : ℕ) (v : State) → Reach tenant u m v → (v.phase ≢ closed) × (v.sent ≡ s.sent))
late_socket_waits tenant s t waiting held own open_status =
    let found : on_row tenant s.row s.sent ≡ (checked, s.sent) =
      ap (λ row. on_row tenant row s.sent) held ∙ on_row-open tenant t s.sent own open_status in
    let (n, u, r, ended, still, kept) =
      run_acts s.sent s.rest _ (next here (read s waiting)) refl (ap (λ q. q.0) found)
        (ap (λ q. q.1) found) in
    (
      suc n,
      record u { phase = listening [] },
      next r (subscribe u still),
      ended,
      λ m v after.
          Waits-open s.sent v (Reach-Waits s.sent after (subscribed-Waits u s.sent ended kept)),
    )
