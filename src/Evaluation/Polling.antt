-- ===== src/Evaluation/Polling.antt =====
-- `_poll_task` of run_eval.py: a task is read every two seconds until it is settled or five minutes
-- are over. What the server answers, and the clock at each deadline test, are parameters.
use stock_analyst.Shared.{
  ℕ, zero, suc, ◌+◌, ◌*◌, ◌≤◌, ◌<◌, Text, Bool, true, false, Option, none, some, Raises, ok, raised,
  failure, Error, if◌then◌else◌, ltb, Bool-cases, Raises-cases, ltb→lt, ◌≡◌, refl, ◌∙◌, inl, inr,
  ◌⊎◌, arith,
}
use stock_analyst.Orchestrator.Tasks.{TaskStatus, queued, running, completed, failed, cancelled}

-- `result` of a task, as the endpoint shows it.
pub record Answer : Type 0 where
  pub content : Text
  pub llm_used : Option Text
  pub tokens_used : ℕ

pub record TaskView : Type 0 where
  pub status : TaskStatus
  pub result : Option Answer

-- `task["status"] in ("completed", "failed", "cancelled")`
abbrev pub is_settled : TaskStatus → Bool
is_settled completed = true
is_settled failed = true
is_settled cancelled = true
is_settled queued = false
is_settled running = false

-- The statuses of a task that is over, and those of a task that is not.
abbrev pub IsOver : TaskStatus → Type 0
IsOver st = (st ≡ completed) ⊎ ((st ≡ failed) ⊎ (st ≡ cancelled))

abbrev pub IsActive : TaskStatus → Type 0
IsActive st = (st ≡ queued) ⊎ (st ≡ running)

settled→IsOver : (st : TaskStatus) → is_settled st ≡ true → IsOver st
settled→IsOver completed h = inl refl
settled→IsOver failed h = inr (inl refl)
settled→IsOver cancelled h = inr (inr refl)
settled→IsOver queued h = cc
settled→IsOver running h = cc

busy→IsActive : (st : TaskStatus) → is_settled st ≡ false → IsActive st
busy→IsActive queued h = inl refl
busy→IsActive running h = inr refl
busy→IsActive completed h = cc
busy→IsActive failed h = cc
busy→IsActive cancelled h = cc

-- Milliseconds.
abbrev pub poll_interval : ℕ
poll_interval = 2000

abbrev pub poll_timeout : ℕ
poll_timeout = 300000

-- More reads than two-second pauses fit before the deadline is over.
abbrev pub poll_fuel : ℕ
poll_fuel = 152

module _ (reply : ℕ → Raises TaskView) (clock : ℕ → ℕ) (deadline : ℕ) where
  -- From the `i`-th read on; `none` is out of fuel.
  unfoldable pub poll_from : ℕ → ℕ → Option (Raises TaskView)
  poll_from zero i = none
  poll_from (suc fuel) i =
      let later = poll_from fuel (i + 1) in
      elim (reply i) [
        | raised e ↦ some (raised e)
        | ok task ↦
            if is_settled task.status
            then some (ok task)
            else if ltb deadline (clock i)
            then some (raised failure)
            else later
      ]

  -- A read after which the polling goes on.
  abbrev pub IsPending : ℕ → Type 0
  IsPending i =
      (task : TaskView) × (reply i ≡ ok task) × IsActive task.status × (clock i ≤ deadline)

  -- The read that decides, and how.
  abbrev pub IsDecided : ℕ → Raises TaskView → Type 0
  IsDecided i (ok task) = (reply i ≡ ok task) × IsOver task.status
  IsDecided i (raised e) =
      (reply i ≡ raised e)
      ⊎ ((task : TaskView) × (reply i ≡ ok task)
          × IsActive task.status
          × (deadline < clock i)
          × (e ≡ failure))

  -- The reads from the `i`-th on: so many pauses, and what decides.
  pub data Polled : ℕ → ℕ → Raises TaskView → Type 0 where
    decided : {i : ℕ} {r : Raises TaskView} → IsDecided i r → Polled i 0 r
    goes_on :
        {i n : ℕ} {r : Raises TaskView} → IsPending i → Polled (i + 1) n r → Polled i (suc n) r

  -- The polling from the `i`-th read ends, with at most `most` pauses.
  abbrev pub Ends : ℕ → ℕ → Option (Raises TaskView) → Type 0
  Ends most i o = (r : Raises TaskView) × (n : ℕ) × (o ≡ some r) × (n ≤ most) × Polled i n r

-- `_poll_task`, begun at `started`; the fuel lasts by `poll_task-Ends`.
unfoldable pub poll_task : (ℕ → Raises TaskView) → (ℕ → ℕ) → ℕ → Raises TaskView
poll_task reply clock started = elim (poll_from reply clock (started + poll_timeout) poll_fuel 0) [
  | some r ↦ r
  | none ↦ raised failure
]

module _ (reply : ℕ → Raises TaskView) (clock : ℕ → ℕ) (deadline : ℕ) where
  -- What one read comes to.
  poll_from-raised :
      (fuel i : ℕ) {e : Error}
      → reply i ≡ raised e
      → poll_from reply clock deadline (suc fuel) i ≡ some (raised e)
  unfolding poll_from
  poll_from-raised fuel i h = rw (poll_from, h) refl

  poll_from-settled :
      (fuel i : ℕ) {task : TaskView}
      → reply i ≡ ok task
      → is_settled task.status ≡ true
      → poll_from reply clock deadline (suc fuel) i ≡ some (ok task)
  unfolding poll_from
  poll_from-settled fuel i h done = rw (poll_from, h, done) refl

  poll_from-late :
      (fuel i : ℕ) {task : TaskView}
      → reply i ≡ ok task
      → is_settled task.status ≡ false
      → ltb deadline (clock i) ≡ true
      → poll_from reply clock deadline (suc fuel) i ≡ some (raised failure)
  unfolding poll_from
  poll_from-late fuel i h busy late = rw (poll_from, h, busy, late) refl

  poll_from-pending :
      (fuel i : ℕ) {task : TaskView}
      → reply i ≡ ok task
      → is_settled task.status ≡ false
      → ltb deadline (clock i) ≡ false
      → poll_from reply clock deadline (suc fuel) i ≡ poll_from reply clock deadline fuel (i + 1)
  unfolding poll_from
  poll_from-pending fuel i h busy early = rw (poll_from, h, busy, early) refl

  -- The polling ends with this read.
  Ends-now :
      (most i : ℕ) (r : Raises TaskView) {o : Option (Raises TaskView)}
      → IsDecided reply clock deadline i r
      → o ≡ some r
      → Ends reply clock deadline most i o
  Ends-now most i r d e = (r, 0, e, omega arith, decided d)

  Ends-later :
      (most i : ℕ) {o p : Option (Raises TaskView)}
      → IsPending reply clock deadline i
      → p ≡ o
      → Ends reply clock deadline most (i + 1) o
      → Ends reply clock deadline (suc most) i p
  Ends-later most i pending same (r, n, e, bound, polled) =
      (r, suc n, same ∙ e, omega (arith, bound), goes_on pending polled)

  early→le : (i : ℕ) → ltb deadline (clock i) ≡ false → clock i ≤ deadline
  early→le i h = ground arith

  -- A read that is not the last leaves the polling to the next one.
  poll_from-step :
      (most i : ℕ)
      → (IsPending reply clock deadline i
          → poll_from reply clock deadline (suc most) i
            ≡ poll_from reply clock deadline most (i + 1)
          → Ends reply clock deadline most i (poll_from reply clock deadline (suc most) i))
      → Ends reply clock deadline most i (poll_from reply clock deadline (suc most) i)
  poll_from-step most i later = elim (Raises-cases (reply i)) [
    | inl (e, h) ↦ Ends-now most i (raised e) (inl h) (poll_from-raised most i h)
    | inr (task, h) ↦ elim (Bool-cases (is_settled task.status)) [
      | inl done ↦
          Ends-now most i (ok task) (h, settled→IsOver task.status done)
            (poll_from-settled most i h done)
      | inr busy ↦ elim (Bool-cases (ltb deadline (clock i))) [
        | inl over ↦
            Ends-now most i (raised failure)
              (inr (task, h, busy→IsActive task.status busy, ltb→lt deadline (clock i) over, refl))
              (poll_from-late most i h busy over)
        | inr early ↦
            later (task, h, busy→IsActive task.status busy, early→le i early)
              (poll_from-pending most i h busy early)
      ]
    ]
  ]

  poll_from-Ends :
      ((i : ℕ) → clock i + poll_interval ≤ clock (i + 1))
      → (most i : ℕ) → deadline < clock i + poll_interval * most
      → Ends reply clock deadline most i (poll_from reply clock deadline (suc most) i)
  poll_from-Ends ticks zero i late =
      poll_from-step zero i (λ (_, _, _, early) same. absurd (omega (arith, early, late)))
  poll_from-Ends ticks (suc most) i late = poll_from-step (suc most) i (λ pending same.
      Ends-later most i pending same
        (poll_from-Ends ticks most (i + 1) (omega (arith, ticks i, late))))

-- What a task's server answers, and a clock that moves by two seconds from one read to the next: the
-- polling ends after at most 151 pauses. Before the last read every task read is neither completed,
-- failed nor cancelled, and not late; the last raises, and so does the polling, or it is settled and
-- returned, or it is not settled and late, which raises.
pub poll_task-Ends :
    (reply : ℕ → Raises TaskView) (clock : ℕ → ℕ) (started : ℕ)
    → started ≤ clock 0
    → ((i : ℕ) → clock i + poll_interval ≤ clock (i + 1))
    → (n : ℕ) × (n ≤ 151)
      × Polled reply clock (started + poll_timeout) 0 n (poll_task reply clock started)
unfolding poll_task
poll_task-Ends reply clock started begun ticks =
    let (r, n, e, bound, polled) =
      poll_from-Ends reply clock (started + poll_timeout) ticks 151 0 (omega (arith, begun)) in
    (n, bound, rw (poll_task, e) polled)
