-- ===== src/Queue/Ready.antt =====
-- Event.hpp and Queue.hpp, Enqueue::Event: an event is ready only after the run of its last task.
use mathlib.Core.List.{append_assoc}
use alpaka.Base.{
  ◌≤◌, ◌≡◌, refl, subst, ap, ◌∙◌, ◌⊎◌, inl, inr, arith, true, List, [], ◌∷◌, ◌++◌, ◌==◌, ==_iff,
  Bool-cases,
}
use alpaka.Queue.{
  Task, Worker, Event, System, submit, request_stop, run, work, enqueue_event, is_ready, Reachable,
  at_start, by_submit, by_event, by_work, by_stop,
}

-- The task stands in the log.
abbrev pub HasLogged : Task → List Task → Type 0
HasLogged t log = (before : List Task) × (after : List Task) × (log ≡ before ++ (t ∷ after))

HasLogged-append : (t : Task) (log more : List Task) → HasLogged t log → HasLogged t (log ++ more)
HasLogged-append t log more h =
    let (before, after, place) = h in
    (before, after ++ more, ap (λ l. l ++ more) place ∙ append_assoc before (t ∷ after) more)

pub record IsTracked (log : List Task) (e : Event) : Type 0 where
  pub bounded : e.m_last_ready_enqueue_count ≤ e.m_enqueue_count
  pub logged :
      (e.m_last_ready_enqueue_count ≡ 0)
      ⊎ HasLogged (Task.reset_event e.m_last_ready_enqueue_count) log

IsTracked-append : (log more : List Task) (e : Event) → IsTracked log e → IsTracked (log ++ more) e
IsTracked-append log more e h = record {
  bounded = h.bounded;
  logged = elim (h.logged) [
    | inl z ↦ inl z
    | inr l ↦ inr (HasLogged-append (Task.reset_event e.m_last_ready_enqueue_count) log more l)
  ];
}

run-IsTracked :
    (t : Task) (log : List Task) (e : Event)
    → IsTracked log e
    → IsTracked (log ++ (t ∷ [])) (run t e)
unfolding run
run-IsTracked (Task.user n) log e h = IsTracked-append log (Task.user n ∷ []) e h
run-IsTracked (Task.reset_event c) log e h = elim (Bool-cases (c == e.m_enqueue_count)) [
  | inl last ↦ rw last (record {
    bounded = omega (arith, (==_iff c e.m_enqueue_count).0 last, h.bounded);
    logged = inr (
      log,
      [],
      ap (λ k. log ++ (Task.reset_event k ∷ []))
          (omega (arith, (==_iff c e.m_enqueue_count).0 last, h.bounded)),
    );
  })
  | inr old ↦ rw old (IsTracked-append log (Task.reset_event c ∷ []) e h)
]

work-IsTracked :
    (s : System) (w : Worker)
    → s.worker ≡ w
    → IsTracked s.log s.event
    → IsTracked (work s).log (work s).event
unfolding work
work-IsTracked s Worker.not_started p h = rw (p, work) h
work-IsTracked s Worker.waiting p h = rw (p, work) h
work-IsTracked s Worker.exited p h = rw (p, work) h
work-IsTracked s (Worker.running q) p h = rw (p, work) (run-IsTracked q.0 s.log s.event h)
work-IsTracked s (Worker.ran k) p h = rw (p, work) h
work-IsTracked s (Worker.popped k) p h = rw (p, work) h

Reachable-IsTracked : (ts : List Task) (s : System) → Reachable ts s → IsTracked s.log s.event
unfolding submit enqueue_event request_stop
Reachable-IsTracked _ _ at_start = record { bounded = omega arith; logged = inl refl }
Reachable-IsTracked _ _ (by_submit {ts} {s} n r) = Reachable-IsTracked ts s r
Reachable-IsTracked _ _ (by_event {ts} {s} r) =
    let h = Reachable-IsTracked ts s r in
    record { bounded = omega (arith, h.bounded); logged = h.logged }
Reachable-IsTracked _ _ (by_work {ts} {s} r) =
    work-IsTracked s s.worker refl (Reachable-IsTracked ts s r)
Reachable-IsTracked _ _ (by_stop {ts} {s} r) = Reachable-IsTracked ts s r

-- In every state that the steps reach: an event that is ready was never enqueued, or the task of its
-- last enqueueing has run.
pub is_ready-log :
    (ts : List Task) (s : System)
    → Reachable ts s
    → is_ready s.event ≡ true
    → (s.event.m_enqueue_count ≡ 0) ⊎ HasLogged (Task.reset_event s.event.m_enqueue_count) s.log
unfolding is_ready
is_ready-log ts s r e =
    subst (λ k. (k ≡ 0) ⊎ HasLogged (Task.reset_event k) s.log)
      ((==_iff s.event.m_last_ready_enqueue_count s.event.m_enqueue_count).0 e)
      (Reachable-IsTracked ts s r).logged
