-- ===== src/Queue/Progress.antt =====
-- CallbackThread.hpp: a worker that waits runs all tasks of its queue, four steps for each.
use mathlib.Core.List.{append_assoc, append-nil}
use alpaka.Base.{
  ℕ, zero, suc, ◌*◌, ◌≡◌, refl, sym, ap, ◌∙◌, arith, Bool, true, List, [], ◌∷◌, ◌++◌, map, length,
}
use alpaka.Queue.{
  Task, Package, Worker, Event, System, run, take_task, pop_task, work, is_empty, Reachable,
}
use alpaka.Queue.Order.{Reachable-IsOrdered, pending}

-- The steps of the worker alone.
unfoldable pub works : ℕ → System → System
unfolding work
works zero s = s
works (suc n) s = works n (work s)

abbrev waiting_with : List Package → Bool → ℕ → List ℕ → List Task → Event → System
waiting_with ps stop n ful log ev = record {
  m_tasks = ps;
  worker = Worker.waiting;
  stop_requested = stop;
  submissions = n;
  fulfilled = ful;
  log = log;
  event = ev;
}

drain :
    (ps : List Package) (stop : Bool) (n : ℕ) (ful : List ℕ) (log : List Task) (ev : Event)
    → ((works (length ps * 4) (waiting_with ps stop n ful log ev)).log ≡ log ++ map (λ p. p.0) ps)
      × (is_empty (works (length ps * 4) (waiting_with ps stop n ful log ev)) ≡ true)
unfolding works work take_task pop_task is_empty
drain [] stop n ful log ev = (sym (append-nil log), refl)
drain ((t, k) ∷ ps) stop n ful log ev =
    let rest = drain ps stop n (k ∷ ful) (log ++ (t ∷ [])) (run t ev) in
    (
      ap (λ m. (works m (waiting_with ((t, k) ∷ ps) stop n ful log ev)).log) steps
          ∙ rest.0
          ∙ append_assoc log (t ∷ []) (map (λ p. p.0) ps),
      ap (λ m. is_empty (works m (waiting_with ((t, k) ∷ ps) stop n ful log ev))) steps ∙ rest.1,
    )
  where
    steps : suc (length ps) * 4 ≡ suc (suc (suc (suc (length ps * 4))))
    steps = omega arith

-- From a state that the steps reach and in which the worker waits, four steps of the worker for each
-- task in the queue lead to a state in which the queue is empty and all submitted tasks have run, in
-- the order of submission.
pub works-log :
    (ts : List Task) (s : System)
    → Reachable ts s
    → s.worker ≡ Worker.waiting
    → ((works (length s.m_tasks * 4) s).log ≡ ts)
      × (is_empty (works (length s.m_tasks * 4) s) ≡ true)
unfolding pending
works-log ts s r w = (
  ap (λ t. (works (length s.m_tasks * 4) t).log) same
      ∙ all.0
      ∙ ap (λ v. s.log ++ map (λ p. p.0) (pending v s.m_tasks)) (sym w)
      ∙ (Reachable-IsOrdered ts s r).tasks,
  ap (λ t. is_empty (works (length s.m_tasks * 4) t)) same ∙ all.1,
)
  where
    same : s ≡ waiting_with s.m_tasks s.stop_requested s.submissions s.fulfilled s.log s.event
    same = ap (λ v. record s { worker = v }) w

    all :
        ((works
            (length s.m_tasks * 4)
            (waiting_with s.m_tasks s.stop_requested s.submissions s.fulfilled s.log s.event)).log
          ≡ s.log ++ map (λ p. p.0) s.m_tasks)
        × (is_empty (
              works
                (length s.m_tasks * 4)
                (waiting_with s.m_tasks s.stop_requested s.submissions s.fulfilled s.log s.event))
            ≡ true)
    all = drain s.m_tasks s.stop_requested s.submissions s.fulfilled s.log s.event
