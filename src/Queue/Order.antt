-- ===== src/Queue/Order.antt =====
-- CallbackThread.hpp: tasks run once and in the order of their submission, and a promise gets its result
-- after the run of its task.
use mathlib.Core.List.{append_assoc, append-nil}
use alpaka.Base.{
  ℕ, zero, suc, ◌+◌, ◌<◌, ◌≤◌, ◌≡◌, refl, sym, ap, ap₂, ◌∙◌, arith, Bool, true, false, List, [],
  ◌∷◌, ◌++◌, map, length, length-append,
}
use alpaka.ThreadSpace.{iota_from}
use alpaka.Queue.{
  Task, Package, Worker, Event, System, start_worker, submit, request_stop, take_task, pop_task,
  work, enqueue_event, is_empty, Reachable, at_start, by_submit, by_event, by_work, by_stop,
}

-- The packages whose tasks have not run.
unfoldable pub pending : Worker → List Package → List Package
unfolding pop_task
pending Worker.not_started ps = ps
pending Worker.waiting ps = ps
pending Worker.exited ps = ps
pending (Worker.running p) ps = p ∷ pop_task ps
pending (Worker.ran k) ps = pop_task ps
pending (Worker.popped k) ps = ps

-- While a task runs its package still stands in the queue.
abbrev pub Occupied : Worker → List Package → Type 0
Occupied (Worker.running p) ps = 0 < length ps
Occupied (Worker.ran k) ps = 0 < length ps
Occupied Worker.not_started ps = Unit {0}
Occupied Worker.waiting ps = Unit {0}
Occupied Worker.exited ps = Unit {0}
Occupied (Worker.popped k) ps = Unit {0}

-- The promise in hand belongs to a task that has run.
abbrev pub HasRun : Worker → ℕ → Type 0
HasRun (Worker.ran k) n = k < n
HasRun (Worker.popped k) n = k < n
HasRun Worker.not_started n = Unit {0}
HasRun Worker.waiting n = Unit {0}
HasRun Worker.exited n = Unit {0}
HasRun (Worker.running p) n = Unit {0}

abbrev pub AllBelow : List ℕ → ℕ → Type 0
AllBelow [] n = Unit {0}
AllBelow (k ∷ ks) n = (k < n) × AllBelow ks n

pub record IsOrdered (submitted : List Task) (s : System) : Type 0 where
  pub tasks : s.log ++ map (λ p. p.0) (pending s.worker s.m_tasks) ≡ submitted
  pub promises :
      map (λ p. p.1) (pending s.worker s.m_tasks)
      ≡ iota_from (length s.log) (length (pending s.worker s.m_tasks))
  pub count : length s.log + length (pending s.worker s.m_tasks) ≡ s.submissions
  pub occupied : Occupied s.worker s.m_tasks
  pub in_hand : HasRun s.worker (length s.log)
  pub done : AllBelow s.fulfilled (length s.log)

pending-submit :
    (w : Worker) (ps : List Package) (p : Package)
    → Occupied w ps
    → pending (start_worker w) (ps ++ (p ∷ [])) ≡ pending w ps ++ (p ∷ [])
unfolding pending start_worker pop_task
pending-submit Worker.not_started ps p h = refl
pending-submit Worker.waiting ps p h = refl
pending-submit Worker.exited ps p h = refl
pending-submit (Worker.running q) [] p h = absurd (omega arith)
pending-submit (Worker.running q) (r ∷ ps) p h = refl
pending-submit (Worker.ran k) [] p h = absurd (omega arith)
pending-submit (Worker.ran k) (r ∷ ps) p h = refl
pending-submit (Worker.popped k) ps p h = refl

Occupied-submit :
    (w : Worker) (ps : List Package) (p : Package)
    → Occupied w ps
    → Occupied (start_worker w) (ps ++ (p ∷ []))
unfolding start_worker
Occupied-submit Worker.not_started ps p h = tt
Occupied-submit Worker.waiting ps p h = tt
Occupied-submit Worker.exited ps p h = tt
Occupied-submit (Worker.running q) ps p h = omega (arith, length-append ps (p ∷ []))
Occupied-submit (Worker.ran k) ps p h = omega (arith, length-append ps (p ∷ []))
Occupied-submit (Worker.popped k) ps p h = tt

HasRun-submit : (w : Worker) (n : ℕ) → HasRun w n → HasRun (start_worker w) n
unfolding start_worker
HasRun-submit Worker.not_started n h = tt
HasRun-submit Worker.waiting n h = tt
HasRun-submit Worker.exited n h = tt
HasRun-submit (Worker.running q) n h = tt
HasRun-submit (Worker.ran k) n h = h
HasRun-submit (Worker.popped k) n h = h

map-snd-append :
    (ps : List Package) (p : Package)
    → map (λ q. q.1) (ps ++ (p ∷ [])) ≡ map (λ q. q.1) ps ++ (p.1 ∷ [])
map-snd-append [] p = refl
map-snd-append (q ∷ ps) p = ap (◌∷◌ q.1) (map-snd-append ps p)

map-fst-append :
    (ps : List Package) (p : Package)
    → map (λ q. q.0) (ps ++ (p ∷ [])) ≡ map (λ q. q.0) ps ++ (p.0 ∷ [])
map-fst-append [] p = refl
map-fst-append (q ∷ ps) p = ap (◌∷◌ q.0) (map-fst-append ps p)

iota_from-snoc : (s n : ℕ) → iota_from s n ++ ((s + n) ∷ []) ≡ iota_from s (n + 1)
unfolding iota_from
iota_from-snoc s zero = ap (λ k. k ∷ []) {x = s + 0} {y = s} (omega arith)
iota_from-snoc s (suc n) =
    ap (λ k. s ∷ (iota_from (s + 1) n ++ (k ∷ []))) {x = s + suc n} {y = s + 1 + n} (omega arith)
    ∙ ap (◌∷◌ s) (iota_from-snoc (s + 1) n)
    ∙ ap (iota_from s) {x = suc (n + 1)} {y = suc n + 1} (omega arith)

AllBelow-mono : (ks : List ℕ) (n m : ℕ) → n ≤ m → AllBelow ks n → AllBelow ks m
AllBelow-mono [] n m h a = tt
AllBelow-mono (k ∷ ks) n m h a = (omega (arith, a.0), AllBelow-mono ks n m h a.1)

submit-IsOrdered :
    (ts : List Task) (s : System) (t : Task)
    → IsOrdered ts s
    → IsOrdered (ts ++ (t ∷ [])) (submit t s)
unfolding submit
submit-IsOrdered ts s t h = record {
  tasks =
      ap (λ ps. s.log ++ map (λ p. p.0) ps) waiting
      ∙ ap (λ x. s.log ++ x) (map-fst-append (pending s.worker s.m_tasks) (t, s.submissions))
      ∙ sym (append_assoc s.log _ (t ∷ []))
      ∙ ap (λ x. x ++ (t ∷ [])) h.tasks;
  promises =
      ap (map (λ p. p.1)) waiting
      ∙ map-snd-append (pending s.worker s.m_tasks) (t, s.submissions)
      ∙ ap₂ (λ x k. x ++ (k ∷ [])) h.promises (sym h.count)
      ∙ iota_from-snoc (length s.log) (length (pending s.worker s.m_tasks))
      ∙ ap (iota_from (length s.log)) (sym longer);
  count = omega (arith, longer, h.count);
  occupied = Occupied-submit s.worker s.m_tasks (t, s.submissions) h.occupied;
  in_hand = HasRun-submit s.worker (length s.log) h.in_hand;
  done = h.done;
}
  where
    waiting :
        pending (start_worker s.worker) (s.m_tasks ++ ((t, s.submissions) ∷ []))
        ≡ pending s.worker s.m_tasks ++ ((t, s.submissions) ∷ [])
    waiting = pending-submit s.worker s.m_tasks (t, s.submissions) h.occupied

    longer :
        length (pending (start_worker s.worker) (s.m_tasks ++ ((t, s.submissions) ∷ [])))
        ≡ length (pending s.worker s.m_tasks) + 1
    longer = ap length waiting ∙ length-append (pending s.worker s.m_tasks) _

tail_of : List ℕ → List ℕ
tail_of [] = []
tail_of (x ∷ xs) = xs

head_of : List ℕ → ℕ
head_of [] = 0
head_of (x ∷ xs) = x

abbrev system : List Package → Worker → Bool → ℕ → List ℕ → List Task → Event → System
system ps w stop n ful log ev = record {
  m_tasks = ps;
  worker = w;
  stop_requested = stop;
  submissions = n;
  fulfilled = ful;
  log = log;
  event = ev;
}

work_case :
    (ts : List Task) (w : Worker) (ps : List Package) (stop : Bool) (n : ℕ) (ful : List ℕ)
    (log : List Task) (ev : Event)
    → IsOrdered ts (system ps w stop n ful log ev)
    → IsOrdered ts (work (system ps w stop n ful log ev))
unfolding work take_task pending pop_task iota_from tail_of head_of
work_case ts Worker.not_started ps stop n ful log ev h = h
work_case ts Worker.exited ps stop n ful log ev h = h
work_case ts Worker.waiting (p ∷ ps) stop n ful log ev h = record {
  tasks = h.tasks;
  promises = h.promises;
  count = h.count;
  occupied = omega arith;
  in_hand = tt;
  done = h.done;
}
work_case ts Worker.waiting [] true n ful log ev h = record {
  tasks = h.tasks;
  promises = h.promises;
  count = h.count;
  occupied = tt;
  in_hand = tt;
  done = h.done;
}
work_case ts Worker.waiting [] false n ful log ev h = h
work_case ts (Worker.running (t, k)) ps stop n ful log ev h = record {
  tasks = append_assoc log (t ∷ []) _ ∙ h.tasks;
  promises = ap tail_of h.promises ∙ ap (λ m. iota_from m (length (pop_task ps))) (sym longer);
  count = omega (arith, longer, h.count);
  occupied = h.occupied;
  in_hand = omega (arith, longer, number);
  done = AllBelow-mono ful (length log) (length (log ++ (t ∷ []))) (omega (arith, longer)) h.done;
}
  where
    longer : length (log ++ (t ∷ [])) ≡ length log + 1
    longer = length-append log (t ∷ [])

    number : k ≡ length log
    number = ap head_of h.promises
work_case ts (Worker.ran k) [] stop n ful log ev h = absurd (omega (arith, h.occupied))
work_case ts (Worker.ran k) (p ∷ ps) stop n ful log ev h = record {
  tasks = h.tasks;
  promises = h.promises;
  count = h.count;
  occupied = tt;
  in_hand = h.in_hand;
  done = h.done;
}
work_case ts (Worker.popped k) ps stop n ful log ev h = record {
  tasks = h.tasks;
  promises = h.promises;
  count = h.count;
  occupied = tt;
  in_hand = tt;
  done = (h.in_hand, h.done);
}

-- In every state that the steps reach, whatever their interleaving: the tasks that have run, followed by
-- those that wait, are the submitted tasks in the order of submission; the promises that have their
-- result, numbered from 0 in the order of submission, belong to tasks that have run.
pub Reachable-IsOrdered : (ts : List Task) (s : System) → Reachable ts s → IsOrdered ts s
unfolding enqueue_event request_stop pending iota_from
Reachable-IsOrdered _ _ at_start = record {
  tasks = refl;
  promises = refl;
  count = refl;
  occupied = tt;
  in_hand = tt;
  done = tt;
}
Reachable-IsOrdered _ _ (by_submit {ts} {s} n r) =
    submit-IsOrdered ts s (Task.user n) (Reachable-IsOrdered ts s r)
Reachable-IsOrdered _ _ (by_event {ts} {s} r) =
    let h = Reachable-IsOrdered ts s r in
    submit-IsOrdered ts _ (Task.reset_event (s.event.m_enqueue_count + 1)) (record {
      tasks = h.tasks;
      promises = h.promises;
      count = h.count;
      occupied = h.occupied;
      in_hand = h.in_hand;
      done = h.done;
    })
Reachable-IsOrdered _ _ (by_work {ts} {s} r) =
    work_case ts s.worker s.m_tasks s.stop_requested s.submissions s.fulfilled s.log s.event
      (Reachable-IsOrdered ts s r)
Reachable-IsOrdered _ _ (by_stop {ts} {s} r) =
    let h = Reachable-IsOrdered ts s r in
    record {
      tasks = h.tasks;
      promises = h.promises;
      count = h.count;
      occupied = h.occupied;
      in_hand = h.in_hand;
      done = h.done;
    }

no_pending :
    (w : Worker) (ps : List Package)
    → elim ps [ [] ↦ true | p ∷ qs ↦ false ] ≡ true
    → Occupied w ps
    → pending w ps ≡ []
unfolding pending pop_task
no_pending w (p ∷ ps) e o = absurd (ground (arith, e))
no_pending Worker.not_started [] e o = refl
no_pending Worker.waiting [] e o = refl
no_pending Worker.exited [] e o = refl
no_pending (Worker.running p) [] e o = absurd (omega arith)
no_pending (Worker.ran k) [] e o = refl
no_pending (Worker.popped k) [] e o = refl

-- If the queue reports that it is empty, all tasks that were submitted have run: `isEmpty` is true only
-- after the `pop` of the last task.
pub is_empty-log : (ts : List Task) (s : System) → Reachable ts s → is_empty s ≡ true → s.log ≡ ts
unfolding is_empty
is_empty-log ts s r e =
    sym (append-nil s.log) ∙ ap (λ ps. s.log ++ map (λ p. p.0) ps) (sym nothing) ∙ h.tasks
  where
    h : IsOrdered ts s
    h = Reachable-IsOrdered ts s r

    nothing : pending s.worker s.m_tasks ≡ []
    nothing = no_pending s.worker s.m_tasks e h.occupied
