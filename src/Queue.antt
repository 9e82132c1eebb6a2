-- ===== src/Queue.antt =====
-- include/alpaka/core/CallbackThread.hpp, and the parts of include/alpaka/api/host/Queue.hpp and
-- include/alpaka/api/host/Event.hpp that use it: a non-blocking host queue with its worker thread and an
-- event. A step is what happens under one lock of the queue's mutex, or between two such locks.
pub mod Order
pub mod Ready
pub mod Progress
mod Examples
use alpaka.Base.{
  ℕ, zero, suc, ◌+◌, max, Bool, true, false, List, [], ◌∷◌, ◌++◌, ◌==◌, if◌then◌else◌,
}

-- A task of the user, known by a number, or the task that `Enqueue::Event` submits.
pub data Task : Type 0 where
  user reset_event : ℕ → Task

-- A task with its promise: the promise is known by the number of the submission.
abbrev pub Package : Type 0
Package = Task × ℕ

-- Where the worker thread stands: before `startWorkerThread`, at the condition variable, with the task
-- moved out of the queue, after `run`, after `pop`, and after the loop.
pub data Worker : Type 0 where
  not_started waiting exited : Worker
  running : Package → Worker
  ran popped : ℕ → Worker

pub record Event : Type 0 where
  pub m_enqueue_count : ℕ
  pub m_last_ready_enqueue_count : ℕ
  pub m_future : ℕ

-- `log` is what the tasks' runs have done, in order; `fulfilled` the promises that have their result.
pub record System : Type 0 where
  pub m_tasks : List Package
  pub worker : Worker
  pub stop_requested : Bool
  pub submissions : ℕ
  pub fulfilled : List ℕ
  pub log : List Task
  pub event : Event

abbrev pub initial : System
initial = record {
  m_tasks = [];
  worker = Worker.not_started;
  stop_requested = false;
  submissions = 0;
  fulfilled = [];
  log = [];
  event = record { m_enqueue_count = 0; m_last_ready_enqueue_count = 0; m_future = 0 };
}

-- `if(!m_thread.joinable()) startWorkerThread()`
unfoldable pub start_worker : Worker → Worker
start_worker Worker.not_started = Worker.waiting
start_worker Worker.waiting = Worker.waiting
start_worker Worker.exited = Worker.exited
start_worker (Worker.running p) = Worker.running p
start_worker (Worker.ran k) = Worker.ran k
start_worker (Worker.popped k) = Worker.popped k

unfoldable pub submit : Task → System → System
unfolding start_worker
submit t s = record s {
  m_tasks = s.m_tasks ++ ((t, s.submissions) ∷ []);
  worker = start_worker s.worker;
  submissions = suc s.submissions;
}

unfoldable pub is_empty : System → Bool
is_empty s = elim (s.m_tasks) [ [] ↦ true | p ∷ ps ↦ false ]

-- The destructor's first block.
unfoldable pub request_stop : System → System
request_stop s = record s { stop_requested = true }

-- The `run` of a task: that of an event sets the event ready, unless it has been enqueued again.
unfoldable pub run : Task → Event → Event
run (Task.user n) e = e
run (Task.reset_event enqueue_count) e =
    if enqueue_count == e.m_enqueue_count
    then record e { m_last_ready_enqueue_count = max enqueue_count e.m_last_ready_enqueue_count }
    else e

-- The wait on the condition variable, under the lock.
unfoldable pub take_task : Bool → List Package → Worker
take_task stop (p ∷ ps) = Worker.running p
take_task true [] = Worker.exited
take_task false [] = Worker.waiting

unfoldable pub pop_task : List Package → List Package
pop_task [] = []
pop_task (p ∷ ps) = ps

-- One step of the loop in `startWorkerThread`; a thread that waits or is done does not change anything.
unfoldable pub work : System → System
unfolding take_task run pop_task
work s = elim (s.worker) [
  | Worker.not_started ↦ s
  | Worker.exited ↦ s
  | Worker.waiting ↦ record s { worker = take_task s.stop_requested s.m_tasks }
  | Worker.running (t, k) ↦ record s {
    worker = Worker.ran k;
    log = s.log ++ (t ∷ []);
    event = run t s.event;
  }
  | Worker.ran k ↦ record s { worker = Worker.popped k; m_tasks = pop_task s.m_tasks }
  | Worker.popped k ↦ record s { worker = Worker.waiting; fulfilled = k ∷ s.fulfilled }
]

-- `Enqueue::Event` on a queue that is not blocking.
unfoldable pub enqueue_event : System → System
unfolding submit
enqueue_event s =
    let enqueue_count = s.event.m_enqueue_count + 1 in
    submit (Task.reset_event enqueue_count) (record s {
      event = record {
        m_enqueue_count = enqueue_count;
        m_last_ready_enqueue_count = s.event.m_last_ready_enqueue_count;
        m_future = s.submissions;
      };
    })

unfoldable pub is_ready : Event → Bool
is_ready e = e.m_last_ready_enqueue_count == e.m_enqueue_count

-- The steps of the system: the list is that of the tasks submitted so far.
pub data Reachable : List Task → System → Type 0 where
  at_start : Reachable [] initial
  by_submit :
      {ts : List Task} {s : System}
      → (n : ℕ) → Reachable ts s
      → Reachable (ts ++ (Task.user n ∷ [])) (submit (Task.user n) s)
  by_event :
      {ts : List Task} {s : System}
      → Reachable ts s
      → Reachable (ts ++ (Task.reset_event (s.event.m_enqueue_count + 1) ∷ [])) (enqueue_event s)
  by_work : {ts : List Task} {s : System} → Reachable ts s → Reachable ts (work s)
  by_stop : {ts : List Task} {s : System} → Reachable ts s → Reachable ts (request_stop s)
