-- ===== src/Queue/Examples.antt =====
-- Concrete inputs for the theorems on include/alpaka/core/CallbackThread.hpp.
use alpaka.Base.{◌*◌, ◌≡◌, ◌⊎◌, refl, true, List, [], ◌∷◌, ◌++◌, length}
use alpaka.Queue.{
  Task, System, initial, submit, start_worker, work, take_task, run, pop_task, enqueue_event,
  is_ready, is_empty, Reachable, at_start, by_submit, by_event, by_work,
}
use alpaka.Queue.Order.{IsOrdered, Reachable-IsOrdered, is_empty-log}
use alpaka.Queue.Ready.{HasLogged, is_ready-log}
use alpaka.Queue.Progress.{works, works-log}

-- A task and an event are submitted.
abbrev two_submitted : System
two_submitted = enqueue_event (submit (Task.user 7) initial)

abbrev two_tasks : List Task
two_tasks = [] ++ (Task.user 7 ∷ []) ++ (Task.reset_event 1 ∷ [])

abbrev two_reached : Reachable two_tasks two_submitted
unfolding submit
two_reached = by_event (by_submit 7 at_start)

-- The worker has run both.
abbrev both_run : System
both_run = work (work (work (work (work (work (work (work two_submitted)))))))

abbrev both_reached : Reachable two_tasks both_run
both_reached =
    by_work (by_work (by_work (by_work (by_work (by_work (by_work (by_work two_reached)))))))

Reachable-IsOrdered_example : IsOrdered two_tasks both_run
Reachable-IsOrdered_example = Reachable-IsOrdered two_tasks both_run both_reached

is_empty-log_example : both_run.log ≡ two_tasks
unfolding work take_task run pop_task submit enqueue_event start_worker is_empty
is_empty-log_example = is_empty-log two_tasks both_run both_reached refl

is_ready-log_example :
    (both_run.event.m_enqueue_count ≡ 0)
    ⊎ HasLogged (Task.reset_event both_run.event.m_enqueue_count) both_run.log
unfolding work take_task run pop_task submit enqueue_event start_worker is_ready
is_ready-log_example = is_ready-log two_tasks both_run both_reached refl

works-log_example :
    ((works (length two_submitted.m_tasks * 4) two_submitted).log ≡ two_tasks)
    × (is_empty (works (length two_submitted.m_tasks * 4) two_submitted) ≡ true)
unfolding submit enqueue_event start_worker
works-log_example = works-log two_tasks two_submitted two_reached refl
