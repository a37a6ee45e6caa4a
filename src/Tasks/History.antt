-- ===== src/Tasks/History.antt =====
-- Whole runs of the dispatcher (src/tasks.cpp): no step of any thread upsets the order.
use baiak_fonticak.Base.{ℕ, zero, suc, ◌≡◌, refl, sym, ap, subst, ◌∙◌, Bool, ◌||◌, some}
use baiak_fonticak.Base.{List, [], ◌∷◌, ◌++◌, arith, is_empty, if◌then◌else◌}
use mathlib.Core.Option.{none-ne-some, some-injective}
use baiak_fonticak.Tasks.{Task, terminate, create_task, is_running, is_terminated, Place}
use baiak_fonticak.Tasks.{looping, waiting, woken, performing, finished, Dispatcher, start}
use baiak_fonticak.Tasks.{Action, adding, notifying, stopping, shutting_down, waking}
use baiak_fonticak.Tasks.{entering, proceeding, performing_at, finishing, step, add_task}
use baiak_fonticak.Tasks.{notify, stop, shutdown, enter, wake, proceed}
use baiak_fonticak.Tasks.Runs.{Run, given_after, handled_after, IsReached, started, next}
use baiak_fonticak.Tasks.Runs.{executed, tasks_of}
use baiak_fonticak.Tasks.Orders.{IsOrdered, is_performing, push_order, push_if}
use baiak_fonticak.Tasks.Orders.{notify_one-IsOrdered, swap-IsOrdered, entered}
use baiak_fonticak.Tasks.Orders.{perform-IsOrdered, finish-IsOrdered}

notify-IsOrdered :
    (n : ℕ) (d s : Dispatcher) (given : List Task) (handled : List (Task × Bool))
    → IsOrdered d given handled
    → notify n d ≡ some s
    → IsOrdered s given handled
unfolding notify
notify-IsOrdered zero d s given handled h done = absurd (none-ne-some s done)
notify-IsOrdered (suc n) d s given handled h done =
    subst (λ u. IsOrdered u given handled) (some-injective _ _ done)
      (notify_one-IsOrdered (record d { pending = n }) given handled
        record { order = h.order; idle = h.idle; cycle = h.cycle })

shutdown-IsOrdered :
    (d : Dispatcher) (given : List Task) (handled : List (Task × Bool))
    → IsOrdered d given handled
    → IsOrdered (shutdown d) (given ++ create_task terminate ∷ []) handled
unfolding shutdown
shutdown-IsOrdered d given handled h =
    let last = create_task terminate in
    notify_one-IsOrdered (record d { task_list = d.task_list ++ last ∷ [] }) (given ++ last ∷ [])
      handled
      record {
        order = push_order given (tasks_of handled) d.batch d.task_list last h.order;
        idle = h.idle;
        cycle = h.cycle;
      }

enter-IsOrdered :
    (p : Place) (d s : Dispatcher) (given : List Task) (handled : List (Task × Bool))
    → p ≡ d.place
    → IsOrdered d given handled
    → enter p d ≡ some s
    → IsOrdered s given handled
unfolding enter is_performing
enter-IsOrdered looping d s given handled here h done =
    subst (λ u. IsOrdered u given handled) (some-injective _ _ done)
      (entered (is_terminated d.thread_state) (is_empty d.task_list) d given handled
        (ap is_performing (sym here)) h)
enter-IsOrdered waiting d s given handled here h done = absurd (none-ne-some s done)
enter-IsOrdered woken d s given handled here h done = absurd (none-ne-some s done)
enter-IsOrdered performing d s given handled here h done = absurd (none-ne-some s done)
enter-IsOrdered finished d s given handled here h done = absurd (none-ne-some s done)

wake-IsOrdered :
    (p : Place) (d s : Dispatcher) (given : List Task) (handled : List (Task × Bool))
    → p ≡ d.place
    → IsOrdered d given handled
    → wake p d ≡ some s
    → IsOrdered s given handled
unfolding wake is_performing
wake-IsOrdered waiting d s given handled here h done =
    subst (λ u. IsOrdered u given handled) (some-injective _ _ done)
      record {
        order = h.order;
        idle = ap (λ q. is_performing q || is_empty d.batch) here ∙ h.idle;
        cycle = h.cycle;
      }
wake-IsOrdered looping d s given handled here h done = absurd (none-ne-some s done)
wake-IsOrdered woken d s given handled here h done = absurd (none-ne-some s done)
wake-IsOrdered performing d s given handled here h done = absurd (none-ne-some s done)
wake-IsOrdered finished d s given handled here h done = absurd (none-ne-some s done)

proceed-IsOrdered :
    (p : Place) (d s : Dispatcher) (given : List Task) (handled : List (Task × Bool))
    → p ≡ d.place
    → IsOrdered d given handled
    → proceed p d ≡ some s
    → IsOrdered s given handled
unfolding proceed is_performing
proceed-IsOrdered woken d s given handled here h done =
    subst (λ u. IsOrdered u given handled) (some-injective _ _ done)
      (swap-IsOrdered d given handled (ap is_performing (sym here)) h)
proceed-IsOrdered looping d s given handled here h done = absurd (none-ne-some s done)
proceed-IsOrdered waiting d s given handled here h done = absurd (none-ne-some s done)
proceed-IsOrdered performing d s given handled here h done = absurd (none-ne-some s done)
proceed-IsOrdered finished d s given handled here h done = absurd (none-ne-some s done)

step-IsOrdered :
    (a : Action) (d s : Dispatcher) (given : List Task) (handled : List (Task × Bool))
    → IsOrdered d given handled
    → step a d ≡ some s
    → IsOrdered s (given_after a d given) (handled_after a d handled)
unfolding step given_after handled_after add_task stop
step-IsOrdered (adding t) d s given handled h done =
    subst (λ u. IsOrdered u (given_after (adding t) d given) handled) (some-injective _ _ done)
      (push_if (is_running d.thread_state)
        (if is_empty d.task_list then suc d.pending else d.pending) t d given handled h)
step-IsOrdered notifying d s given handled h done =
    notify-IsOrdered d.pending d s given handled h done
step-IsOrdered stopping d s given handled h done =
    subst (λ u. IsOrdered u given handled) (some-injective _ _ done)
      record { order = h.order; idle = h.idle; cycle = h.cycle }
step-IsOrdered shutting_down d s given handled h done =
    subst (λ u. IsOrdered u (given ++ create_task terminate ∷ []) handled) (some-injective _ _ done)
      (shutdown-IsOrdered d given handled h)
step-IsOrdered waking d s given handled h done =
    wake-IsOrdered d.place d s given handled refl h done
step-IsOrdered entering d s given handled h done =
    enter-IsOrdered d.place d s given handled refl h done
step-IsOrdered proceeding d s given handled h done =
    proceed-IsOrdered d.place d s given handled refl h done
step-IsOrdered (performing_at now) d s given handled h done =
    perform-IsOrdered now d.place d.batch d s given handled refl refl h done
step-IsOrdered finishing d s given handled h done =
    finish-IsOrdered d.place d.batch d s given handled refl h done

-- In every run of the dispatcher, whatever the threads do and in whatever order: the tasks that
-- were put into the list are, in this order, those that were dealt with, those left in the batch
-- and those in the list; the batch is empty but in its loop; and dispatcherCycle counts the
-- tasks that were executed, modulo 2^64.
pub IsReached-IsOrdered : (r : Run) → IsReached r → IsOrdered r.state r.given r.handled
unfolding start is_performing executed tasks_of
IsReached-IsOrdered _ started = record { order = refl; idle = refl; cycle = omega arith }
IsReached-IsOrdered _ (next r a s before done) =
    step-IsOrdered a r.state s r.given r.handled (IsReached-IsOrdered r before) done
