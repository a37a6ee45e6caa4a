-- ===== src/Tasks/Examples.antt =====
-- A task comes while the thread waits for the signal, and another one after it.
use baiak_fonticak.Base.{◌<◌, ◌≡◌, refl, ap, true, false, [], ◌∷◌, arith, is_empty}
use baiak_fonticak.Tasks.{Task, game_call, create_task, create_expiring_task, has_expired}
use baiak_fonticak.Tasks.{is_running, is_terminated, waiting, start, adding, entering, step}
use baiak_fonticak.Tasks.{add_task, enter}
use baiak_fonticak.Tasks.Runs.{Run, first_run, after, IsReached, started, next, given_after}
use baiak_fonticak.Tasks.Runs.{handled_after}
use baiak_fonticak.Tasks.Orders.{IsOrdered}
use baiak_fonticak.Tasks.History.{IsReached-IsOrdered}
use baiak_fonticak.Tasks.Waking.{is_waiting, IsReached-pending}
use baiak_fonticak.Tasks.Serving.{is_game}
use baiak_fonticak.Tasks.Liveness.{IsReached-IsServed}
use baiak_fonticak.Tasks.Places.{IsServed}

abbrev waits : Run
waits = after entering first_run (record start { place = waiting })

abbrev one : Task
one = create_task (game_call 1)

abbrev two : Task
two = create_expiring_task 1000 50 (game_call 2)

abbrev one_in : Run
one_in = after (adding one) waits (add_task one waits.state)

abbrev both_in : Run
both_in = after (adding two) one_in (add_task two one_in.state)

both_in-IsReached : IsReached both_in
unfolding step enter start is_terminated
both_in-IsReached =
    next one_in (adding two) (add_task two one_in.state)
      (next waits (adding one) (add_task one waits.state)
        (next first_run entering (record start { place = waiting }) started refl) refl)
      refl

IsReached-IsOrdered_example : IsOrdered both_in.state (one ∷ two ∷ []) []
unfolding given_after handled_after is_running add_task start
IsReached-IsOrdered_example = IsReached-IsOrdered both_in both_in-IsReached

IsReached-pending_example : 0 < 1
unfolding add_task is_running start
IsReached-pending_example =
    IsReached-pending both_in both_in-IsReached refl
      (λ e. let n : false ≡ true = ap is_empty e in ground (arith, n))

IsReached-IsServed_example : (t : Run) × IsServed 1050 (one ∷ two ∷ []) both_in t
unfolding is_waiting is_terminated is_game add_task is_running start
IsReached-IsServed_example =
    IsReached-IsServed 1050 both_in both_in-IsReached refl refl
      (λ e. let n : true ≡ false = ap is_waiting e in ground (arith, n))

-- After 1050 the second task is too late.
too_late : has_expired 1051 two ≡ true
unfolding has_expired create_expiring_task
too_late = refl
