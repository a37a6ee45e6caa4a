-- ===== src/Tasks/Runs.antt =====
-- Runs of the dispatcher (src/tasks.cpp) from its start, with the history of its tasks.
use baiak_fonticak.Base.{ℕ, suc, ◌+◌, ◌≡◌, refl, ap, Bool, true, false, not, some, List, []}
use baiak_fonticak.Base.{◌∷◌, ◌++◌, arith, if◌then◌else◌}
use baiak_fonticak.Tasks.{Task, terminate, create_task, has_expired, is_running, Dispatcher}
use baiak_fonticak.Tasks.{start, Action, adding, notifying, stopping, shutting_down, waking}
use baiak_fonticak.Tasks.{entering, proceeding, performing_at, finishing, step}

-- A dispatcher with the tasks that were put into its list, in order, and the tasks that its
-- thread has dealt with, in order, each with whether it was executed.
pub record Run : Type 0 where
  pub state : Dispatcher
  pub given : List Task
  pub handled : List (Task × Bool)

unfoldable pub given_after : Action → Dispatcher → List Task → List Task
given_after (adding t) d given = if is_running d.thread_state then given ++ t ∷ [] else given
given_after shutting_down d given = given ++ create_task terminate ∷ []
given_after notifying d given = given
given_after stopping d given = given
given_after waking d given = given
given_after entering d given = given
given_after proceeding d given = given
given_after (performing_at now) d given = given
given_after finishing d given = given

unfoldable pub deal : ℕ → List Task → List (Task × Bool) → List (Task × Bool)
deal now [] handled = handled
deal now (t ∷ rest) handled = handled ++ (t, not (has_expired now t)) ∷ []

unfoldable pub handled_after : Action → Dispatcher → List (Task × Bool) → List (Task × Bool)
handled_after (performing_at now) d handled = deal now d.batch handled
handled_after (adding t) d handled = handled
handled_after shutting_down d handled = handled
handled_after notifying d handled = handled
handled_after stopping d handled = handled
handled_after waking d handled = handled
handled_after entering d handled = handled
handled_after proceeding d handled = handled
handled_after finishing d handled = handled

abbrev pub first_run : Run
first_run = record { state = start; given = []; handled = [] }

abbrev pub after : Action → Run → Dispatcher → Run
after a r s = record {
  state = s;
  given = given_after a r.state r.given;
  handled = handled_after a r.state r.handled;
}

-- The runs that steps of any threads, in any order, make.
pub data IsReached : Run → Type 0 where
  started : IsReached first_run
  next :
      (r : Run) (a : Action) (s : Dispatcher)
      → IsReached r
      → step a r.state ≡ some s
      → IsReached (after a r s)

unfoldable pub executed : List (Task × Bool) → ℕ
executed [] = 0
executed (p ∷ handled) = if p.1 then suc (executed handled) else executed handled

unfoldable pub tasks_of : List (Task × Bool) → List Task
tasks_of [] = []
tasks_of (p ∷ handled) = p.0 ∷ tasks_of handled

pub tasks_of-append :
    (xs ys : List (Task × Bool)) → tasks_of (xs ++ ys) ≡ tasks_of xs ++ tasks_of ys
unfolding tasks_of
tasks_of-append [] ys = refl
tasks_of-append (x ∷ xs) ys = ap (λ ts. x.0 ∷ ts) (tasks_of-append xs ys)

pub executed-append : (xs ys : List (Task × Bool)) → executed (xs ++ ys) ≡ executed xs + executed ys
unfolding executed
executed-append [] ys = omega arith
executed-append ((t, true) ∷ xs) ys = omega (arith, executed-append xs ys)
executed-append ((t, false) ∷ xs) ys = executed-append xs ys
