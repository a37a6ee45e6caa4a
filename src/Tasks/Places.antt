-- ===== src/Tasks/Places.antt =====
-- What the thread of the dispatcher (src/tasks.cpp) does from each place outside the batch when
-- there are tasks in the list.
use baiak_fonticak.Base.{ℕ, zero, suc, ◌-◌, ◌<◌, ◌≡◌, refl, ap, ◌∙◌, Bool, true, false, some}
use baiak_fonticak.Base.{List, [], ◌++◌, arith, is_empty, if◌then◌else◌}
use baiak_fonticak.Tasks.{Task, is_terminated, looping, waiting, woken, performing, finished}
use baiak_fonticak.Tasks.{Dispatcher, Action, notifying, entering, proceeding, step}
use baiak_fonticak.Tasks.{notified, notify_one, notify, swap, enter, proceed}
use baiak_fonticak.Tasks.Runs.{Run, handled_after, after}
use baiak_fonticak.Tasks.Serving.{Serves, first, is_own, judged, perform_batch}

-- A later run in which all the tasks are dealt with and nothing is left.
pub record IsServed (now : ℕ) (tasks : List Task) (r t : Run) : Type 0 where
  pub path : Serves r t
  pub emptied : t.state.batch ≡ []
  pub all_taken : t.state.task_list ≡ []
  pub dealt : t.handled ≡ r.handled ++ judged now tasks

-- One own step before.
stepped :
    (now : ℕ) (tasks : List Task) (r : Run) (a : Action) (s : Dispatcher)
    → step a r.state ≡ some s
    → is_own a ≡ true
    → (after a r s).handled ≡ r.handled
    → (t : Run) × IsServed now tasks (after a r s) t
    → (t : Run) × IsServed now tasks r t
stepped now tasks r a s done own same (t, h) = (
  t,
  record {
    path = first r t a s own done h.path;
    emptied = h.emptied;
    all_taken = h.all_taken;
    dealt = h.dealt ∙ ap (λ hs. hs ++ judged now tasks) same;
  },
)

-- The list, once it has become the batch.
swapped :
    (now : ℕ) (r : Run)
    → r.state.place ≡ performing
    → r.state.task_list ≡ []
    → (t : Run) × IsServed now r.state.batch r t
swapped now r here none_left =
    let (t, h) = perform_batch now r.state.batch r here refl in
    (
      t,
      record {
        path = h.path;
        emptied = h.emptied;
        all_taken = h.task_list ∙ none_left;
        dealt = h.dealt;
      },
    )

pub from_woken :
    (now : ℕ) (r : Run)
    → r.state.place ≡ woken
    → r.state.batch ≡ []
    → (t : Run) × IsServed now r.state.task_list r t
unfolding step proceed swap is_own handled_after
from_woken now r here none_left =
    let done : step proceeding r.state ≡ some (swap r.state) = ap (λ p. proceed p r.state) here in
    let next_run = after proceeding r (swap r.state) in
    stepped now r.state.task_list r proceeding (swap r.state) done refl refl
      (swapped now next_run refl none_left)

enter_swaps :
    (d : Dispatcher) (b1 b2 : Bool)
    → b1 ≡ false
    → b2 ≡ false
    → (if b1
        then record d { place = finished }
        else if b2
        then record d { place = waiting }
        else swap d)
      ≡ swap d
enter_swaps d true b2 h1 h2 = absurd (ground (arith, h1))
enter_swaps d false true h1 h2 = absurd (ground (arith, h2))
enter_swaps d false false h1 h2 = refl

pub from_looping :
    (now : ℕ) (r : Run)
    → r.state.place ≡ looping
    → r.state.batch ≡ []
    → is_terminated r.state.thread_state ≡ false
    → is_empty r.state.task_list ≡ false
    → (t : Run) × IsServed now r.state.task_list r t
unfolding step enter swap is_own handled_after
from_looping now r here none_left alive some_left =
    let done : step entering r.state ≡ some (swap r.state) =
      ap (λ p. enter p r.state) here
      ∙ ap some (
          enter_swaps r.state (is_terminated r.state.thread_state) (is_empty r.state.task_list)
            alive some_left) in
    let next_run = after entering r (swap r.state) in
    stepped now r.state.task_list r entering (swap r.state) done refl refl
      (swapped now next_run refl none_left)

notify-some :
    (n : ℕ) (d : Dispatcher) → 0 < n → notify n d ≡ some (notify_one (record d { pending = n - 1 }))
unfolding notify
notify-some zero d h = absurd (omega (arith, h))
notify-some (suc n) d h = ap (λ m. some (notify_one (record d { pending = m }))) (omega arith)

pub from_waiting :
    (now : ℕ) (r : Run)
    → r.state.place ≡ waiting
    → r.state.batch ≡ []
    → 0 < r.state.pending
    → (t : Run) × IsServed now r.state.task_list r t
unfolding step notify_one notified is_own handled_after
from_waiting now r here none_left coming =
    let s = notify_one (record r.state { pending = r.state.pending - 1 }) in
    let done : step notifying r.state ≡ some s = notify-some r.state.pending r.state coming in
    let next_run = after notifying r s in
    stepped now r.state.task_list r notifying s done refl refl
      (from_woken now next_run (ap notified here) none_left)
