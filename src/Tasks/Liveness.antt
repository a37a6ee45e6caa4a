-- ===== src/Tasks/Liveness.antt =====
-- Every task of the dispatcher is dealt with (src/tasks.cpp): the thread, with the notification
-- that is still to come, is enough, whichever place it is at.
use baiak_fonticak.Tasks.{has_expired, Task, is_terminated, Place, looping, waiting, woken}
use baiak_fonticak.Tasks.{performing, finished, finishing, step, finish}
use baiak_fonticak.Base.{ℕ, ◌≡◌, refl, sym, ap, ap₂, subst, ◌∙◌, ◌≢◌, inl, inr, Bool, true}
use baiak_fonticak.Base.{false, not, ◌||◌, some, List, [], ◌∷◌, ◌++◌, append-nil}
use baiak_fonticak.Base.{append_assoc, arith, is_empty, Bool-cases}
use baiak_fonticak.Tasks.Places.{IsServed, from_woken, from_looping, from_waiting}
use baiak_fonticak.Tasks.Runs.{next, Run, handled_after, after, IsReached}
use baiak_fonticak.Tasks.Orders.{is_empty-empty, is_performing}
use baiak_fonticak.Tasks.History.{IsReached-IsOrdered}
use baiak_fonticak.Tasks.Waking.{IsReached-pending}
use baiak_fonticak.Tasks.Serving.{Serves, at_once, first, trans, is_own, judged, is_game}
use baiak_fonticak.Tasks.Serving.{perform_batch}

is_empty-nil : (ts : List Task) → is_empty ts ≡ false → ts ≢ []
is_empty-nil ts h e = let n : is_empty ts ≡ true = ap is_empty e in ground (arith, h, n)

-- From the places outside the batch.
from_list :
    (now : ℕ) (p : Place) (r : Run)
    → r.state.place ≡ p
    → p ≢ performing
    → p ≢ finished
    → r.state.batch ≡ []
    → is_terminated r.state.thread_state ≡ false
    → is_empty r.state.task_list ≡ false
    → IsReached r
    → (t : Run) × IsServed now r.state.task_list r t
from_list now looping r here n1 n2 none_left alive some_left before =
    from_looping now r here none_left alive some_left
from_list now waiting r here n1 n2 none_left alive some_left before =
    from_waiting now r here none_left
      (IsReached-pending r before here (is_empty-nil r.state.task_list some_left))
from_list now woken r here n1 n2 none_left alive some_left before = from_woken now r here none_left
from_list now performing r here n1 n2 none_left alive some_left before = absurd (n1 refl)
from_list now finished r here n1 n2 none_left alive some_left before = absurd (n2 refl)

finish_step :
    (r : Run)
    → r.state.place ≡ performing
    → r.state.batch ≡ []
    → step finishing r.state ≡ some (record r.state { place = looping })
unfolding step finish
finish_step r here none_left = ap₂ (λ p b. finish p b r.state) here none_left

all_in :
    (now : ℕ) (r : Run)
    → r.state.place ≢ performing
    → r.state.place ≢ finished
    → r.state.batch ≡ []
    → is_terminated r.state.thread_state ≡ false
    → IsReached r
    → (t : Run) × IsServed now r.state.task_list r t
unfolding judged
all_in now r n1 n2 none_left alive before = elim (Bool-cases (is_empty r.state.task_list)) [
  | inl none_waits ↦
      let e : r.state.task_list ≡ [] = is_empty-empty r.state.task_list none_waits in
      (
        r,
        record {
          path = at_once r;
          emptied = none_left;
          all_taken = e;
          dealt = sym (ap (λ ts. r.handled ++ judged now ts) e ∙ append-nil r.handled);
        },
      )
  | inr some_left ↦ from_list now r.state.place r refl n1 n2 none_left alive some_left before
]

Serves-IsReached : (r t : Run) → Serves r t → IsReached r → IsReached t
Serves-IsReached _ _ (at_once r) before = before
Serves-IsReached _ _ (first r t a s own done p) before =
    Serves-IsReached (after a r s) t p (next r a s before done)

judged-append :
    (now : ℕ) (xs ys : List Task) → judged now (xs ++ ys) ≡ judged now xs ++ judged now ys
unfolding judged
judged-append now [] ys = refl
judged-append now (x ∷ xs) ys =
    ap (λ ts. (x, not (has_expired now x)) ∷ ts) (judged-append now xs ys)

unfoldable is_finished : Place → Bool
is_finished finished = true
is_finished looping = false
is_finished waiting = false
is_finished woken = false
is_finished performing = false

is_performing-performing : (p : Place) → is_performing p ≡ true → p ≡ performing
unfolding is_performing
is_performing-performing performing h = refl
is_performing-performing looping h = absurd (ground (arith, h))
is_performing-performing waiting h = absurd (ground (arith, h))
is_performing-performing woken h = absurd (ground (arith, h))
is_performing-performing finished h = absurd (ground (arith, h))

is_performing-other : (p : Place) → is_performing p ≡ false → p ≢ performing
unfolding is_performing
is_performing-other p h e =
    let n : is_performing p ≡ true = ap is_performing e in ground (arith, h, n)

is_looping_other : (p : Place) → p ≡ looping → (p ≢ performing) × (p ≢ finished)
unfolding is_performing is_finished
is_looping_other p h = (
  (λ e. let n : is_performing looping ≡ true = ap is_performing (sym h ∙ e) in ground (arith, n)),
  (λ e. let n : is_finished looping ≡ true = ap is_finished (sym h ∙ e) in ground (arith, n)),
)

-- After the batch, its end and the list.
batch_first :
    (now : ℕ) (r : Run)
    → r.state.place ≡ performing
    → is_terminated r.state.thread_state ≡ false
    → is_game r.state.batch ≡ true
    → IsReached r
    → (t : Run) × IsServed now (r.state.batch ++ r.state.task_list) r t
unfolding is_own handled_after
batch_first now r here alive calm before =
    let (e, d) = perform_batch now r.state.batch r here refl in
    let s = record e.state { place = looping } in
    let done = finish_step e d.place d.emptied in
    let m = after finishing e s in
    let step_on : Serves r m = trans r e m d.path (first e m finishing s refl done (at_once m)) in
    let others = is_looping_other m.state.place refl in
    let (t, h) =
      all_in now m others.0 others.1 d.emptied (ap is_terminated (d.alive calm) ∙ alive)
        (Serves-IsReached r m step_on before) in
    (
      t,
      record {
        path = trans r m t step_on h.path;
        emptied = h.emptied;
        all_taken = h.all_taken;
        dealt =
            h.dealt
            ∙ ap₂ (λ hs ts. hs ++ judged now ts) d.dealt d.task_list
            ∙ append_assoc r.handled (judged now r.state.batch) (judged now r.state.task_list)
            ∙ ap (λ hs. r.handled ++ hs) (sym (judged-append now r.state.batch r.state.task_list));
      },
    )

-- From every state that a run of the dispatcher reaches, unless the thread has returned, or the
-- dispatcher is terminated or is so by a task of the current batch, steps of the thread and a
-- notification that is still to come deal with every task of the batch and of the list, in
-- order, and leave none.
pub IsReached-IsServed :
    (now : ℕ) (r : Run)
    → IsReached r
    → is_terminated r.state.thread_state ≡ false
    → is_game r.state.batch ≡ true
    → r.state.place ≢ finished
    → (t : Run) × IsServed now (r.state.batch ++ r.state.task_list) r t
IsReached-IsServed now r before alive calm there = elim (Bool-cases (is_performing r.state.place)) [
  | inl inside ↦ batch_first now r (is_performing-performing r.state.place inside) alive calm before
  | inr outside ↦
      let none_left : r.state.batch ≡ [] = is_empty-empty r.state.batch (
        sym (ap (λ b. b || is_empty r.state.batch) outside)
        ∙ (IsReached-IsOrdered r before).idle) in
      subst (λ ts. (t : Run) × IsServed now (ts ++ r.state.task_list) r t) (sym none_left)
        (all_in now r (is_performing-other r.state.place outside) there none_left alive before)
]
