-- ===== src/Tasks/Waking.antt =====
-- No notification of the dispatcher is lost (src/tasks.cpp).
use baiak_fonticak.Tasks.{terminated, Task, TaskFunc, game_call, terminate, create_task}
use baiak_fonticak.Tasks.{has_expired, is_running, is_terminated, Place, looping, waiting}
use baiak_fonticak.Tasks.{woken, performing, finished, Dispatcher, start, Action, adding}
use baiak_fonticak.Tasks.{notifying, stopping, shutting_down, waking, entering, proceeding}
use baiak_fonticak.Tasks.{performing_at, finishing, step, notified, notify_one, add_task}
use baiak_fonticak.Tasks.{notify, stop, shutdown, swap, enter, wake, proceed, execute}
use baiak_fonticak.Tasks.{perform_task, perform, finish}
use baiak_fonticak.Base.{ℕ, zero, suc, ◌+◌, ◌%◌, ◌^◌, ◌<◌, ◌≡◌, refl, sym, ap, subst, ◌∙◌}
use baiak_fonticak.Base.{◌≢◌, Bool, true, false, not, ◌||◌, some, List, [], ◌∷◌, ◌++◌, arith}
use baiak_fonticak.Base.{is_empty, ltb, if◌then◌else◌}
use mathlib.Core.Option.{none-ne-some, some-injective}
use baiak_fonticak.Tasks.Runs.{Run, IsReached, started, next}

unfoldable pub is_waiting : Place → Bool
is_waiting waiting = true
is_waiting looping = false
is_waiting woken = false
is_waiting performing = false
is_waiting finished = false

-- Nothing waits in the list, or the thread does not wait, or it is still to be notified.
abbrev pub IsAwake : Dispatcher → Type 0
IsAwake d = (is_empty d.task_list || (not (is_waiting d.place) || ltb 0 d.pending)) ≡ true

away : (e w x : Bool) → w ≡ true → (e || (w || x)) ≡ true
away true w x h = refl
away false w x h = ap (λ b. b || x) h

away-IsAwake : (d : Dispatcher) → is_waiting d.place ≡ false → IsAwake d
away-IsAwake d h =
    away (is_empty d.task_list) (not (is_waiting d.place)) (ltb 0 d.pending) (ap not h)

notified-away : (p : Place) → is_waiting (notified p) ≡ false
unfolding is_waiting notified
notified-away looping = refl
notified-away waiting = refl
notified-away woken = refl
notified-away performing = refl
notified-away finished = refl

notify_one-IsAwake : (d : Dispatcher) → IsAwake (notify_one d)
unfolding notify_one
notify_one-IsAwake d = away-IsAwake (notify_one d) (notified-away d.place)

is_empty-push : (ts : List Task) (t : Task) → is_empty (ts ++ t ∷ []) ≡ false
is_empty-push [] t = refl
is_empty-push (x ∷ ts) t = refl

-- A task in an empty list makes a notification pending.
push_notifies :
    (e w : Bool) (n : ℕ)
    → (e || (w || ltb 0 n)) ≡ true
    → (w || ltb 0 (if e then suc n else n)) ≡ true
push_notifies true true n h = refl
push_notifies true false n h = ground arith
push_notifies false w n h = h

pushed :
    (b : Bool) (t : Task) (d : Dispatcher)
    → IsAwake d
    → IsAwake (
        if b
        then record d {
          task_list = d.task_list ++ t ∷ [];
          pending = if is_empty d.task_list then suc d.pending else d.pending;
        }
        else d)
pushed false t d h = h
pushed true t d h =
    ap
      (λ e.
        e
        || (not (is_waiting d.place)
            || ltb 0 (if is_empty d.task_list then suc d.pending else d.pending)))
      (is_empty-push d.task_list t)
    ∙ push_notifies (is_empty d.task_list) (not (is_waiting d.place)) d.pending h

notify-IsAwake : (n : ℕ) (d s : Dispatcher) → notify n d ≡ some s → IsAwake s
unfolding notify
notify-IsAwake zero d s done = absurd (none-ne-some s done)
notify-IsAwake (suc n) d s done =
    subst IsAwake (some-injective _ _ done) (notify_one-IsAwake (record d { pending = n }))

entered-IsAwake :
    (b1 b2 : Bool) (d : Dispatcher)
    → is_empty d.task_list ≡ b2
    → IsAwake (
        if b1
        then record d { place = finished }
        else if b2
        then record d { place = waiting }
        else swap d)
unfolding swap is_waiting
entered-IsAwake true b2 d h = away-IsAwake (record d { place = finished }) refl
entered-IsAwake false true d h = ap (λ e. e || (false || ltb 0 d.pending)) h
entered-IsAwake false false d h = away-IsAwake (swap d) refl

enter-IsAwake : (p : Place) (d s : Dispatcher) → enter p d ≡ some s → IsAwake s
unfolding enter
enter-IsAwake looping d s done =
    subst IsAwake (some-injective _ _ done)
      (entered-IsAwake (is_terminated d.thread_state) (is_empty d.task_list) d refl)
enter-IsAwake waiting d s done = absurd (none-ne-some s done)
enter-IsAwake woken d s done = absurd (none-ne-some s done)
enter-IsAwake performing d s done = absurd (none-ne-some s done)
enter-IsAwake finished d s done = absurd (none-ne-some s done)

wake-IsAwake : (p : Place) (d s : Dispatcher) → wake p d ≡ some s → IsAwake s
unfolding wake is_waiting
wake-IsAwake waiting d s done =
    subst IsAwake (some-injective _ _ done) (away-IsAwake (record d { place = woken }) refl)
wake-IsAwake looping d s done = absurd (none-ne-some s done)
wake-IsAwake woken d s done = absurd (none-ne-some s done)
wake-IsAwake performing d s done = absurd (none-ne-some s done)
wake-IsAwake finished d s done = absurd (none-ne-some s done)

proceed-IsAwake : (p : Place) (d s : Dispatcher) → proceed p d ≡ some s → IsAwake s
unfolding proceed swap is_waiting
proceed-IsAwake woken d s done =
    subst IsAwake (some-injective _ _ done) (away-IsAwake (swap d) refl)
proceed-IsAwake looping d s done = absurd (none-ne-some s done)
proceed-IsAwake waiting d s done = absurd (none-ne-some s done)
proceed-IsAwake performing d s done = absurd (none-ne-some s done)
proceed-IsAwake finished d s done = absurd (none-ne-some s done)

execute-IsAwake :
    (f : TaskFunc) (d : Dispatcher) → is_waiting d.place ≡ false → IsAwake (execute f d)
unfolding execute
execute-IsAwake (game_call n) d h = away-IsAwake d h
execute-IsAwake terminate d h = notify_one-IsAwake (record d { thread_state = terminated })

performed-IsAwake :
    (b : Bool) (f : TaskFunc) (c : ℕ) (d : Dispatcher)
    → is_waiting d.place ≡ false
    → IsAwake (if b then d else execute f (record d { dispatcher_cycle = c }))
performed-IsAwake true f c d h = away-IsAwake d h
performed-IsAwake false f c d h = execute-IsAwake f (record d { dispatcher_cycle = c }) h

perform-IsAwake :
    (now : ℕ) (p : Place) (batch : List Task) (d s : Dispatcher)
    → p ≡ d.place
    → perform now p batch d ≡ some s
    → IsAwake s
unfolding perform perform_task is_waiting
perform-IsAwake now performing (t ∷ rest) d s here done = subst IsAwake (some-injective _ _ done) (
    performed-IsAwake (has_expired now t) t.func ((d.dispatcher_cycle + 1) % 2 ^ 64)
      (record d { batch = rest }) (ap is_waiting (sym here)))
perform-IsAwake now performing [] d s here done = absurd (none-ne-some s done)
perform-IsAwake now looping batch d s here done = absurd (none-ne-some s done)
perform-IsAwake now waiting batch d s here done = absurd (none-ne-some s done)
perform-IsAwake now woken batch d s here done = absurd (none-ne-some s done)
perform-IsAwake now finished batch d s here done = absurd (none-ne-some s done)

finish-IsAwake :
    (p : Place) (batch : List Task) (d s : Dispatcher) → finish p batch d ≡ some s → IsAwake s
unfolding finish is_waiting
finish-IsAwake performing [] d s done =
    subst IsAwake (some-injective _ _ done) (away-IsAwake (record d { place = looping }) refl)
finish-IsAwake performing (t ∷ rest) d s done = absurd (none-ne-some s done)
finish-IsAwake looping batch d s done = absurd (none-ne-some s done)
finish-IsAwake waiting batch d s done = absurd (none-ne-some s done)
finish-IsAwake woken batch d s done = absurd (none-ne-some s done)
finish-IsAwake finished batch d s done = absurd (none-ne-some s done)

step-IsAwake : (a : Action) (d s : Dispatcher) → IsAwake d → step a d ≡ some s → IsAwake s
unfolding step add_task stop shutdown
step-IsAwake (adding t) d s h done =
    subst IsAwake (some-injective _ _ done) (pushed (is_running d.thread_state) t d h)
step-IsAwake notifying d s h done = notify-IsAwake d.pending d s done
step-IsAwake stopping d s h done = subst IsAwake (some-injective _ _ done) h
step-IsAwake shutting_down d s h done =
    subst IsAwake (some-injective _ _ done)
      (notify_one-IsAwake (record d { task_list = d.task_list ++ create_task terminate ∷ [] }))
step-IsAwake waking d s h done = wake-IsAwake d.place d s done
step-IsAwake entering d s h done = enter-IsAwake d.place d s done
step-IsAwake proceeding d s h done = proceed-IsAwake d.place d s done
step-IsAwake (performing_at now) d s h done = perform-IsAwake now d.place d.batch d s refl done
step-IsAwake finishing d s h done = finish-IsAwake d.place d.batch d s done

reached-IsAwake : (r : Run) → IsReached r → IsAwake r.state
unfolding start is_waiting
reached-IsAwake _ started = refl
reached-IsAwake _ (next r a s before done) =
    step-IsAwake a r.state s (reached-IsAwake r before) done

is_empty-cons : (ts : List Task) → ts ≢ [] → is_empty ts ≡ false
is_empty-cons [] h = absurd (h refl)
is_empty-cons (t ∷ ts) h = refl

-- No wake-up is lost: in every run of the dispatcher, when its thread waits for the signal while
-- there are tasks in the list, some call of addTask is still to notify it.
pub IsReached-pending :
    (r : Run) → IsReached r → r.state.place ≡ waiting → r.state.task_list ≢ [] → 0 < r.state.pending
unfolding is_waiting
IsReached-pending r before here some_left =
    let awake : IsAwake r.state = reached-IsAwake r before in
    let left : is_empty r.state.task_list ≡ false = is_empty-cons r.state.task_list some_left in
    let there : is_waiting r.state.place ≡ true = ap is_waiting here in
    ground (arith, awake, left, there)
