-- ===== src/Tasks/Serving.antt =====
-- The thread of the dispatcher (src/tasks.cpp) gets to every task by its own steps.
use baiak_fonticak.Base.{ℕ, ◌+◌, ◌%◌, ◌^◌, ◌≡◌, refl, sym, ap, ap₂, ◌∙◌, Bool, true, false}
use baiak_fonticak.Base.{not, ◌&&◌, some, List, [], ◌∷◌, ◌++◌, append-nil, append_assoc}
use baiak_fonticak.Base.{arith, if◌then◌else◌}
use baiak_fonticak.Tasks.{Task, TaskFunc, game_call, terminate, has_expired, performing}
use baiak_fonticak.Tasks.{Dispatcher, Action, adding, notifying, stopping, shutting_down}
use baiak_fonticak.Tasks.{waking, entering, proceeding, performing_at, finishing, step}
use baiak_fonticak.Tasks.{notified, notify_one, execute, perform_task, perform}
use baiak_fonticak.Tasks.Runs.{Run, deal, after, handled_after}

-- The steps of the thread, and the notification that some addTask is still to make.
unfoldable pub is_own : Action → Bool
is_own notifying = true
is_own entering = true
is_own proceeding = true
is_own (performing_at now) = true
is_own finishing = true
is_own (adding t) = false
is_own stopping = false
is_own shutting_down = false
is_own waking = false

-- From one run to a later one by such steps.
pub data Serves : Run → Run → Type 0 where
  at_once : (r : Run) → Serves r r
  first :
      (r t : Run) (a : Action) (s : Dispatcher)
      → is_own a ≡ true
      → step a r.state ≡ some s
      → Serves (after a r s) t
      → Serves r t

-- Tasks dealt with at one time.
unfoldable pub judged : ℕ → List Task → List (Task × Bool)
judged now [] = []
judged now (t ∷ ts) = (t, not (has_expired now t)) ∷ judged now ts

-- No task of the list ends the dispatcher.
unfoldable pub is_call : TaskFunc → Bool
is_call (game_call n) = true
is_call terminate = false

unfoldable pub is_game : List Task → Bool
is_game [] = true
is_game (t ∷ ts) = is_call t.func && is_game ts

pub trans : (r s t : Run) → Serves r s → Serves s t → Serves r t
trans _ s t (at_once r) q = q
trans _ s t (first r _ a d own done p) q = first r t a d own done (trans (after a r d) s t p q)

-- What a task of the batch leaves of the dispatcher.
pub record IsPassed (d s : Dispatcher) : Type 0 where
  pub place : s.place ≡ performing
  pub batch : s.batch ≡ d.batch
  pub task_list : s.task_list ≡ d.task_list

execute-IsPassed : (f : TaskFunc) (d : Dispatcher) → d.place ≡ performing → IsPassed d (execute f d)
unfolding execute notify_one notified
execute-IsPassed (game_call n) d h = record { place = h; batch = refl; task_list = refl }
execute-IsPassed terminate d h = record { place = ap notified h; batch = refl; task_list = refl }

passed :
    (b : Bool) (f : TaskFunc) (c : ℕ) (d : Dispatcher)
    → d.place ≡ performing
    → IsPassed d (if b then d else execute f (record d { dispatcher_cycle = c }))
passed true f c d h = record { place = h; batch = refl; task_list = refl }
passed false f c d h =
    let p = execute-IsPassed f (record d { dispatcher_cycle = c }) h in
    record { place = p.place; batch = p.batch; task_list = p.task_list }

still :
    (b : Bool) (f : TaskFunc) (c : ℕ) (d : Dispatcher)
    → is_call f ≡ true
    → (if b then d else execute f (record d { dispatcher_cycle = c })).thread_state ≡ d.thread_state
unfolding execute is_call
still true f c d h = refl
still false (game_call n) c d h = refl
still false terminate c d h = absurd (ground (arith, h))

-- What dealing with a whole batch leaves.
pub record IsDone (now : ℕ) (batch : List Task) (r t : Run) : Type 0 where
  pub path : Serves r t
  pub place : t.state.place ≡ performing
  pub emptied : t.state.batch ≡ []
  pub task_list : t.state.task_list ≡ r.state.task_list
  pub dealt : t.handled ≡ r.handled ++ judged now batch
  pub alive : is_game batch ≡ true → t.state.thread_state ≡ r.state.thread_state

one_more :
    (now : ℕ) (t : Task) (ts : List Task) (r : Run)
    → r.state.place ≡ performing
    → r.state.batch ≡ t ∷ ts
    → step (performing_at now) r.state ≡ some (perform_task now t (record r.state { batch = ts }))
unfolding step perform
one_more now t ts r here head = ap₂ (λ p b. perform now p b r.state) here head

abbrev moved : ℕ → Task → List Task → Run → Run
moved now t ts r = after (performing_at now) r (perform_task now t (record r.state { batch = ts }))

moved-IsPassed :
    (now : ℕ) (t : Task) (ts : List Task) (r : Run)
    → r.state.place ≡ performing
    → IsPassed (record r.state { batch = ts }) (moved now t ts r).state
unfolding perform_task
moved-IsPassed now t ts r here =
    passed (has_expired now t) t.func ((r.state.dispatcher_cycle + 1) % 2 ^ 64)
      (record r.state { batch = ts }) here

moved_handled :
    (now : ℕ) (t : Task) (ts : List Task) (r : Run)
    → r.state.batch ≡ t ∷ ts
    → (moved now t ts r).handled ≡ r.handled ++ (t, not (has_expired now t)) ∷ []
unfolding handled_after deal
moved_handled now t ts r head = ap (λ b. deal now b r.handled) head

first_game : (t : Task) (ts : List Task) → is_game (t ∷ ts) ≡ true → is_call t.func ≡ true
unfolding is_game
first_game t ts h = ground (arith, h)

all_game : (t : Task) (ts : List Task) → is_game (t ∷ ts) ≡ true → is_game ts ≡ true
unfolding is_game
all_game t ts h = ground (arith, h)

-- The loop over the batch comes to its end and deals with each task in turn.
pub perform_batch :
    (now : ℕ) (batch : List Task) (r : Run)
    → r.state.place ≡ performing
    → r.state.batch ≡ batch
    → (t : Run) × IsDone now batch r t
unfolding judged perform_task is_own
perform_batch now [] r here head = (
  r,
  record {
    path = at_once r;
    place = here;
    emptied = head;
    task_list = refl;
    dealt = sym (append-nil r.handled);
    alive = λ h. refl;
  },
)
perform_batch now (t ∷ ts) r here head =
    let m = moved now t ts r in
    let p = moved-IsPassed now t ts r here in
    let (e, d) = perform_batch now ts m p.place p.batch in
    (
      e,
      record {
        path = first r e (performing_at now) m.state refl (one_more now t ts r here head) d.path;
        place = d.place;
        emptied = d.emptied;
        task_list = d.task_list ∙ p.task_list;
        alive = λ h.
            d.alive (all_game t ts h)
            ∙ still (has_expired now t) t.func ((r.state.dispatcher_cycle + 1) % 2 ^ 64)
                (record r.state { batch = ts }) (first_game t ts h);
        dealt =
            d.dealt
            ∙ ap (λ hs. hs ++ judged now ts) (moved_handled now t ts r head)
            ∙ append_assoc r.handled ((t, not (has_expired now t)) ∷ []) (judged now ts);
      },
    )
