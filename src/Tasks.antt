-- ===== src/Tasks.antt =====
-- The dispatcher of tasks (src/tasks.h, src/tasks.cpp) and the states of its thread
-- (src/thread_holder_base.h). The thread and the threads that add tasks meet in the lock and the
-- signal, so the model has one step for each stretch of code that they cannot divide: what is
-- done under the lock, a notification after it, one task of the batch.
pub mod Runs
pub mod Orders
pub mod History
pub mod Waking
pub mod Serving
pub mod Places
pub mod Liveness
mod Examples
use baiak_fonticak.Base.{ℕ, zero, suc, ◌+◌, ◌-◌, ◌*◌, ◌/◌, ◌%◌, ◌^◌, ◌≤◌, ◌<◌, min, max}
use baiak_fonticak.Base.{bit_and, bit_or, bit_xor, String, ◌≡◌, refl, sym, ap, ap₂, subst}
use baiak_fonticak.Base.{fun_ext, ◌∙◌, ◌≢◌, ◌↔◌, ◌⊎◌, inl, inr, Bool, true, false, not, ◌&&◌}
use baiak_fonticak.Base.{◌||◌, Option, none, some, option_map, List, [], ◌∷◌, ◌++◌, map}
use baiak_fonticak.Base.{append-nil, append_assoc, arith, str_eq, length, is_empty}
use baiak_fonticak.Base.{get_elem?, set, get_or, take, drop, length-append, take_prefix}
use baiak_fonticak.Base.{drop_prefix, take-append-drop, length-take-le, length-drop-le}
use baiak_fonticak.Base.{length-set, All, contains, erase_first, count, IsDistinct}
use baiak_fonticak.Base.{count-append, contains-iff-count, count-erase_first}
use baiak_fonticak.Base.{length-erase_first-le, same_bytes, same_bytes_self, same_bytes_lem}
use baiak_fonticak.Base.{ltb, leb, ◌==◌, ◌!=◌, if◌then◌else◌, ltb→lt, lt→ltb, leb→le, le→leb}
use baiak_fonticak.Base.{lt→leb_false, lt→ltb_false, ==_iff, ==_self, tests, Bool-cases}
use baiak_fonticak.Base.{Option-cases}

pub data ThreadState : Type 0 where
  running : ThreadState
  closing : ThreadState
  terminated : ThreadState

unfoldable pub is_running : ThreadState → Bool
is_running running = true
is_running closing = false
is_running terminated = false

unfoldable pub is_terminated : ThreadState → Bool
is_terminated running = false
is_terminated closing = false
is_terminated terminated = true

-- What a task does: a call into the game, by its number, or the end of the dispatcher that
-- shutdown asks for.
pub data TaskFunc : Type 0 where
  game_call : ℕ → TaskFunc
  terminate : TaskFunc

-- The expiration is in milliseconds, 0 being SYSTEM_TIME_ZERO.
pub record Task : Type 0 where
  pub func : TaskFunc
  pub expiration : ℕ

unfoldable pub create_task : TaskFunc → Task
create_task f = record { func = f; expiration = 0 }

-- createTask with an expiration, called at the time `now`.
unfoldable pub create_expiring_task : ℕ → ℕ → TaskFunc → Task
create_expiring_task now ms f = record { func = f; expiration = now + ms }

unfoldable pub has_expired : ℕ → Task → Bool
has_expired now t = if t.expiration == 0 then false else ltb t.expiration now

-- Where threadMain is: at the test of its loop, in the wait for the signal, woken from it, in
-- the loop over tmpTaskList, or returned.
pub data Place : Type 0 where
  looping : Place
  waiting : Place
  woken : Place
  performing : Place
  finished : Place

-- `batch` is what the loop over tmpTaskList has left; `pending` counts the calls of addTask that
-- have unlocked the list and not yet notified.
pub record Dispatcher : Type 0 where
  pub thread_state : ThreadState
  pub task_list : List Task
  pub dispatcher_cycle : ℕ
  pub batch : List Task
  pub place : Place
  pub pending : ℕ

-- start
unfoldable pub start : Dispatcher
start = record {
  thread_state = running;
  task_list = [];
  dispatcher_cycle = 0;
  batch = [];
  place = looping;
  pending = 0;
}

unfoldable pub notified : Place → Place
notified waiting = woken
notified looping = looping
notified woken = woken
notified performing = performing
notified finished = finished

-- taskSignal.notify_one
unfoldable pub notify_one : Dispatcher → Dispatcher
notify_one d = record d { place = notified d.place }

-- addTask, from the lock to the unlock
unfoldable pub add_task : Task → Dispatcher → Dispatcher
add_task t d =
    if is_running d.thread_state
    then record d {
      task_list = d.task_list ++ t ∷ [];
      pending = if is_empty d.task_list then suc d.pending else d.pending;
    }
    else d

-- The notification of addTask.
unfoldable pub notify : ℕ → Dispatcher → Option Dispatcher
notify zero d = none
notify (suc n) d = some (notify_one (record d { pending = n }))

unfoldable pub stop : Dispatcher → Dispatcher
stop d = record d { thread_state = closing }

unfoldable pub shutdown : Dispatcher → Dispatcher
shutdown d = notify_one (record d { task_list = d.task_list ++ create_task terminate ∷ [] })

-- tmpTaskList.swap(taskList)
unfoldable pub swap : Dispatcher → Dispatcher
swap d = record d { task_list = d.batch; batch = d.task_list; place = performing }

-- The test of the loop of threadMain, and the list under the lock.
unfoldable pub enter : Place → Dispatcher → Option Dispatcher
enter looping d = some (
    if is_terminated d.thread_state
    then record d { place = finished }
    else if is_empty d.task_list
    then record d { place = waiting }
    else swap d)
enter waiting d = none
enter woken d = none
enter performing d = none
enter finished d = none

-- A wait may end with no notification.
unfoldable pub wake : Place → Dispatcher → Option Dispatcher
wake waiting d = some (record d { place = woken })
wake looping d = none
wake woken d = none
wake performing d = none
wake finished d = none

unfoldable pub proceed : Place → Dispatcher → Option Dispatcher
proceed woken d = some (swap d)
proceed looping d = none
proceed waiting d = none
proceed performing d = none
proceed finished d = none

-- The call of a task. What it does to the game is not of the dispatcher, and the tasks that it
-- adds are steps of their own.
unfoldable pub execute : TaskFunc → Dispatcher → Dispatcher
execute (game_call n) d = d
execute terminate d = notify_one (record d { thread_state = terminated })

-- The body of the loop over tmpTaskList.
unfoldable pub perform_task : ℕ → Task → Dispatcher → Dispatcher
perform_task now t d =
    if has_expired now t
    then d
    else execute t.func (record d { dispatcher_cycle = (d.dispatcher_cycle + 1) % 2 ^ 64 })

-- The next task of the batch, at the time `now`.
unfoldable pub perform : ℕ → Place → List Task → Dispatcher → Option Dispatcher
perform now performing (t ∷ rest) d = some (perform_task now t (record d { batch = rest }))
perform now performing [] d = none
perform now looping batch d = none
perform now waiting batch d = none
perform now woken batch d = none
perform now finished batch d = none

-- The end of the batch.
unfoldable pub finish : Place → List Task → Dispatcher → Option Dispatcher
finish performing [] d = some (record d { place = looping })
finish performing (t ∷ rest) d = none
finish looping batch d = none
finish waiting batch d = none
finish woken batch d = none
finish finished batch d = none

pub data Action : Type 0 where
  adding : Task → Action
  notifying : Action
  stopping : Action
  shutting_down : Action
  waking : Action
  entering : Action
  proceeding : Action
  performing_at : ℕ → Action
  finishing : Action

-- A step of any thread; none where that thread is not there.
unfoldable pub step : Action → Dispatcher → Option Dispatcher
step (adding t) d = some (add_task t d)
step notifying d = notify d.pending d
step stopping d = some (stop d)
step shutting_down d = some (shutdown d)
step waking d = wake d.place d
step entering d = enter d.place d
step proceeding d = proceed d.place d
step (performing_at now) d = perform now d.place d.batch d
step finishing d = finish d.place d.batch d
