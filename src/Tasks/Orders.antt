-- ===== src/Tasks/Orders.antt =====
-- Tasks are dealt with in the order in which they come (src/tasks.cpp).
use baiak_fonticak.Tasks.{terminated, Task, TaskFunc, game_call, terminate, has_expired}
use baiak_fonticak.Tasks.{Place, looping, waiting, woken, performing, finished, Dispatcher}
use baiak_fonticak.Tasks.{notified, notify_one, swap, execute, perform_task, perform, finish}
use baiak_fonticak.Base.{ℕ, ◌+◌, ◌%◌, ◌^◌, ◌≡◌, refl, sym, ap, subst, ◌∙◌, Bool, true, false}
use baiak_fonticak.Base.{not, ◌||◌, some, List, [], ◌∷◌, ◌++◌, append-nil, append_assoc}
use baiak_fonticak.Base.{arith, is_empty, if◌then◌else◌}
use mathlib.Core.Option.{none-ne-some, some-injective}
use baiak_fonticak.Tasks.Runs.{deal, executed, tasks_of, tasks_of-append, executed-append}

unfoldable pub is_performing : Place → Bool
is_performing performing = true
is_performing looping = false
is_performing waiting = false
is_performing woken = false
is_performing finished = false

-- First come, first served; the batch is empty but in its loop; the cycle counts executions.
pub record IsOrdered (d : Dispatcher) (given : List Task) (handled : List (Task × Bool))
    : Type 0 where
  pub order : given ≡ tasks_of handled ++ (d.batch ++ d.task_list)
  pub idle : (is_performing d.place || is_empty d.batch) ≡ true
  pub cycle : d.dispatcher_cycle ≡ executed handled % 2 ^ 64

pub is_empty-empty : (ts : List Task) → is_empty ts ≡ true → ts ≡ []
is_empty-empty [] h = refl
is_empty-empty (t ∷ ts) h = absurd (ground (arith, h))

pub push_order :
    (given before batch tasks : List Task) (t : Task)
    → given ≡ before ++ (batch ++ tasks)
    → given ++ t ∷ [] ≡ before ++ (batch ++ (tasks ++ t ∷ []))
push_order given before batch tasks t h =
    ap (λ ts. ts ++ t ∷ []) h
    ∙ append_assoc before (batch ++ tasks) (t ∷ [])
    ∙ ap (λ ts. before ++ ts) (append_assoc batch tasks (t ∷ []))

pub push_if :
    (b : Bool) (n : ℕ) (t : Task) (d : Dispatcher) (given : List Task)
    (handled : List (Task × Bool))
    → IsOrdered d given handled
    → IsOrdered
        (if b then record d { task_list = d.task_list ++ t ∷ []; pending = n } else d)
        (if b then given ++ t ∷ [] else given)
        handled
push_if true n t d given handled h = record {
  order = push_order given (tasks_of handled) d.batch d.task_list t h.order;
  idle = h.idle;
  cycle = h.cycle;
}
push_if false n t d given handled h = h

notified-idle :
    (p : Place) (b : Bool)
    → (is_performing p || b) ≡ true
    → (is_performing (notified p) || b) ≡ true
unfolding is_performing notified
notified-idle looping b h = h
notified-idle waiting b h = h
notified-idle woken b h = h
notified-idle performing b h = h
notified-idle finished b h = h

pub notify_one-IsOrdered :
    (d : Dispatcher) (given : List Task) (handled : List (Task × Bool))
    → IsOrdered d given handled
    → IsOrdered (notify_one d) given handled
unfolding notify_one
notify_one-IsOrdered d given handled h = record {
  order = h.order;
  idle = notified-idle d.place (is_empty d.batch) h.idle;
  cycle = h.cycle;
}

pub swap-IsOrdered :
    (d : Dispatcher) (given : List Task) (handled : List (Task × Bool))
    → is_performing d.place ≡ false
    → IsOrdered d given handled
    → IsOrdered (swap d) given handled
unfolding swap is_performing
swap-IsOrdered d given handled away h =
    let none_left : d.batch ≡ [] =
      is_empty-empty d.batch (sym (ap (λ b. b || is_empty d.batch) away) ∙ h.idle) in
    record {
      order =
          h.order
          ∙ ap (λ ts. tasks_of handled ++ (ts ++ d.task_list)) none_left
          ∙ ap (λ ts. tasks_of handled ++ ts)
              (sym (append-nil d.task_list) ∙ ap (λ ts. d.task_list ++ ts) (sym none_left));
      idle = refl;
      cycle = h.cycle;
    }

-- A test of the loop, at a place outside the batch.
pub entered :
    (b1 b2 : Bool) (d : Dispatcher) (given : List Task) (handled : List (Task × Bool))
    → is_performing d.place ≡ false
    → IsOrdered d given handled
    → IsOrdered
        (if b1
          then record d { place = finished }
          else if b2
          then record d { place = waiting }
          else swap d)
        given
        handled
unfolding is_performing
entered true b2 d given handled away h = record {
  order = h.order;
  idle = sym (ap (λ b. b || is_empty d.batch) away) ∙ h.idle;
  cycle = h.cycle;
}
entered false true d given handled away h = record {
  order = h.order;
  idle = sym (ap (λ b. b || is_empty d.batch) away) ∙ h.idle;
  cycle = h.cycle;
}
entered false false d given handled away h = swap-IsOrdered d given handled away h

pub execute-IsOrdered :
    (f : TaskFunc) (d : Dispatcher) (given : List Task) (handled : List (Task × Bool))
    → IsOrdered d given handled
    → IsOrdered (execute f d) given handled
unfolding execute
execute-IsOrdered (game_call n) d given handled h = h
execute-IsOrdered terminate d given handled h =
    notify_one-IsOrdered (record d { thread_state = terminated }) given handled
      record { order = h.order; idle = h.idle; cycle = h.cycle }

take_order :
    (given before rest tasks : List Task) (t : Task)
    → given ≡ before ++ (t ∷ rest ++ tasks)
    → given ≡ (before ++ t ∷ []) ++ (rest ++ tasks)
take_order given before rest tasks t h = h ∙ sym (append_assoc before (t ∷ []) (rest ++ tasks))

dealt_order :
    (b : Bool) (given : List Task) (handled : List (Task × Bool)) (t : Task)
    (batch rest tasks : List Task)
    → batch ≡ t ∷ rest
    → given ≡ tasks_of handled ++ (batch ++ tasks)
    → given ≡ tasks_of (handled ++ (t, b) ∷ []) ++ (rest ++ tasks)
unfolding tasks_of
dealt_order b given handled t batch rest tasks first h =
    take_order given (tasks_of handled) rest tasks t
      (h ∙ ap (λ ts. tasks_of handled ++ (ts ++ tasks)) first)
    ∙ ap (λ ts. ts ++ (rest ++ tasks)) (sym (tasks_of-append handled ((t, b) ∷ [])))

-- One task of the batch, expired or not.
performed :
    (b : Bool) (t : Task) (rest : List Task) (d : Dispatcher) (given : List Task)
    (handled : List (Task × Bool))
    → d.place ≡ performing
    → d.batch ≡ t ∷ rest
    → IsOrdered d given handled
    → IsOrdered
        (if b
          then record d { batch = rest }
          else execute t.func
              (record d { batch = rest; dispatcher_cycle = (d.dispatcher_cycle + 1) % 2 ^ 64 }))
        given
        (handled ++ (t, not b) ∷ [])
unfolding is_performing executed
performed true t rest d given handled here first h = record {
  order = dealt_order false given handled t d.batch rest d.task_list first h.order;
  idle = ap (λ p. is_performing p || is_empty rest) here;
  cycle = omega (arith, h.cycle, executed-append handled ((t, false) ∷ []));
}
performed false t rest d given handled here first h = execute-IsOrdered t.func _ given _ record {
  order = dealt_order true given handled t d.batch rest d.task_list first h.order;
  idle = ap (λ p. is_performing p || is_empty rest) here;
  cycle = omega (arith, h.cycle, executed-append handled ((t, true) ∷ []));
}

pub perform-IsOrdered :
    (now : ℕ) (p : Place) (batch : List Task) (d s : Dispatcher) (given : List Task)
    (handled : List (Task × Bool))
    → p ≡ d.place
    → batch ≡ d.batch
    → IsOrdered d given handled
    → perform now p batch d ≡ some s
    → IsOrdered s given (deal now batch handled)
unfolding perform perform_task deal
perform-IsOrdered now performing (t ∷ rest) d s given handled here first h done =
    subst (λ u. IsOrdered u given (handled ++ (t, not (has_expired now t)) ∷ []))
      (some-injective _ _ done)
      (performed (has_expired now t) t rest d given handled (sym here) (sym first) h)
perform-IsOrdered now performing [] d s given handled here first h done =
    absurd (none-ne-some s done)
perform-IsOrdered now looping batch d s given handled here first h done =
    absurd (none-ne-some s done)
perform-IsOrdered now waiting batch d s given handled here first h done =
    absurd (none-ne-some s done)
perform-IsOrdered now woken batch d s given handled here first h done = absurd (none-ne-some s done)
perform-IsOrdered now finished batch d s given handled here first h done =
    absurd (none-ne-some s done)

pub finish-IsOrdered :
    (p : Place) (batch : List Task) (d s : Dispatcher) (given : List Task)
    (handled : List (Task × Bool))
    → batch ≡ d.batch
    → IsOrdered d given handled
    → finish p batch d ≡ some s
    → IsOrdered s given handled
unfolding finish is_performing
finish-IsOrdered performing [] d s given handled none_left h done =
    subst (λ u. IsOrdered u given handled) (some-injective _ _ done)
      record { order = h.order; idle = ap is_empty (sym none_left); cycle = h.cycle }
finish-IsOrdered performing (t ∷ rest) d s given handled none_left h done =
    absurd (none-ne-some s done)
finish-IsOrdered looping batch d s given handled none_left h done = absurd (none-ne-some s done)
finish-IsOrdered waiting batch d s given handled none_left h done = absurd (none-ne-some s done)
finish-IsOrdered woken batch d s given handled none_left h done = absurd (none-ne-some s done)
finish-IsOrdered finished batch d s given handled none_left h done = absurd (none-ne-some s done)
