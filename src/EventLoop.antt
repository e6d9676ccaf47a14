-- ===== src/EventLoop.antt =====
-- eventloop.h and eventloop.cpp: the functions that a loop is asked to run, and how it is woken.
-- A function is a value of any type `A`, and `caller` is the id of the thread that makes a call. The
-- counter of the eventfd is a number; Setup has the eventfd itself and its channel.
pub mod Wakeup
pub mod Handling
pub mod Rounds
pub mod Setup
pub mod Polling
mod Tests
use epoll_server.Base.{
  ℕ, ◌+◌, Bool, true, false, not, ◌||◌, Option, none, some, List, [], ◌∷◌, ◌++◌, ◌==◌,
  if◌then◌else◌,
}

pub record EventLoop {ℓ} (A : Type ℓ) : Type ℓ where
  pub to_do_list : List A
  pub calling_funcs : Bool
  pub wakeup_count : ℕ
  pub tid : ℕ

module _ {ℓ} {A : Type ℓ} where
  -- The constructor leaves `tid_` uninitialised: its value is an argument.
  unfoldable pub init : ℕ → EventLoop A
  init tid = record { to_do_list = []; calling_funcs = false; wakeup_count = 0; tid = tid }

  abbrev pub is_in_loop_thread : ℕ → EventLoop A → Bool
  is_in_loop_thread caller l = caller == l.tid

  -- The write to the eventfd adds 1 to its counter.
  unfoldable pub queue_one_func : ℕ → A → EventLoop A → EventLoop A
  queue_one_func caller cb l =
      let queued : EventLoop A = record l { to_do_list = l.to_do_list ++ (cb ∷ []) } in
      if not (is_in_loop_thread caller l) || l.calling_funcs
      then record queued { wakeup_count = l.wakeup_count + 1 }
      else queued

  -- The function comes back if the caller is to run it at once.
  unfoldable pub run_one_func : ℕ → A → EventLoop A → EventLoop A × Option A
  run_one_func caller cb l =
      if is_in_loop_thread caller l then (l, some cb) else (queue_one_func caller cb l, none)

  -- `HandleToDoList` up to its loop: the functions that it will run are taken out.
  unfoldable pub take_funcs : EventLoop A → EventLoop A × List A
  take_funcs l = (record l { to_do_list = []; calling_funcs = true }, l.to_do_list)

  -- `HandleToDoList` after its loop.
  unfoldable pub end_funcs : EventLoop A → EventLoop A
  end_funcs l = record l { calling_funcs = false }

  -- A read of the eventfd sets its counter to 0 and gives eight bytes, or fails if it is 0 already:
  -- then the assertion does (`none`).
  unfoldable pub handle_read : EventLoop A → Option (EventLoop A)
  handle_read l = if l.wakeup_count == 0 then none else some (record l { wakeup_count = 0 })

-- The loop over the functions, run one after the other on the state of the program.
unfoldable pub run_funcs {ℓ κ} : {A : Type ℓ} {S : Type κ} → (A → S → S) → List A → S → S
run_funcs call [] s = s
run_funcs call (f ∷ fs) s = run_funcs call fs (call f s)

-- `HandleToDoList` and one round of `Start`, on a state that holds the loop.
module _ {ℓ κ} {A : Type ℓ} {S : Type κ} (get : S → EventLoop A) (put : EventLoop A → S → S)
    (call : A → S → S) where
  unfoldable pub handle_to_do_list : S → S
  unfolding run_funcs
  handle_to_do_list s =
      let (l, funcs) = take_funcs (get s) in
      let t : S = run_funcs call funcs (put l s) in put (end_funcs (get t)) t

  -- The events of the ready channels in turn, and then the functions; `none` is an event in which an
  -- assertion fails.
  unfoldable pub loop_round : List (S → Option S) → S → Option S
  unfolding handle_to_do_list
  loop_round [] s = some (handle_to_do_list s)
  loop_round (handle_event ∷ events) s = elim (handle_event s) [
    | none ↦ none
    | some t ↦ loop_round events t
  ]
