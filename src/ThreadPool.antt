-- ===== src/ThreadPool.antt =====
-- eventloopthreadpool.h and eventloopthreadpool.cpp: the event loops, and which one comes next.
-- `L` is the type of the pointers to event loops, and `started i` is what the `Start` of the thread
-- made in round `i` returns.
pub mod RoundRobin
pub mod Started
mod Tests
use epoll_server.Base.{
  ℕ, zero, suc, ◌+◌, ◌<◌, ◌≡◌, refl, sym, ap, ◌∙◌, Bool, true, false, Option, none, some, List, [],
  ◌∷◌, ◌++◌, arith, ◌==◌, ==_ne, ==_eq, if◌then◌else◌, length, length-append, append-nil,
  append_assoc,
}

-- `sub_reactors` is the number of the threads.
pub record ThreadPool {ℓ} (L : Type ℓ) : Type ℓ where
  pub main_reactor : L
  pub sub_reactors : ℕ
  pub event_loops : List L
  pub thread_nums : ℕ
  pub next : ℕ

-- The element of a vector; out of range, there is none.
unfoldable pub loop_at {ℓ} : {L : Type ℓ} → List L → ℕ → Option L
loop_at [] i = none
loop_at (l ∷ ls) zero = some l
loop_at (l ∷ ls) (suc i) = loop_at ls i

module _ {ℓ} {L : Type ℓ} where
  unfoldable pub init : L → ThreadPool L
  init loop = record {
    main_reactor = loop;
    sub_reactors = 0;
    event_loops = [];
    thread_nums = 0;
    next = 0;
  }

  unfoldable pub set_thread_nums : ℕ → ThreadPool L → ThreadPool L
  set_thread_nums n p = record p { thread_nums = n }

  -- The loop of `Start`: `todo` rounds from round `i` on.
  unfoldable pub start_threads : (ℕ → L) → ℕ → ℕ → ThreadPool L → ThreadPool L
  start_threads started i zero p = p
  start_threads started i (suc todo) p = start_threads started (i + 1) todo (record p {
    sub_reactors = p.sub_reactors + 1;
    event_loops = p.event_loops ++ (started i ∷ []);
  })

  unfoldable pub start : (ℕ → L) → ThreadPool L → ThreadPool L
  unfolding start_threads
  start started p = start_threads started 0 p.thread_nums p

  -- `next++`, and back to 0 behind the last.
  abbrev pub advance : ThreadPool L → ℕ
  advance p = if p.next + 1 == p.sub_reactors then 0 else p.next + 1

  -- The loop that is returned, and the pool after the call; `none` if the index is out of range.
  unfoldable pub next_event_loop : ThreadPool L → Option (L × ThreadPool L)
  unfolding loop_at
  next_event_loop p =
      if p.sub_reactors == 0
      then some (p.main_reactor, p)
      else (elim (loop_at p.event_loops p.next) [
        | none ↦ none
        | some l ↦ some (l, record p { next = advance p })
      ])

  -- The loops that `n` calls one after the other return.
  unfoldable pub next_event_loops : ℕ → ThreadPool L → Option (List L × ThreadPool L)
  next_event_loops zero p = some ([], p)
  next_event_loops (suc n) p = elim (next_event_loop p) [
    | none ↦ none
    | some (l, q) ↦ (elim (next_event_loops n q) [ none ↦ none | some (ls, r) ↦ some (l ∷ ls, r) ])
  ]
