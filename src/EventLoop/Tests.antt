-- ===== src/EventLoop/Tests.antt =====
-- The theorem on the loop's functions at a concrete run: another thread hands over a function, which
-- hands over one more, and the loop goes back to epoll_wait.
use epoll_server.Base.{
  ◌++◌, none, some, ℕ, ◌*◌, ◌≡◌, ltb, if◌then◌else◌, refl, List, [], ◌∷◌, false, arith,
}
use epoll_server.EventLoop.{
  init, queue_one_func, take_funcs, end_funcs, handle_read, run_funcs, handle_to_do_list,
  loop_round,
}
use epoll_server.EventLoop.Wakeup.{
  Running, post, queue_own, wake, drain, take_list, run_next, sleep, Reach, here, next, IsKept,
  starting, starting-IsKept, queue, Reach-IsKept, waiting, calling≢waiting,
}
use epoll_server.EventLoop.Rounds.{round, loop_round_runs}
use epoll_server.EventLoop.Handling.{Trace, Event, wakeup, ready, at, queue_all, handle_all}

abbrev posted : Running ℕ
posted = queue 2 7 (starting 1)

abbrev last : Running ℕ
unfolding init queue_one_func
last = record {
  loop = record { to_do_list = 8 ∷ []; calling_funcs = false; wakeup_count = 1; tid = 1 };
  pc = waiting;
  handed = 7 ∷ 8 ∷ [];
  ran = 7 ∷ [];
}

trace : Reach (starting 1) last
unfolding init queue_one_func take_funcs end_funcs handle_read
trace =
    next
      (next
        (next
          (next
            (next (next (next here (post 2 7 (λ e. absurd (omega arith)))) (wake refl))
              (drain refl refl))
            (take_list refl))
          (run_next refl))
        (queue_own 1 8 (calling≢waiting refl)))
      (sleep refl)

Reach-IsKept_example : IsKept last
Reach-IsKept_example = Reach-IsKept trace (starting-IsKept 1)

-- The function 7 hands over 70.
abbrev ten_times : ℕ → List ℕ
ten_times n = if ltb n 10 then n * 10 ∷ [] else []

abbrev woken : Trace ℕ
unfolding init queue_one_func
woken = record { loop = queue_one_func 2 7 (init 1); handed = 7 ∷ []; ran = [] }

woken-Reach : Reach (starting 1) (at waiting woken)
unfolding init queue_one_func
woken-Reach = next here (post 2 7 (λ e. absurd (omega arith)))

woken-IsKept : IsKept (at waiting woken)
woken-IsKept = Reach-IsKept woken-Reach (starting-IsKept 1)

abbrev events : List (Event ℕ)
events = wakeup ∷ ready (20 ∷ []) ∷ []

loop_round_runs_example :
    (u t : Trace ℕ) × (handle_all 3 events woken ≡ some u)
    × (round 3 ten_times events woken ≡ some t)
    × Reach (at waiting woken) (at waiting t)
    × (t.ran ≡ [] ++ u.loop.to_do_list)
    × IsKept (at waiting t)
unfolding init queue_one_func
loop_round_runs_example = loop_round_runs 3 ten_times events woken (omega arith) woken-IsKept

-- An event of an eventfd whose counter is at 0: the assertion fails.
not_readable : round 1 ten_times (wakeup ∷ []) (record woken { loop = init 1 }) ≡ none
unfolding init loop_round handle_read
not_readable = refl

-- The thread of this round does not take itself for the loop's own: it wakes the loop for the function 20.
round_of_another : (t : Trace ℕ) × (round 3 ten_times events woken ≡ some t) × (t.ran ≡ 7 ∷ 20 ∷ [])
unfolding init queue_one_func loop_round handle_to_do_list take_funcs end_funcs run_funcs
    handle_read queue_all
round_of_another = (_, refl, refl)
