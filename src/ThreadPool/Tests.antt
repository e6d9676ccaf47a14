-- ===== src/ThreadPool/Tests.antt =====
-- The pool at concrete numbers of threads; a loop is the number of its thread.
use epoll_server.Base.{ℕ, ◌≡◌, refl, some, [], ◌∷◌}
use epoll_server.ThreadPool.{
  ThreadPool, init, set_thread_nums, start, start_threads, next_event_loop, next_event_loops,
}
use epoll_server.ThreadPool.RoundRobin.{next_event_loops-round}
use epoll_server.ThreadPool.Started.{threads, running, next_event_loops-running}

-- Three loops, of which the last comes next.
abbrev three : ThreadPool ℕ
three = record {
  main_reactor = 9;
  sub_reactors = 3;
  event_loops = 0 ∷ 1 ∷ 2 ∷ [];
  thread_nums = 3;
  next = 2;
}

next_event_loops-round_example : next_event_loops 3 three ≡ some (2 ∷ 0 ∷ 1 ∷ [], three)
next_event_loops-round_example = next_event_loops-round (0 ∷ 1 ∷ []) [] 2 three refl refl refl

two_running_threads :
    next_event_loops 2 (running 9 (λ i. i) 2) ≡ some (0 ∷ 1 ∷ [], running 9 (λ i. i) 2)
unfolding threads
two_running_threads = next_event_loops-running 9 (λ i. i) 1

-- Without threads, the main reactor serves all connections.
no_threads-main : next_event_loop (running 9 (λ i. i) 0) ≡ some (9, running 9 (λ i. i) 0)
unfolding next_event_loop start start_threads set_thread_nums init
no_threads-main = refl
