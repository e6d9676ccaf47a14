-- ===== src/ThreadPool/Started.antt =====
-- The pool after `SetThreadNums` and `Start`.
use epoll_server.Base.{
  ℕ, zero, suc, ◌+◌, ◌≡◌, refl, sym, ap, ◌∙◌, subst, some, List, [], ◌∷◌, ◌++◌, arith, length,
  append-nil, append_assoc,
}
use epoll_server.ThreadPool.{
  ThreadPool, init, set_thread_nums, start, start_threads, next_event_loops,
}
use epoll_server.ThreadPool.RoundRobin.{next_event_loops-round}

module _ {ℓ} {L : Type ℓ} where
  -- What the threads of the rounds from `i` on return.
  unfoldable pub threads : (ℕ → L) → ℕ → ℕ → List L
  threads started i zero = []
  threads started i (suc n) = started i ∷ threads started (i + 1) n

  start_threads_lem :
      (started : ℕ → L) (n i : ℕ) (p : ThreadPool L)
      → start_threads started i n p ≡ record p {
        sub_reactors = p.sub_reactors + n;
        event_loops = p.event_loops ++ threads started i n;
      }
  unfolding start_threads threads
  start_threads_lem started zero i p =
      ap (λ ls. record p { event_loops = ls }) (sym (append-nil p.event_loops))
      ∙ ap (λ c. record p { sub_reactors = c; event_loops = p.event_loops ++ [] }) (omega arith)
  start_threads_lem started (suc n) i p =
      start_threads_lem started n (i + 1) _
      ∙ ap
          (λ c. record p {
            sub_reactors = c;
            event_loops = (p.event_loops ++ (started i ∷ [])) ++ threads started (i + 1) n;
          })
          (omega arith)
      ∙ ap (λ ls. record p { sub_reactors = p.sub_reactors + suc n; event_loops = ls })
          (append_assoc p.event_loops (started i ∷ []) (threads started (i + 1) n))

  length-threads : (started : ℕ → L) (n i : ℕ) → length (threads started i n) ≡ n
  unfolding threads
  length-threads started zero i = refl
  length-threads started (suc n) i = omega (arith, length-threads started n (i + 1))

  -- The pool on which SetThreadNums(n) and Start have been called.
  abbrev pub running : L → (ℕ → L) → ℕ → ThreadPool L
  running main started n = start started (set_thread_nums n (init main))

  -- A pool of `suc n` threads, whose next loop is the first.
  abbrev full : L → (ℕ → L) → ℕ → ThreadPool L
  full main started n = record {
    main_reactor = main;
    sub_reactors = suc n;
    event_loops = threads started 0 (suc n);
    thread_nums = suc n;
    next = 0;
  }

  running-full :
      (main : L) (started : ℕ → L) (n : ℕ) → running main started (suc n) ≡ full main started n
  unfolding start set_thread_nums init
  running-full main started n =
      start_threads_lem started (suc n) 0 (set_thread_nums (suc n) (init main))
      ∙ ap (λ c. record (full main started n) { sub_reactors = c }) (omega arith)

  full-round :
      (main : L) (started : ℕ → L) (n : ℕ)
      → next_event_loops (suc n) (full main started n)
        ≡ some (threads started 0 (suc n), full main started n)
  unfolding threads
  full-round main started n =
      next_event_loops-round [] (threads started 1 n) (started 0) (full main started n) refl
        (omega (arith, length-threads started n 1)) refl
      ∙ ap (λ ls. some (started 0 ∷ ls, full main started n)) (append-nil (threads started 1 n))

  -- After SetThreadNums with at least one thread, and Start, every as many calls of NextEventLoop as
  -- there are threads return the loop of each thread once, in the order in which they were started, and
  -- leave the pool as it was.
  pub next_event_loops-running :
      (main : L) (started : ℕ → L) (n : ℕ)
      → next_event_loops (suc n) (running main started (suc n))
        ≡ some (threads started 0 (suc n), running main started (suc n))
  next_event_loops-running main started n =
      subst (λ p. next_event_loops (suc n) p ≡ some (threads started 0 (suc n), p))
        (sym (running-full main started n)) (full-round main started n)
