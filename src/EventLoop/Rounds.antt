-- ===== src/EventLoop/Rounds.antt =====
-- `HandleToDoList` and a round of `Start` against the steps of Wakeup, for functions and events that
-- may hand further functions to the loop that runs them.
use epoll_server.Base.{
  ℕ, ◌≡◌, refl, sym, ap, ◌∙◌, Option, none, some, List, [], ◌∷◌, ◌++◌, append-nil, append_assoc,
  arith,
}
use epoll_server.EventLoop.{take_funcs, run_funcs, handle_to_do_list, loop_round}
use epoll_server.EventLoop.Wakeup.{
  waiting, handling, calling, wake, take_list, run_next, sleep, Reach, here, next, calling≢waiting,
  IsKept, Reach-IsKept,
}
use epoll_server.EventLoop.Handling.{
  Trace, Event, at, put_loop, IsReported, trans, queue_all, handle, handlers, handle_all,
  queue_all-Reach, queue_all-ran, handle_all-Reach, reported_return,
}

module _ {ℓ} {A : Type ℓ} where
  -- `self` is what `CurrentThread::tid` gives on the loop's thread.
  module _ (self : ℕ) where
    module _ (hands_over : A → List A) where
      -- The function `f` is run: it hands over its own.
      abbrev pub call : A → Trace A → Trace A
      call f s = queue_all self (hands_over f) (record s { ran = s.ran ++ (f ∷ []) })

      abbrev handle_funcs : Trace A → Trace A
      handle_funcs s = handle_to_do_list (λ t. t.loop) put_loop call s

      run_funcs-Reach :
          (fs : List A) (s : Trace A)
          → Reach (at (calling fs) s) (at (calling []) (run_funcs call fs s))
      unfolding run_funcs
      run_funcs-Reach [] s = here
      run_funcs-Reach (f ∷ fs) s =
          trans
            (trans (next here (run_next refl))
              (queue_all-Reach self (hands_over f) (calling fs) _ (calling≢waiting refl)))
            (run_funcs-Reach fs (call f s))

      handle_to_do_list-Reach : (s : Trace A) → Reach (at handling s) (at waiting (handle_funcs s))
      unfolding handle_to_do_list
      handle_to_do_list-Reach s =
          next (trans (next here (take_list refl)) (run_funcs-Reach _ _)) (sleep refl)

      run_funcs-ran : (fs : List A) (s : Trace A) → (run_funcs call fs s).ran ≡ s.ran ++ fs
      unfolding run_funcs
      run_funcs-ran [] s = sym (append-nil s.ran)
      run_funcs-ran (f ∷ fs) s =
          run_funcs-ran fs (call f s)
          ∙ ap (λ r. r ++ fs) (queue_all-ran self (hands_over f) _)
          ∙ append_assoc s.ran (f ∷ []) fs

      handle_to_do_list-ran : (s : Trace A) → (handle_funcs s).ran ≡ s.ran ++ s.loop.to_do_list
      unfolding handle_to_do_list take_funcs
      handle_to_do_list-ran s = run_funcs-ran s.loop.to_do_list _

      -- A round of the loop.
      abbrev pub round : List (Event A) → Trace A → Option (Trace A)
      round events s = loop_round (λ t. t.loop) put_loop call (handlers self events) s

      abbrev and_funcs : Option (Trace A) → Option (Trace A)
      and_funcs none = none
      and_funcs (some u) = some (handle_funcs u)

      round_parts :
          (es : List (Event A)) (s : Trace A) → round es s ≡ and_funcs (handle_all self es s)
      unfolding loop_round handle_all
      round_parts [] s = refl
      round_parts (e ∷ es) s = by_event (round_parts es) (handle self e s)
        where
          by_event :
              ((t : Trace A) → round es t ≡ and_funcs (handle_all self es t))
              → (o : Option (Trace A))
              → (elim o [
                | none ↦ none
                | some t ↦ loop_round (λ t. t.loop) put_loop call (handlers self es) t
              ])
                ≡ and_funcs (elim o [ none ↦ none | some t ↦ handle_all self es t ])
          by_event later none = refl
          by_event later (some t) = later t

      -- Let epoll_wait report any channels, that of the eventfd at most once and only when it is readable,
      -- and let the callbacks and the functions that run hand any functions to the loop, whether or not the
      -- thread takes itself for the loop's own. Then no assertion fails, and a round of Start, from
      -- epoll_wait and back to it, is made of the steps that the loop's thread takes in Wakeup. From a
      -- state in which IsKept holds, it runs, once each and in order, exactly the functions that are in the
      -- list when the callbacks are done, none of those that the functions themselves hand over; and IsKept
      -- holds again when the loop is back in epoll_wait, so that these wait in the list with the eventfd
      -- readable.
      pub loop_round_runs :
          (events : List (Event A)) (s : Trace A)
          → IsReported events s.loop.wakeup_count
          → IsKept (at waiting s)
          → (u t : Trace A) × (handle_all self events s ≡ some u)
            × (round events s ≡ some t)
            × Reach (at waiting s) (at waiting t)
            × (t.ran ≡ s.ran ++ u.loop.to_do_list)
            × IsKept (at waiting t)
      loop_round_runs events s reported k = by_all (handle_all self events s) refl
        where
          by_all :
              (o : Option (Trace A))
              → handle_all self events s ≡ o
              → (u t : Trace A) × (handle_all self events s ≡ some u)
                × (round events s ≡ some t)
                × Reach (at waiting s) (at waiting t)
                × (t.ran ≡ s.ran ++ u.loop.to_do_list)
                × IsKept (at waiting t)
          by_all none e =
              absurd (reported_return self events s.loop.wakeup_count s (omega arith) reported e)
          by_all (some u) e =
              let (handled, same) = handle_all-Reach self events s u e in
              let reach : Reach (at waiting s) (at waiting (handle_funcs u)) =
                trans (trans (next here (wake refl)) handled) (handle_to_do_list-Reach u) in
              (
                u,
                handle_funcs u,
                e,
                round_parts events s ∙ ap and_funcs e,
                reach,
                handle_to_do_list-ran u ∙ ap (λ r. r ++ u.loop.to_do_list) same,
                Reach-IsKept reach k,
              )
