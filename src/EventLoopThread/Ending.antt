-- ===== src/EventLoopThread/Ending.antt =====
-- No wakeup is lost between `ThreadRunFunc` and `Start`, and the two come to an end.
use Prim.Native.String.{String}
use epoll_server.Base.{
  ℕ, ◌≡◌, ◌≢◌, refl, sym, ap, ◌∙◌, Bool, true, false, Option, none, some, none≢some, subst,
  false≢true, inl, inr, ◌⊎◌,
}
use epoll_server.Logger.Process.{Outcome, returns, terminates, asserts}
use epoll_server.EventLoop.Setup.{Reactor, LoopReplies}
use epoll_server.EventLoopThread.{
  Starter, checking, sleeping, returned, Runner, starting, terminated, built, stored, looping,
  Loggers, EventLoopThread, init, tested, check, publish, build, after_loops, make_loops, is_alive,
  Step, checks, builds, publishes, Reach, here, next,
}
use epoll_server.EventLoopThread.Handshake.{made, Agrees, Stands, IsSafe, Step-IsSafe, Reach-IsSafe}

module _ {A : Type 0} where
  -- `Start` has returned this loop; or the process has ended.
  abbrev pub Ended : Option (Reactor A) → EventLoopThread A → Type 0
  Ended none t = t.runner ≡ terminated
  Ended (some l) t = t.starter ≡ returned l

  abbrev is_starting : Runner A → Bool
  is_starting starting = true
  is_starting _ = false

  after_loops-started :
      (o : Outcome Loggers (Reactor A)) (t : EventLoopThread A)
      → (after_loops o t).runner ≢ starting
  after_loops-started (returns l ls) t e = false≢true (ap is_starting e)
  after_loops-started (terminates ls) t e = false≢true (ap is_starting e)
  after_loops-started asserts t e = false≢true (ap is_starting e)

  starting_cases : (r : Runner A) → (r ≡ starting) ⊎ (r ≢ starting)
  starting_cases starting = inl refl
  starting_cases terminated = inr (λ e. false≢true (ap is_starting e))
  starting_cases (built l) = inr (λ e. false≢true (ap is_starting e))
  starting_cases (stored l) = inr (λ e. false≢true (ap is_starting e))
  starting_cases (looping l) = inr (λ e. false≢true (ap is_starting e))

  not_sleeping :
      {made : Option (Reactor A)} (l : Reactor A) (t : EventLoopThread A)
      → IsSafe made t
      → t.event_loop ≡ some l
      → t.starter ≢ sleeping
  not_sleeping l t s at asleep =
      none≢some (sym (subst (λ p. Agrees p t.event_loop) asleep s.agrees) ∙ at)

module _ {A : Type 0} (number : ℕ → String) (thread : ℕ) (first second : LoopReplies) where
  -- No wakeup is lost: once ThreadRunFunc has stored its loop, `Start` does not sleep, and its next test
  -- of the condition makes it return that loop.
  pub Reach-check :
      (loggers : Loggers) (l : Reactor A) {t : EventLoopThread A}
      → Reach number thread first second (init loggers) t
      → t.event_loop ≡ some l
      → (t.starter ≢ sleeping) × ((check t).starter ≡ returned l)
  unfolding check
  Reach-check loggers l {t} reach at =
      (not_sleeping l t (Reach-IsSafe number thread first second loggers reach) at, ap tested at)

  -- Behind the store, `Start` returns.
  return_from :
      (start : EventLoopThread A) (l : Reactor A) (t : EventLoopThread A)
      → Reach number thread first second start t
      → is_alive t.runner ≡ true
      → IsSafe (made first second) t
      → t.event_loop ≡ some l
      → (u : EventLoopThread A) × Reach number thread first second start u
        × (u.starter ≡ returned l)
  unfolding check
  return_from start l t reach alive s at = by_starter t.starter refl
    where
      by_starter :
          (p : Starter A)
          → t.starter ≡ p
          → (u : EventLoopThread A) × Reach number thread first second start u
            × (u.starter ≡ returned l)
      by_starter checking e = (check t, next reach (checks alive e), ap tested at)
      by_starter sleeping e = absurd (not_sleeping l t s at e)
      by_starter (returned k) e =
          let same : t.event_loop ≡ some k = subst (λ p. Agrees p t.event_loop) e s.agrees in
          (t, reach, e ∙ ap returned (cc))

  -- From the store on, and then from the made loops on.
  end_stored :
      (start : EventLoopThread A) (l : Reactor A) (t : EventLoopThread A)
      → Reach number thread first second start t
      → is_alive t.runner ≡ true
      → IsSafe (made first second) t
      → (t.event_loop ≡ some l) × (made first second ≡ some l)
      → (u : EventLoopThread A) × Reach number thread first second start u
        × Ended (made first second) u
  end_stored start l t reach alive s (at, is_made) =
      let (u, on, back) = return_from start l t reach alive s at in
      (u, on, subst (λ m. Ended m u) (sym is_made) back)

  end_built :
      (start : EventLoopThread A) (l : Reactor A) (t : EventLoopThread A)
      → Reach number thread first second start t
      → t.runner ≡ built l
      → IsSafe (made first second) t
      → made first second ≡ some l
      → (u : EventLoopThread A) × Reach number thread first second start u
        × Ended (made first second) u
  unfolding publish
  end_built start l t reach e s is_made =
      let step : Step number thread first second t (publish l t) = publishes l e in
      end_stored start l (publish l t) (next reach step) refl
        (Step-IsSafe number thread first second step s) (refl, is_made)

  end_later :
      (start t : EventLoopThread A)
      → Reach number thread first second start t
      → t.runner ≢ starting
      → IsSafe (made first second) t
      → (u : EventLoopThread A) × Reach number thread first second start u
        × Ended (made first second) u
  end_later start t reach later s = by_runner t.runner refl s.stands
    where
      by_runner :
          (r : Runner A)
          → t.runner ≡ r
          → Stands (made first second) r t.event_loop
          → (u : EventLoopThread A) × Reach number thread first second start u
            × Ended (made first second) u
      by_runner starting e h = absurd (later e)
      by_runner terminated e h = (t, reach, subst (λ m. Ended m t) (sym h.1) e)
      by_runner (built l) e h = end_built start l t reach e s h.1
      by_runner (stored l) e h = end_stored start l t reach (ap is_alive e) s h
      by_runner (looping l) e h = end_stored start l t reach (ap is_alive e) s h

  build-started : (t : EventLoopThread A) → (build number thread first second t).runner ≢ starting
  unfolding build
  build-started t = after_loops-started (make_loops number thread first second t.loggers) t

  -- However the steps of `Start` and of ThreadRunFunc and spurious wakeups have followed on each other:
  -- `Start` sleeps only while no loop is stored, and if it has returned, then with the one that is stored,
  -- which is the second that ThreadRunFunc makes; it is stored only if both loops could be made, and the
  -- process has ended only if not. And from there the two can always go on to the end: to `Start`'s return
  -- of this loop, if both loops get an eventfd, and to the end of the process, if one does not.
  pub Reach-Ended :
      (loggers : Loggers) {t : EventLoopThread A}
      → Reach number thread first second (init loggers) t
      → IsSafe (made first second) t
        × (u : EventLoopThread A) × Reach number thread first second t u
        × Ended (made first second) u
  Reach-Ended loggers {t} reach =
      let s : IsSafe (made first second) t =
        Reach-IsSafe number thread first second loggers reach in
      let (u, on, ends) = go_on (starting_cases t.runner) s in (s, u, on, ends)
    where
      go_on :
          (t.runner ≡ starting) ⊎ (t.runner ≢ starting)
          → IsSafe (made first second) t
          → (u : EventLoopThread A) × Reach number thread first second t u
            × Ended (made first second) u
      go_on (inl e) s =
          let step : Step number thread first second t (build number thread first second t) =
            builds e in
          end_later t (build number thread first second t) (next here step) (build-started t)
            (Step-IsSafe number thread first second step s)
      go_on (inr later) s = end_later t t here later s
