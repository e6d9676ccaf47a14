-- ===== src/EventLoopThread/Handshake.antt =====
-- What holds of `Start` and `ThreadRunFunc`, however their steps follow on each other.
use Prim.Native.String.{String}
use epoll_server.Base.{ℕ, ◌≡◌, refl, sym, Option, none, some, none≢some, subst}
use epoll_server.Channel.State as ChannelState
use epoll_server.Channel.Enable.{enable_read}
use epoll_server.Logger.Process.{
  Outcome, returns, terminates, asserts, ◌>>=◌, Reply, succeeds, fails, in_file, log_info,
  log_fatal,
}
use epoll_server.EventLoop
use epoll_server.Epoller
use epoll_server.EventLoop.Setup.{Reactor, LoopReplies, construct, with_eventfd}
use epoll_server.EventLoopThread.{
  Starter, checking, sleeping, returned, Runner, starting, terminated, built, stored, looping,
  Loggers, EventLoopThread, init, tested, check, notified, publish, log_in_thread, make_loop,
  make_loops, after_loops, build, announce, Step, checks, wakes, builds, publishes, announces,
  Reach, here, next,
}

module _ {A : Type 0} where
  -- The loop that the constructor makes when its eventfd is this.
  abbrev pub loop_on : Reply ℕ → LoopReplies → Option (Reactor A)
  loop_on (fails err) r = none
  loop_on (succeeds fd) r = some (record {
    loop = EventLoop.init r.tid;
    epoller = Epoller.construct r.epoll_create;
    wakeup_event_fd = fd;
    wakeup_channel = enable_read r.ctl_ok (ChannelState.init fd r.tied);
  })

  -- The loop that is left of the two that are made: the second, if both have an eventfd.
  abbrev pub second_loop : Reply ℕ → Reply ℕ → LoopReplies → Option (Reactor A)
  second_loop (fails err) fd r = none
  second_loop (succeeds n) fd r = loop_on fd r

  abbrev pub made : LoopReplies → LoopReplies → Option (Reactor A)
  made first second = second_loop first.eventfd second.eventfd second

  abbrev pub Agrees : Starter A → Option (Reactor A) → Type 0
  Agrees checking loop = Unit {0}
  Agrees sleeping loop = loop ≡ none
  Agrees (returned l) loop = loop ≡ some l

  abbrev pub Stands : Option (Reactor A) → Runner A → Option (Reactor A) → Type 0
  Stands made starting loop = loop ≡ none
  Stands made terminated loop = (loop ≡ none) × (made ≡ none)
  Stands made (built l) loop = (loop ≡ none) × (made ≡ some l)
  Stands made (stored l) loop = (loop ≡ some l) × (made ≡ some l)
  Stands made (looping l) loop = (loop ≡ some l) × (made ≡ some l)

  -- What is to hold: `Start` sleeps only while no loop is stored, and has returned only the one stored. A loop is
  -- stored only when both loops could be made, and then it is the second; the process ends only when not.
  pub record IsSafe (made : Option (Reactor A)) (t : EventLoopThread A) : Type 0 where
    pub agrees : Agrees t.starter t.event_loop
    pub stands : Stands made t.runner t.event_loop

  tested-Agrees : (loop : Option (Reactor A)) → Agrees (tested loop) loop
  tested-Agrees none = refl
  tested-Agrees (some l) = refl

  check-IsSafe :
      {made : Option (Reactor A)} (t : EventLoopThread A) → IsSafe made t → IsSafe made (check t)
  unfolding check
  check-IsSafe t s = record { agrees = tested-Agrees t.event_loop; stands = s.stands }

  notified-Agrees :
      (starter : Starter A) (loop : Reactor A)
      → Agrees starter none
      → Agrees (notified starter) (some loop)
  notified-Agrees checking loop h = tt
  notified-Agrees sleeping loop h = tt
  notified-Agrees (returned l) loop h = absurd (none≢some h)

  publish-IsSafe :
      {made : Option (Reactor A)} (loop : Reactor A) (t : EventLoopThread A)
      → t.runner ≡ built loop
      → IsSafe made t
      → IsSafe made (publish loop t)
  unfolding publish
  publish-IsSafe {made} loop t e s =
      let (nothing, is_made) = subst (λ r. Stands made r t.event_loop) e s.stands in
      record {
        agrees = notified-Agrees t.starter loop (subst (Agrees t.starter) nothing s.agrees);
        stands = (refl, is_made);
      }

-- How the making of a loop may end, when it makes this one or none.
abbrev pub Made : {A : Type 0} → Option (Reactor A) → Outcome Loggers (Reactor A) → Type 0
Made made (returns l ls) = made ≡ some l
Made made (terminates ls) = made ≡ none
Made made asserts = ⊥

module _ (A : Type 0) (thread : ℕ) where
  make_loop-Made :
      (r : LoopReplies) (ls : Loggers) → Made {A = A} (loop_on r.eventfd r) (make_loop thread r ls)
  unfolding make_loop construct with_eventfd log_fatal
  make_loop-Made r ls = by_reply r.eventfd
    where
      by_reply :
          (fd : Reply ℕ)
          → Made {A = A} (loop_on fd r) (
              in_file
                (λ ls. ls.eventloop)
                (λ l ls. record ls { eventloop = l })
                (with_eventfd thread fd r)
                ls)
      by_reply (succeeds fd) = refl
      by_reply (fails err) = refl

  second-first :
      (a b : Reply ℕ) (first second : LoopReplies) (l : Reactor A)
      → loop_on a first ≡ some l
      → second_loop {A = A} a b second ≡ loop_on b second
  second-first (succeeds n) b first second l e = refl
  second-first (fails err) b first second l e = absurd (none≢some e)

  no_second :
      (a b : Reply ℕ) (first second : LoopReplies)
      → loop_on {A = A} a first ≡ none
      → second_loop {A = A} a b second ≡ none
  no_second (succeeds n) b first second e = absurd (none≢some (sym e))
  no_second (fails err) b first second e = refl

  -- The first loop, and then the other.
  both-Made :
      (first second : LoopReplies) (o : Outcome Loggers (Reactor A)) (ls : Loggers)
      → Made (loop_on first.eventfd first) o
      → Made {A = A} (made first second) (◌>>=◌ (λ _. o) (λ _. make_loop thread second) ls)
  both-Made first second (returns l k) ls m =
      subst (λ o. Made o (make_loop thread second k))
        (sym (second-first first.eventfd second.eventfd first second l m)) (make_loop-Made second k)
  both-Made first second (terminates k) ls m = no_second first.eventfd second.eventfd first second m
  both-Made first second asserts ls m = absurd m

module _ (A : Type 0) (number : ℕ → String) (thread : ℕ) (first second : LoopReplies) where
  make_loops-Made :
      (ls : Loggers) → Made {A = A} (made first second) (make_loops number thread first second ls)
  unfolding make_loops log_in_thread log_info
  make_loops-Made ls =
      both-Made A thread first second (make_loop thread first _) ls
        (make_loop-Made A thread first _)

module _ {A : Type 0} (number : ℕ → String) (thread : ℕ) (first second : LoopReplies) where
  announce-IsSafe :
      (loop : Reactor A) (t : EventLoopThread A)
      → t.runner ≡ stored loop
      → IsSafe (made first second) t
      → IsSafe (made first second) (announce number thread loop t)
  unfolding announce log_in_thread log_info
  announce-IsSafe loop t e s = record {
    agrees = s.agrees;
    stands = subst (λ r. Stands (made first second) r t.event_loop) e s.stands;
  }

  after_loops-IsSafe :
      (o : Outcome Loggers (Reactor A)) (t : EventLoopThread A)
      → t.event_loop ≡ none
      → Made (made first second) o
      → IsSafe (made first second) t
      → IsSafe (made first second) (after_loops o t)
  after_loops-IsSafe (returns l ls) t e m s = record { agrees = s.agrees; stands = (e, m) }
  after_loops-IsSafe (terminates ls) t e m s = record { agrees = s.agrees; stands = (e, m) }
  after_loops-IsSafe asserts t e m s = absurd m

  build-IsSafe :
      (t : EventLoopThread A)
      → t.runner ≡ starting
      → IsSafe (made first second) t
      → IsSafe (made first second) (build number thread first second t)
  unfolding build
  build-IsSafe t e s =
      after_loops-IsSafe (make_loops number thread first second t.loggers) t
        (subst (λ r. Stands (made first second) r t.event_loop) e s.stands)
        (make_loops-Made A number thread first second t.loggers) s

  pub Step-IsSafe :
      {t u : EventLoopThread A}
      → Step number thread first second t u
      → IsSafe (made first second) t
      → IsSafe (made first second) u
  Step-IsSafe {t} (checks alive e) s = check-IsSafe t s
  Step-IsSafe {t} (wakes alive e) s = record { agrees = tt; stands = s.stands }
  Step-IsSafe {t} (builds e) s = build-IsSafe t e s
  Step-IsSafe {t} (publishes loop e) s = publish-IsSafe loop t e s
  Step-IsSafe {t} (announces loop e) s = announce-IsSafe loop t e s

  pub Reach-IsSafe :
      (loggers : Loggers) {t : EventLoopThread A}
      → Reach number thread first second (init loggers) t
      → IsSafe (made first second) t
  unfolding init
  Reach-IsSafe loggers here = record { agrees = tt; stands = refl }
  Reach-IsSafe loggers (next reach step) = Step-IsSafe step (Reach-IsSafe loggers reach)
