-- ===== src/Channel/Tests.antt =====
-- Tests of channels and of the epoller, and their theorems at concrete inputs.
use epoll_server.Base.{
  ℕ, ◌+◌, ◌*◌, ◌≡◌, ◌≢◌, ◌↔◌, refl, Bool, true, false, Option, none, some, List, [], ◌∷◌, arith,
  ◌==◌, if◌then◌else◌, has,
}
use epoll_server.Channel.State.{Channel, epollet}
use epoll_server.Channel.Dispatch.{handle_event, handle_event_lem}
use epoll_server.Channel.Enable.{enable_et, enable_read, enable_write}
use epoll_server.Channel.Interest.{enable_adds}
use epoll_server.Epoller.{CtlOp, add, modify, delete, update_op}
use epoll_server.Epoller.Wait.{Event, Channels, epoll, marked, reported, epoll_lem}
use epoll_server.Epoller.Registration.{
  EpollInstance, Call, call_enable_et, call_enable_read, call_enable_write, call_delete, Mirrors,
  run, run-Mirrors,
}

abbrev fresh : Channel
fresh = record {
  client_fd = 5;
  listening_events = 0;
  ready_events = 0;
  in_epoll = false;
  failed = false;
  tied = false;
}

enabled_fresh :
    (has (enable_et true fresh).listening_events epollet ≡ true)
    × (has (enable_read true fresh).listening_events epollet ≡ false)
    × (has (enable_write true fresh).listening_events epollet ≡ false)
enabled_fresh = enable_adds true fresh epollet

-- The callbacks count in units and in tens; the mask stands beside the count.
abbrev Counter : Type 0
Counter = ℕ × ℕ

abbrev on_read : Counter → Counter
on_read (mask, n) = (mask, n + 1)

abbrev on_write : Counter → Counter
on_write (mask, n) = (mask, n * 10)

both_callbacks :
    handle_event (λ (s : Counter). s.0) (some on_read) (some on_write) true false (0x2004, 3)
    ≡ (0x2004, 40)
both_callbacks =
    handle_event_lem (λ (s : Counter). s.0) (some on_read) (some on_write) true false (0x2004, 3)
      refl

-- EPOLLERR and EPOLLHUP alone run no callback.
hang_up_ignored :
    handle_event (λ (s : Counter). s.0) (some on_read) (some on_write) true true (0x18, 3)
    ≡ (0x18, 3)
hang_up_ignored =
    handle_event_lem (λ (s : Counter). s.0) (some on_read) (some on_write) true true (0x18, 3) refl

abbrev two_events : List Event
two_events = record { ptr = 1; events = 4 } ∷ record { ptr = 2; events = 1 } ∷ []

abbrev all_fresh : Channels
all_fresh p = fresh

two_reported :
    ((epoll (some two_events) all_fresh).0 2 ≡ record fresh { ready_events = 1 })
    × ((epoll (some two_events) all_fresh).1 ≡ 1 ∷ 2 ∷ [])
unfolding reported marked
two_reported = epoll_lem (some two_events) all_fresh 2 (omega arith)

-- An interest list as a function, with the answers of epoll_ctl(2).
abbrev Interest : Type 0
Interest = ℕ → Option ℕ

abbrev put : Interest → ℕ → Option ℕ → Interest
put k fd entry x = if fd == x then entry else k x

abbrev ctl_on : CtlOp → Option ℕ → ℕ → ℕ → Interest → Bool × Interest
ctl_on add none fd events k = (true, put k fd (some events))
ctl_on add (some m) fd events k = (false, k)
ctl_on modify none fd events k = (false, k)
ctl_on modify (some m) fd events k = (true, put k fd (some events))
ctl_on delete none fd events k = (false, k)
ctl_on delete (some m) fd events k = (true, put k fd none)

put_self : (k : Interest) (fd : ℕ) (entry : Option ℕ) → put k fd entry fd ≡ entry
put_self k fd entry = ground arith

ctl_succeeds :
    (op : CtlOp) (was : Option ℕ) (fd events : ℕ) (k : Interest)
    → op ≢ delete
    → (ctl_on op was fd events k).0 ≡ true
    → (ctl_on op was fd events k).1 fd ≡ some events
ctl_succeeds add none fd events k h e = put_self k fd (some events)
ctl_succeeds add (some m) fd events k h e = absurd (cc)
ctl_succeeds modify none fd events k h e = absurd (cc)
ctl_succeeds modify (some m) fd events k h e = put_self k fd (some events)
ctl_succeeds delete was fd events k h e = absurd (h refl)

ctl_fails :
    (op : CtlOp) (was : Option ℕ) (fd events : ℕ) (k : Interest)
    → (ctl_on op was fd events k).0 ≡ false
    → (ctl_on op was fd events k).1 fd ≡ k fd
ctl_fails add none fd events k e = absurd (cc)
ctl_fails add (some m) fd events k e = refl
ctl_fails modify none fd events k e = refl
ctl_fails modify (some m) fd events k e = absurd (cc)
ctl_fails delete none fd events k e = refl
ctl_fails delete (some m) fd events k e = absurd (cc)

ctl_removes :
    (was : Option ℕ) (fd events : ℕ) (k : Interest)
    → k fd ≡ was
    → (ctl_on delete was fd events k).1 fd ≡ none
ctl_removes none fd events k h = h
ctl_removes (some m) fd events k h = put_self k fd none

abbrev linux : EpollInstance
linux = record {
  Kernel = Interest;
  interest = λ k. k;
  epoll_ctl = λ op fd events k. ctl_on op (k fd) fd events k;
  succeeds = λ op fd events k. ctl_succeeds op (k fd) fd events k;
  fails = λ op fd events k. ctl_fails op (k fd) fd events k;
  delete_removes = λ fd events k. ctl_removes (k fd) fd events k refl;
}

abbrev life : List Call
life = call_enable_et ∷ call_enable_read ∷ call_delete ∷ call_enable_write ∷ []

fresh-Mirrors : Mirrors fresh none
fresh-Mirrors = record { absent = λ _. refl; present = λ h. absurd (cc); agrees = λ h. absurd (cc) }

run-Mirrors_example :
    let (c, k) = run linux life (fresh, λ _. none) in
    Mirrors c (k c.client_fd) × ((update_op c ≡ add) ↔ (k c.client_fd ≡ none))
run-Mirrors_example = run-Mirrors linux life fresh (λ _. none) fresh-Mirrors
