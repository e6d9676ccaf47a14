-- ===== src/Server/Closing/Stages.antt =====
-- How far the close of a connection has come, and what holds then.
use epoll_server.Base.{
  ℕ, ◌+◌, ◌≡◌, refl, sym, ap, ◌∙◌, subst, Bool, true, false, Option, none, some, List, [], ==_eq,
}
use epoll_server.Epoller.{delete_channel}
use epoll_server.Channel.State.{set_in_epoll}
use epoll_server.Connection.State.{disconnected, Session, is_disconnected, connection_destructor}
use epoll_server.Server.{ConnRef, Task, close_in_loop, destroy, erase, queue_destructor}
use epoll_server.Server.Owners.{handle_close_in_loop_found}
use epoll_server.Server.Closing.{World, own, after_call, call, Elsewhere}
use epoll_server.Server.Closing.Queues.{only_at, own-queue_destructor}

-- `HandleClose` has not run; `HandleCloseInLoop` waits in the main loop; `ConnectionDestructor` waits in
-- the connection's loop; it has run.
pub data Stage : Type 0 where
  serving closing destroying gone : Stage

module _ (c : ConnRef) (main_reactor calls : ℕ) where
  -- The connection's tasks in the list of each loop.
  abbrev pub due : Stage → ℕ → List Task
  due serving i = []
  due closing i = only_at c main_reactor (close_in_loop c) i
  due destroying i = only_at c c.event_loop (destroy c) i
  due gone i = []

  abbrev pub Entry : Stage → World → Type 0
  Entry serving w = w.server.connections_map c.client_fd ≡ some c
  Entry closing w = w.server.connections_map c.client_fd ≡ some c
  Entry destroying w = w.server.connections_map c.client_fd ≡ none
  Entry gone w = Unit {0}

  -- The close callback has run `calls` times before the close.
  abbrev pub Closed : Stage → Session → Type 0
  Closed serving s =
      (is_disconnected s.conn.state ≡ false)
      × (s.conn.on_close_callback ≡ true)
      × (s.close_calls ≡ calls)
  Closed closing s = (s.conn.state ≡ disconnected) × (s.close_calls ≡ calls + 1)
  Closed destroying s = (s.conn.state ≡ disconnected) × (s.close_calls ≡ calls + 1)
  Closed gone s =
      (s.conn.state ≡ disconnected)
      × (s.close_calls ≡ calls + 1)
      × (s.conn.channel.in_epoll ≡ false)

  abbrev pub is_gone : Stage → Bool
  is_gone gone = true
  is_gone _ = false

  pub record Holds (p : Stage) (w : World) : Type 0 where
    pub waiting : (i : ℕ) → own c (w.loops i).to_do_list ≡ due p i
    pub entry : Entry p w
    pub closed : Closed p w.session
    pub destroyed : w.destroyed ≡ is_gone p

  -- Some stage holds.
  abbrev pub Staged : World → Type 0
  Staged w = (p : Stage) × Holds p w

  Elsewhere-Closed :
      (p : Stage) (w v : World)
      → Elsewhere c main_reactor w v
      → w.destroyed ≡ is_gone p
      → Closed p w.session
      → Closed p v.session
  Elsewhere-Closed serving w v e d (opened, callback, n) =
      (ap is_disconnected e.state ∙ opened, e.callback ∙ callback, e.calls ∙ n)
  Elsewhere-Closed closing w v e d (state, n) = (e.state ∙ state, e.calls ∙ n)
  Elsewhere-Closed destroying w v e d (state, n) = (e.state ∙ state, e.calls ∙ n)
  Elsewhere-Closed gone w v e d h = subst (Closed gone) (sym (e.frozen d)) h

  Elsewhere-Entry :
      (p : Stage) (w v : World)
      → Elsewhere c main_reactor w v
      → w.destroyed ≡ is_gone p
      → Entry p w
      → Entry p v
  Elsewhere-Entry serving w v e d h = e.entry d ∙ h
  Elsewhere-Entry closing w v e d h = e.entry d ∙ h
  Elsewhere-Entry destroying w v e d h = e.entry d ∙ h
  Elsewhere-Entry gone w v e d h = tt

  pub Elsewhere-Holds :
      (p : Stage) (w v : World) → Elsewhere c main_reactor w v → Holds p w → Holds p v
  Elsewhere-Holds p w v e h = record {
    waiting = λ i. e.tasks i ∙ h.waiting i;
    entry = Elsewhere-Entry p w v e h.destroyed h.entry;
    closed = Elsewhere-Closed p w v e h.destroyed h.closed;
    destroyed = e.destroyed ∙ h.destroyed;
  }

  -- `HandleCloseInLoop` is run, with none of the connection's tasks left in the lists.
  abbrev pub after_close : ℕ → World → World
  after_close self w = record w {
    server = record (w.server) { connections_map = erase c.client_fd w.server.connections_map };
    loops = queue_destructor self c w.loops;
  }

  pub call_close :
      (self : ℕ) (ok : Bool) (w : World)
      → w.server.connections_map c.client_fd ≡ some c
      → call c main_reactor self ok (close_in_loop c) w ≡ some (after_close self w)
  unfolding call
  call_close self ok w e =
      ap (after_call c main_reactor w) (handle_close_in_loop_found self c c w.loops w.server e)

  erase-none : (m : ℕ → Option ConnRef) → erase c.client_fd m c.client_fd ≡ none
  unfolding erase
  erase-none m = rw (==_eq c.client_fd c.client_fd refl) refl

  pub after_close-Holds :
      (self : ℕ) (w : World)
      → ((i : ℕ) → own c (w.loops i).to_do_list ≡ [])
      → Closed destroying w.session
      → w.destroyed ≡ false
      → Holds destroying (after_close self w)
  after_close-Holds self w nothing closed d = record {
    waiting = own-queue_destructor c self w.loops nothing;
    entry = erase-none w.server.connections_map;
    closed = closed;
    destroyed = d;
  }

  -- `ConnectionDestructor` is run.
  abbrev pub after_destroy : Bool → World → World
  after_destroy ok w = record w { session = connection_destructor ok w.session; destroyed = true }

  pub call_destroy :
      (self : ℕ) (ok : Bool) (w : World)
      → call c main_reactor self ok (destroy c) w ≡ some (after_destroy ok w)
  unfolding call
  call_destroy self ok w = refl

  pub after_destroy-Holds :
      (ok : Bool) (w : World)
      → ((i : ℕ) → own c (w.loops i).to_do_list ≡ [])
      → Closed destroying w.session
      → Holds gone (after_destroy ok w)
  unfolding connection_destructor delete_channel set_in_epoll
  after_destroy-Holds ok w nothing (state, n) = record {
    waiting = nothing;
    entry = tt;
    closed = (state, n, refl);
    destroyed = refl;
  }
