-- ===== src/Server/Owners.antt =====
-- What the map of connections is to hold, and what its operations and those on the list of the
-- objects do to that.
use epoll_server.Base.{
  ℕ, ◌≡◌, ◌≢◌, refl, sym, ap, ◌∙◌, Option, none, some, List, [], ◌∷◌, ◌++◌, All, All-append, ==_ne,
  ==_iff, Option-cases, inl, inr, none≢some, some_inj,
}
use epoll_server.ThreadPool.{next_event_loop}
use epoll_server.EventLoop.{EventLoop}
use epoll_server.Connection.State.{Session}
use epoll_server.Server.{
  ConnRef, Task, ConnectionsMap, Server, insert, erase, Setup, handle_new_connection,
  handle_close_in_loop, queue_destructor,
}
use epoll_server.Server.Lifecycle.{destroying, Live, Unused}

-- The entry that the map has for the descriptor of an object.
abbrev pub entry_of : Live → Option ConnRef
entry_of l = elim l.phase [ destroying ↦ none | _ ↦ some l.conn ]

abbrev pub HasEntry : ConnectionsMap → Live → Type 0
HasEntry m l = m l.conn.client_fd ≡ entry_of l

-- No two objects have the same descriptor.
abbrev pub Apart : List Live → Type 0
Apart [] = Unit {0}
Apart (l ∷ ls) = Unused l.conn.client_fd ls × Apart ls

pub record Owned (m : ConnectionsMap) (live : List Live) : Type 0 where
  pub apart : Apart live
  pub entries : All (HasEntry m) live
  pub empty : (fd : ℕ) → Unused fd live → m fd ≡ none

pub All-split {ℓ κ} :
    {A : Type ℓ} (P : A → Type κ) (xs : List A) (y : A) (ys : List A)
    → All P (xs ++ (y ∷ ys))
    → All P xs × P y × All P ys
All-split P [] y ys h = (tt, h.0, h.1)
All-split P (x ∷ xs) y ys h =
    let (before, at, after) = All-split P xs y ys h.1 in ((h.0, before), at, after)

pub All-parts {ℓ κ} :
    {A : Type ℓ} (P : A → Type κ) (xs ys : List A) → All P (xs ++ ys) → All P xs × All P ys
All-parts P [] ys h = (tt, h)
All-parts P (x ∷ xs) ys h = let (a, b) = All-parts P xs ys h.1 in ((h.0, a), b)

pub All-zip {ℓ κ} :
    {A : Type ℓ} (P Q R : A → Type κ) (xs : List A)
    → ((x : A) → P x → Q x → R x)
    → All P xs
    → All Q xs
    → All R xs
All-zip P Q R [] f p q = tt
All-zip P Q R (x ∷ xs) f p q = (f x p.0 q.0, All-zip P Q R xs f p.1 q.1)

pub Apart-split :
    (before after : List Live) (l : Live)
    → Apart (before ++ (l ∷ after))
    → Unused l.conn.client_fd before × Unused l.conn.client_fd after × Apart (before ++ after)
Apart-split [] after l h = (tt, h.0, h.1)
Apart-split (k ∷ before) after l h =
    let fd : ℕ = k.conn.client_fd in
    let (b, a, rest) = Apart-split before after l h.1 in
    let (kb, kl, ka) = All-split (λ j. j.conn.client_fd ≢ fd) before l after h.0 in
    ((λ e. kl (sym e), b), a, (All-append (λ j. j.conn.client_fd ≢ fd) before after kb ka, rest))

pub Apart-join :
    (before after : List Live) (l : Live)
    → Unused l.conn.client_fd before
    → Unused l.conn.client_fd after
    → Apart (before ++ after)
    → Apart (before ++ (l ∷ after))
Apart-join [] after l b a h = (a, h)
Apart-join (k ∷ before) after l b a h =
    let (kb, ka) = All-parts (λ j. j.conn.client_fd ≢ k.conn.client_fd) before after h.0 in
    (
      All-append (λ j. j.conn.client_fd ≢ k.conn.client_fd) before (l ∷ after) kb
          ((λ e. b.0 (sym e)), ka),
      Apart-join before after l b.1 a h.1,
    )

pub insert_self : (fd : ℕ) (c : ConnRef) (m : ConnectionsMap) → insert fd c m fd ≡ some c
unfolding insert
insert_self fd c m = rw ((==_iff fd fd).1 refl) refl

pub insert_other :
    (fd key : ℕ) (c : ConnRef) (m : ConnectionsMap) → key ≢ fd → insert fd c m key ≡ m key
unfolding insert
insert_other fd key c m n = rw (==_ne key fd n) refl

pub erase_self : (fd : ℕ) (m : ConnectionsMap) → erase fd m fd ≡ none
unfolding erase
erase_self fd m = rw ((==_iff fd fd).1 refl) refl

pub erase_other : (fd key : ℕ) (m : ConnectionsMap) → key ≢ fd → erase fd m key ≡ m key
unfolding erase
erase_other fd key m n = rw (==_ne key fd n) refl

pub handle_new_connection-map :
    (setup : Setup) (on_connect : Option (Session → Session)) (id fd : ℕ) (y : Server) {s : Server}
    {c : ConnRef} {session : Session}
    → handle_new_connection setup on_connect id fd y ≡ some (s, c, session)
    → (s.connections_map ≡ insert fd c y.connections_map) × (c.client_fd ≡ fd)
unfolding handle_new_connection
handle_new_connection-map setup on_connect id fd y e =
    elim (Option-cases (next_event_loop y.thread_pool)) [
      | inl bad ↦ absurd (none≢some (rw (bad, handle_new_connection) at e))
      | inr ((i, pool), found) ↦
          let q = some_inj (rw (found, handle_new_connection) at e) in
          (
            ap (λ x. x.0.connections_map) (sym q) ∙ ap (λ x. insert fd x.1 y.connections_map) q,
            ap (λ x. x.1.client_fd) (sym q),
          )
    ]

pub handle_close_in_loop-map :
    (caller : ℕ) (c : ConnRef) (loops : ℕ → EventLoop Task) (y : Server) {s : Server}
    {after : ℕ → EventLoop Task}
    → handle_close_in_loop caller c loops y ≡ some (s, after)
    → s.connections_map ≡ erase c.client_fd y.connections_map
unfolding handle_close_in_loop
handle_close_in_loop-map caller c loops y e = elim (Option-cases (y.connections_map c.client_fd)) [
  | inl bad ↦ absurd (none≢some (rw (bad, handle_close_in_loop) at e))
  | inr (d, found) ↦
      ap (λ x. x.0.connections_map) (sym (some_inj (rw (found, handle_close_in_loop) at e)))
]

pub handle_close_in_loop_found :
    (caller : ℕ) (c d : ConnRef) (loops : ℕ → EventLoop Task) (y : Server)
    → y.connections_map c.client_fd ≡ some d
    → handle_close_in_loop caller c loops y
      ≡ some (
        record y { connections_map = erase c.client_fd y.connections_map },
        queue_destructor caller c loops,
      )
unfolding handle_close_in_loop
handle_close_in_loop_found caller c d loops y found = rw (found, handle_close_in_loop) refl
