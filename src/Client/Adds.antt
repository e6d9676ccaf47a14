-- ===== src/Client/Adds.antt =====
-- What a part of a client thread adds to the counters and to the sockets.
use epoll_server.Base.{
  ℕ, ◌∙◌, ◌+◌, ◌≡◌, refl, sym, Bool, true, false, ◌&&◌, Option, none, some, List, [], ◌∷◌, ◌++◌,
  arith, append-nil, append_assoc,
}
use epoll_server.Client.{random_package, accepts_reply-random_package}
use epoll_server.Client.Thread.{Client, Exchange, open_socket, close_socket, wrote_all, replied}

-- The whole packet goes out and as many bytes come back.
abbrev pub is_complete : ℕ → Exchange → Bool
is_complete size x = wrote_all size x.written && wrote_all size x.bytes_received

abbrev pub one_if : Bool → ℕ
one_if true = 1
one_if false = 0

abbrev pub socket_of : Option ℕ → List ℕ
socket_of none = []
socket_of (some fd) = fd ∷ []

-- What a part of a thread adds: requests, messages, successes, sockets opened and sockets closed.
pub record Adds (c d : Client) (requests messages good : ℕ) (opens closes : List ℕ) : Type 0 where
  pub total : d.total_requests ≡ c.total_requests + requests
  pub next : d.ms ≡ c.ms + messages
  pub successful : d.successful_requests ≡ c.successful_requests + good
  pub opened : d.opened ≡ c.opened ++ opens
  pub closed : d.closed ≡ c.closed ++ closes

pub sockets_kept-Adds :
    {c d : Client} {requests messages good : ℕ}
    → d.total_requests ≡ c.total_requests + requests
    → d.ms ≡ c.ms + messages
    → d.successful_requests ≡ c.successful_requests + good
    → d.opened ≡ c.opened
    → d.closed ≡ c.closed
    → Adds c d requests messages good [] []
sockets_kept-Adds {c} total next successful opened closed = record {
  total = total;
  next = next;
  successful = successful;
  opened = opened ∙ sym (append-nil c.opened);
  closed = closed ∙ sym (append-nil c.closed);
}

pub unchanged-Adds : (c : Client) → Adds c c 0 0 0 [] []
unchanged-Adds c = sockets_kept-Adds (omega arith) (omega arith) (omega arith) refl refl

pub open_socket-Adds : (fd : ℕ) (c : Client) → Adds c (open_socket fd c) 0 0 0 (fd ∷ []) []
unfolding open_socket
open_socket-Adds fd c = record {
  total = omega arith;
  next = omega arith;
  successful = omega arith;
  opened = refl;
  closed = sym (append-nil c.closed);
}

pub close_socket-Adds : (fd : ℕ) (c : Client) → Adds c (close_socket fd c) 0 0 0 [] (fd ∷ [])
unfolding close_socket
close_socket-Adds fd c = record {
  total = omega arith;
  next = omega arith;
  successful = omega arith;
  opened = sym (append-nil c.opened);
  closed = refl;
}

pub Adds-Adds :
    {c d e : Client} {r s t m n l g h i : ℕ} {xs ys zs ws : List ℕ}
    → r + s ≡ t
    → m + n ≡ l
    → g + h ≡ i
    → Adds c d r m g xs zs
    → Adds d e s n h ys ws
    → Adds c e t l i (xs ++ ys) (zs ++ ws)
Adds-Adds {c} {xs = xs} {ys = ys} {zs = zs} {ws = ws} requests messages good p q = record {
  total = let a = p.total in let b = q.total in omega arith;
  next = let a = p.next in let b = q.next in omega arith;
  successful = let a = p.successful in let b = q.successful in omega arith;
  opened = rw (q.opened, p.opened) (append_assoc c.opened xs ys);
  closed = rw (q.closed, p.closed) (append_assoc c.closed zs ws);
}

module _ (body : ℕ → List ℕ) where
  abbrev pub generate : ℕ → List ℕ
  generate size = random_package size (body size)

  pub replied-wrote_all :
      (size : ℕ) (n : Option ℕ) → replied size (generate size) n ≡ wrote_all size n
  replied-wrote_all size none = refl
  replied-wrote_all size (some n) = accepts_reply-random_package size (body size) n
