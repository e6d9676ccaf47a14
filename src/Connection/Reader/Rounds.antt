-- ===== src/Connection/Reader/Rounds.antt =====
-- How a round of the reader's loop leads on to the next, or to the end.
use epoll_server.Base.{◌≡◌, refl, some, List, ◌∷◌, ◌⊎◌, inl, inr, arith}
use epoll_server.Connection.State.{ReadReply, Session}
use epoll_server.Connection.Reader.{Round, again, stop, read_round, read_non_blocking}

abbrev pub OfRound {ℓ} : (Session → Type ℓ) → Round → Type ℓ
OfRound P (again s) = P s
OfRound P (stop s) = P s

pub Round-cases : (r : Round) → ((s : Session) × (r ≡ again s)) ⊎ ((s : Session) × (r ≡ stop s))
Round-cases (again s) = inl (s, refl)
Round-cases (stop s) = inr (s, refl)

-- How a loop that has taken an answer came to its end.
pub read_non_blocking-cons :
    (r : ReadReply) (rs : List ReadReply) (s : Session) {t : Session} {rest : List ReadReply}
    → read_non_blocking (r ∷ rs) s ≡ some (t, rest)
    → ((s' : Session) × (read_round r s ≡ again s') × (read_non_blocking rs s' ≡ some (t, rest)))
      ⊎ ((read_round r s ≡ stop t) × (rs ≡ rest))
unfolding read_non_blocking
read_non_blocking-cons r rs s e = elim (Round-cases (read_round r s)) [
  | inl (s', go) ↦ inl (s', go, rw (go, read_non_blocking) at e)
  | inr (s', end) ↦ inr (ground arith, ground arith)
]

pub read_non_blocking-again :
    (r : ReadReply) (rs : List ReadReply) (s s' : Session)
    → read_round r s ≡ again s'
    → read_non_blocking (r ∷ rs) s ≡ read_non_blocking rs s'
unfolding read_non_blocking
read_non_blocking-again r rs s s' go = rw (go, read_non_blocking)

pub read_non_blocking-stop :
    (r : ReadReply) (rs : List ReadReply) (s t : Session)
    → read_round r s ≡ stop t
    → read_non_blocking (r ∷ rs) s ≡ some (t, rs)
unfolding read_non_blocking
read_non_blocking-stop r rs s t end = rw (end, read_non_blocking)
