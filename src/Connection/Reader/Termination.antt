-- ===== src/Connection/Reader/Termination.antt =====
-- The end of the loop of `ReadNonBlocking`.
use epoll_server.Base.{
  ◌≡◌, refl, sym, ap, ◌∙◌, append_assoc, Bool-cases, ltb, some, List, [], ◌∷◌, ◌++◌, inl, inr, ◌≢◌,
}
use epoll_server.Connection.State.{
  Errno, eagain, ewouldblock, eintr, other, ReadReply, got, read_error, Session,
}
use epoll_server.Connection.Reader.{
  stop, read_failed, read_header, read_body, read_round, read_non_blocking, body_complete,
}
use epoll_server.Connection.Reader.Rounds.{
  Round-cases, read_non_blocking-again, read_non_blocking-stop,
}

-- The end of the stream, and every error but EINTR.
abbrev pub EndsLoop : ReadReply → Type 0
EndsLoop (got xs) = xs ≡ []
EndsLoop (read_error e) = e ≢ eintr

read_failed_stops :
    (e : Errno) (s : Session) → e ≢ eintr → (t : Session) × (read_failed e s ≡ stop t)
unfolding read_failed
read_failed_stops eintr s h = absurd (h refl)
read_failed_stops eagain s h = (_, refl)
read_failed_stops ewouldblock s h = (_, refl)
read_failed_stops (other n) s h = (_, refl)

read_header_stops :
    (r : ReadReply) (s : Session) → EndsLoop r → (t : Session) × (read_header r s ≡ stop t)
unfolding read_header
read_header_stops (got []) s h = (_, refl)
read_header_stops (got (x ∷ xs)) s h = absurd (cc)
read_header_stops (read_error e) s h = read_failed_stops e s h

read_body_stops :
    (r : ReadReply) (s : Session) → EndsLoop r → (t : Session) × (read_body r s ≡ stop t)
unfolding read_body
read_body_stops (got []) s h = elim (Bool-cases (body_complete s)) [
  | inl done ↦ rw done (_, refl)
  | inr short ↦ rw short (_, refl)
]
read_body_stops (got (x ∷ xs)) s h = absurd (cc)
read_body_stops (read_error e) s h = read_failed_stops e s h

read_round_stops :
    (r : ReadReply) (s : Session) → EndsLoop r → (t : Session) × (read_round r s ≡ stop t)
unfolding read_round
read_round_stops r s h = elim (Bool-cases (ltb s.conn.read_tlv_header_length 8)) [
  | inl early ↦ rw early (read_header_stops r s h)
  | inr late ↦ rw late (read_body_stops r s h)
]

-- Whatever state the reader is in and whatever came before, the loop does not go on past an answer
-- that is the end of the stream or an error other than EINTR.
pub read_non_blocking_terminates :
    (before : List ReadReply) (r : ReadReply) (after : List ReadReply) (s : Session)
    → EndsLoop r
    → (t : Session) × (rest : List ReadReply) × (read_non_blocking (before ++ (r ∷ after)) s
        ≡ some (t, rest ++ after))
read_non_blocking_terminates [] r after s h =
    let (t, e) = read_round_stops r s h in (t, [], read_non_blocking-stop r after s t e)
read_non_blocking_terminates (b ∷ before) r after s h = elim (Round-cases (read_round b s)) [
  | inl (s', go) ↦
      rw (read_non_blocking-again b _ s s' go) (read_non_blocking_terminates before r after s' h)
  | inr (t, end) ↦ (
    t,
    before ++ (r ∷ []),
    read_non_blocking-stop b _ s t end
        ∙ ap (λ l. some (t, l)) (sym (append_assoc before (r ∷ []) after)),
  )
]
