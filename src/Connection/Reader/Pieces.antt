-- ===== src/Connection/Reader/Pieces.antt =====
-- Putting a frame together from the answers of many reads.
use epoll_server.Base.{
  ℕ, ◌<◌, ◌≡◌, refl, ◌∙◌, some, List, [], ◌∷◌, ◌++◌, arith, length, All, IsBytes, append_assoc, ◌⊎◌,
  inl, inr,
}
use epoll_server.Connection.State.{eintr, ReadReply, got, read_error, Session}
use epoll_server.Connection.Reader.{again, read_round, read_non_blocking}
use epoll_server.Connection.Reader.Rounds.{read_non_blocking-again, read_non_blocking-stop}
use epoll_server.Connection.Reader.Bounds.{Fitting}
use epoll_server.Connection.Reader.Frames.{Quiet, Quiet-refl, Quiet-trans}
use epoll_server.Connection.Reader.Messages.{
  IsFrame, Progress, Complete, round_eintr, Progress-more, chunk,
}

-- An answer that brings data, or nothing but EINTR.
abbrev pub IsPiece : ReadReply → Type 0
IsPiece (got xs) = (0 < length xs) × IsBytes xs
IsPiece (read_error eintr) = Unit {0}
IsPiece (read_error _) = ⊥

-- The data that answers bring, in order.
unfoldable pub data_of : List ReadReply → List ℕ
data_of [] = []
data_of (got xs ∷ rs) = xs ++ data_of rs
data_of (read_error e ∷ rs) = data_of rs

module _ (head body : List ℕ) (frame : IsFrame head body) where
  -- The loop has taken all the answers and waits for more of the frame, or it has ended with the
  -- message complete, and what it left brings no data.
  abbrev pub Outcome : List ReadReply → List ReadReply → Session → List ℕ → Type 0
  Outcome rs more s left =
      ((t : Session) × (read_non_blocking (rs ++ more) s ≡ read_non_blocking more t)
        × (0 < length left)
        × Quiet s t
        × Progress head body t left)
      ⊎ ((t : Session) × (rest : List ReadReply) × (read_non_blocking (rs ++ more) s
            ≡ some (t, rest ++ more))
          × (data_of rest ++ left ≡ [])
          × Quiet s t
          × Complete body t)

  one_more :
      (r : ReadReply) (rs more : List ReadReply) (s s' : Session) (left : List ℕ)
      → read_round r s ≡ again s'
      → Quiet s s'
      → Outcome rs more s' left
      → Outcome (r ∷ rs) more s left
  one_more r rs more s s' left go q (inl (t, run, some_left, quiet, p)) =
      inl
        (t, read_non_blocking-again r (rs ++ more) s s' go ∙ run, some_left, Quiet-trans q quiet, p)
  one_more r rs more s s' left go q (inr (t, rest, run, nothing, quiet, c)) = inr (
    t,
    rest,
    read_non_blocking-again r (rs ++ more) s s' go ∙ run,
    nothing,
    Quiet-trans q quiet,
    c,
  )

  pub pieces :
      (rs more : List ReadReply) (s : Session) (todo left : List ℕ)
      → Progress head body s todo
      → All IsPiece rs
      → Fitting rs s
      → todo ≡ data_of rs ++ left
      → Outcome rs more s left
  unfolding data_of
  pieces [] more s todo left p a f e =
      inl (s, refl, rw e at (Progress-more head body frame s todo p), Quiet-refl s, rw e at p)
  pieces (got [] ∷ rs) more s todo left p a f e = absurd (omega (arith, a.0))
  pieces (got (x ∷ xs) ∷ rs) more s todo left p a f e =
      elim (chunk head body frame x xs s todo (data_of rs ++ left) a.0.1
        (e ∙ append_assoc (x ∷ xs) (data_of rs) left) f.0 p) [
          | inl (s', go, some_left, quiet, p') ↦
              one_more (got (x ∷ xs)) rs more s s' left go quiet
                (pieces rs more s' (data_of rs ++ left) left p' a.1 (rw go at f.1) refl)
          | inr (t, end, nothing, quiet, c) ↦
              inr (
                t,
                rs,
                read_non_blocking-stop (got (x ∷ xs)) (rs ++ more) s t end,
                nothing,
                quiet,
                c,
              )
        ]
  pieces (read_error eintr ∷ rs) more s todo left p a f e =
      one_more (read_error eintr) rs more s s left (round_eintr s) (Quiet-refl s)
        (pieces rs more s todo left p a.1 (rw (round_eintr s) at f.1) e)
  pieces (read_error _ ∷ rs) more s todo left p a f e = absurd a.0
