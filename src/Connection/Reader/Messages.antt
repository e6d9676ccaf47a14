-- ===== src/Connection/Reader/Messages.antt =====
-- The reader's progress through a frame, and what one read adds to it.
use epoll_server.Base.{
  ℕ, ◌≤◌, ◌<◌, ◌≡◌, refl, sym, ap, ◌∙◌, true, List, [], ◌∷◌, ◌++◌, arith, length, drop, lt→ltb,
  le→ltb, IsBytes, append_split, append-nil, append_assoc, length-append, take_all, ◌⊎◌, inl, inr,
}
use epoll_server.Tlv.{max_tlv_length}
use epoll_server.Tlv.Wire.{of_big_endian}
use epoll_server.Connection.State.{eintr, ReadReply, got, read_error, Session}
use epoll_server.Connection.Reader.{
  again, stop, read_failed, read_header, read_body, read_round, wanted, header_bytes, body_bytes,
  set_ready,
}
use epoll_server.Connection.Reader.Bounds.{Fits}
use epoll_server.Connection.Reader.Frames.{
  InHeader, InBody, Quiet, header_bytes-Quiet, body_bytes-Quiet, header_goes_on, header_ends,
  body_memory, body_goes_on, body_ends,
}

-- A header of eight bytes that announces the body, which is not empty and not too long.
pub record IsFrame (head body : List ℕ) : Type 0 where
  pub header : length head ≡ 8
  pub in_bytes : IsBytes head
  pub announced : of_big_endian (drop 4 head) ≡ length body
  pub not_empty : 0 < length body
  pub small : length body ≤ max_tlv_length

-- The reader has read a part of the frame, and `todo` is the rest.
pub data Progress (head body : List ℕ) (s : Session) (todo : List ℕ) : Type 0 where
  in_header :
      (done left : List ℕ)
      → head ≡ done ++ left
      → todo ≡ left ++ body
      → InHeader s.conn done left
      → Progress head body s todo
  in_body :
      (done left : List ℕ)
      → body ≡ done ++ left
      → todo ≡ left
      → 0 < length left
      → InBody s.conn done left
      → Progress head body s todo

-- The body is in the read buffer, and a message is ready.
pub record Complete (body : List ℕ) (t : Session) : Type 0 where
  pub ready : t.conn.ready_to_handle_message ≡ true
  pub message : t.conn.read_buffer ≡ body

pub wanted-InHeader :
    (s : Session) (done left : List ℕ) → InHeader s.conn done left → wanted s ≡ length left
unfolding wanted
wanted-InHeader s done left p =
    rw (lt→ltb s.conn.read_tlv_header_length 8 (omega (arith, p.count, p.total, p.more)))
      (omega (arith, p.count, p.total))

pub wanted-InBody :
    (s : Session) (done left : List ℕ) → InBody s.conn done left → wanted s ≡ length left
unfolding wanted
wanted-InBody s done left p =
    rw (le→ltb s.conn.read_tlv_header_length 8 (omega (arith, p.header_read)))
      (omega (arith, p.count, p.room))

pub round_eintr : (s : Session) → read_round (read_error eintr) s ≡ again s
unfolding read_round read_header read_body read_failed
round_eintr s = ground arith

Quiet-ready : (xs : List ℕ) (s : Session) → Quiet s (set_ready (body_bytes xs s))
unfolding body_bytes
Quiet-ready xs s = record {
  state = refl;
  channel = refl;
  send_buffer = refl;
  wire = refl;
  close_calls = refl;
}

module _ (head body : List ℕ) (frame : IsFrame head body) where
  -- What one read of a part of what is left leads to.
  abbrev pub Advance : Session → ReadReply → List ℕ → Type 0
  Advance s r left =
      ((t : Session) × (read_round r s ≡ again t)
        × (0 < length left)
        × Quiet s t
        × Progress head body t left)
      ⊎ ((t : Session) × (read_round r s ≡ stop t) × (left ≡ []) × Quiet s t × Complete body t)

  pub Progress-more : (s : Session) (todo : List ℕ) → Progress head body s todo → 0 < length todo
  Progress-more s todo (in_header done left e e' p) =
      omega (arith, ap length e', length-append left body, p.more)
  Progress-more s todo (in_body done left e e' more p) = omega (arith, ap length e')

  header_chunk :
      (x : ℕ) (xs : List ℕ) (s : Session) (done left left' : List ℕ)
      → IsBytes (x ∷ xs)
      → head ≡ done ++ left
      → left ≡ (x ∷ xs) ++ left'
      → InHeader s.conn done left
      → Advance s (got (x ∷ xs)) (left' ++ body)
  header_chunk x xs s done left [] b e cut p =
      let exact : left ≡ x ∷ xs = cut ∙ append-nil (x ∷ xs) in
      let says : of_big_endian (drop 4 (done ++ (x ∷ xs))) ≡ length body =
        ap (λ l. of_big_endian (drop 4 l)) (ap (λ l. done ++ l) (sym exact) ∙ sym e)
        ∙ frame.announced in
      let (t, go, quiet, at_body) =
        header_ends x xs s done (length body) b (rw exact at p) says frame.small in
      inl (
        t,
        go,
        frame.not_empty,
        quiet,
        in_body [] body refl refl frame.not_empty (at_body body refl),
      )
  header_chunk x xs s done left (y ∷ left') b e cut p =
      let (go, next) = header_goes_on x xs s done (y ∷ left') b (rw cut at p) (omega arith) in
      inl (
        header_bytes (x ∷ xs) s,
        go,
        omega arith,
        header_bytes-Quiet (x ∷ xs) s,
        in_header (done ++ (x ∷ xs)) (y ∷ left')
            (e ∙ ap (λ l. done ++ l) cut ∙ sym (append_assoc done (x ∷ xs) (y ∷ left'))) refl next,
      )

  body_chunk :
      (x : ℕ) (xs : List ℕ) (s : Session) (done left left' : List ℕ)
      → body ≡ done ++ left
      → left ≡ (x ∷ xs) ++ left'
      → InBody s.conn done left
      → Advance s (got (x ∷ xs)) left'
  body_chunk x xs s done left [] e cut p =
      let exact : left ≡ x ∷ xs = cut ∙ append-nil (x ∷ xs) in
      let all : body ≡ done ++ (x ∷ xs) = e ∙ ap (λ l. done ++ l) exact in
      let last : InBody (body_bytes (x ∷ xs) s).conn (done ++ (x ∷ xs)) [] =
        body_memory (x ∷ xs) s done [] (rw cut at p) in
      inr (
        set_ready (body_bytes (x ∷ xs) s),
        body_ends x xs s done (rw exact at p),
        refl,
        Quiet-ready (x ∷ xs) s,
        record {
          ready = refl;
          message =
              sym (take_all (length (done ++ (x ∷ xs))) _ (omega (arith, last.room)))
              ∙ last.memory
              ∙ sym all;
        },
      )
  body_chunk x xs s done left (y ∷ left') e cut p =
      let p' : InBody s.conn done ((x ∷ xs) ++ (y ∷ left')) = rw cut at p in
      inl (
        body_bytes (x ∷ xs) s,
        body_goes_on x xs s done (y ∷ left') p' (omega arith),
        omega arith,
        body_bytes-Quiet (x ∷ xs) s,
        in_body (done ++ (x ∷ xs)) (y ∷ left')
            (e ∙ ap (λ l. done ++ l) cut ∙ sym (append_assoc done (x ∷ xs) (y ∷ left'))) refl
            (omega arith) (body_memory (x ∷ xs) s done (y ∷ left') p'),
      )

  -- A read of some of what is left, and of no more than was asked for.
  pub chunk :
      (x : ℕ) (xs : List ℕ) (s : Session) (todo left : List ℕ)
      → IsBytes (x ∷ xs)
      → todo ≡ (x ∷ xs) ++ left
      → Fits (got (x ∷ xs)) s
      → Progress head body s todo
      → Advance s (got (x ∷ xs)) left
  chunk x xs s todo left b cut fits (in_header done rest e e' p) =
      let (left', a, c) =
        append_split rest body (x ∷ xs) left (sym e' ∙ cut)
          (omega (arith, fits, wanted-InHeader s done rest p)) in
      rw c (header_chunk x xs s done rest left' b e a p)
  chunk x xs s todo left b cut fits (in_body done rest e e' more p) =
      body_chunk x xs s done rest left e (sym e' ∙ cut) p
