-- ===== src/Connection/Reader/Frames.antt =====
-- Where the reader stands in a frame, and what one answer of `read` does to that.
use epoll_server.Base.{
  ℕ, All-append, All-take, All-drop, ==_ne, ==_eq, ◌+◌, ◌≤◌, ◌<◌, ◌≡◌, refl, sym, ap, ◌∙◌, false,
  List, [], ◌∷◌, ◌++◌, arith, length, take, drop, blit, resize, lt→ltb, le→ltb, IsBytes,
  length-append, take-blit, length-blit, take_all, length-resize,
}
use epoll_server.Tlv.{TlvHeader, bytes, of_bytes, swap, max_tlv_length}
use epoll_server.Tlv.Wire.{of_big_endian, bytes-of_bytes, length-bytes, swap-length, bytes-IsBytes}
use epoll_server.Connection.State.{got, Connection, Session}
use epoll_server.Connection.Reader.{
  again, stop, header_complete, header_bytes, read_header, body_bytes, read_body, read_round,
  set_conn, set_ready,
}

-- `done` of the header has been read, and `left` has not.
pub record InHeader (c : Connection) (done left : List ℕ) : Type 0 where
  pub count : c.read_tlv_header_length ≡ length done
  pub total : length done + length left ≡ 8
  pub more : 0 < length left
  pub no_body : c.read_body_length ≡ 0
  pub memory : take (length done) (bytes c.tlv_header) ≡ done
  pub waiting : c.ready_to_handle_message ≡ false

-- The header is whole; `done` of the body has been read, and `left` has not.
pub record InBody (c : Connection) (done left : List ℕ) : Type 0 where
  pub header_read : c.read_tlv_header_length ≡ 8
  pub announced : c.tlv_header.length ≡ length done + length left
  pub room : length c.read_buffer ≡ length done + length left
  pub count : c.read_body_length ≡ length done
  pub memory : take (length done) c.read_buffer ≡ done
  pub waiting : c.ready_to_handle_message ≡ false

-- Nothing but the reader's own fields has changed.
pub record Quiet (s t : Session) : Type 0 where
  pub state : t.conn.state ≡ s.conn.state
  pub channel : t.conn.channel ≡ s.conn.channel
  pub send_buffer : t.conn.send_buffer ≡ s.conn.send_buffer
  pub wire : t.wire ≡ s.wire
  pub close_calls : t.close_calls ≡ s.close_calls

pub Quiet-refl : (s : Session) → Quiet s s
Quiet-refl s = record {
  state = refl;
  channel = refl;
  send_buffer = refl;
  wire = refl;
  close_calls = refl;
}

pub Quiet-trans : {s t u : Session} → Quiet s t → Quiet t u → Quiet s u
Quiet-trans p q = record {
  state = q.state ∙ p.state;
  channel = q.channel ∙ p.channel;
  send_buffer = q.send_buffer ∙ p.send_buffer;
  wire = q.wire ∙ p.wire;
  close_calls = q.close_calls ∙ p.close_calls;
}

pub header_bytes-Quiet : (xs : List ℕ) (s : Session) → Quiet s (header_bytes xs s)
unfolding header_bytes
header_bytes-Quiet xs s = record {
  state = refl;
  channel = refl;
  send_buffer = refl;
  wire = refl;
  close_calls = refl;
}

pub body_bytes-Quiet : (xs : List ℕ) (s : Session) → Quiet s (body_bytes xs s)
unfolding body_bytes
body_bytes-Quiet xs s = record {
  state = refl;
  channel = refl;
  send_buffer = refl;
  wire = refl;
  close_calls = refl;
}

IsBytes-blit : (m : List ℕ) (i : ℕ) (xs : List ℕ) → IsBytes m → IsBytes xs → IsBytes (blit m i xs)
IsBytes-blit m i xs hm hx =
    All-append _ (take i m) _ (All-take _ i m hm)
      (All-append _ xs _ hx (All-drop _ (i + length xs) m hm))

-- The header's memory after a read.
pub header_memory :
    (xs : List ℕ) (s : Session) (done : List ℕ)
    → IsBytes xs
    → s.conn.read_tlv_header_length ≡ length done
    → length done + length xs ≤ 8
    → take (length done) (bytes s.conn.tlv_header) ≡ done
    → take (length done + length xs) (bytes (header_bytes xs s).conn.tlv_header) ≡ done ++ xs
unfolding header_bytes
header_memory xs s done b count fits memory =
    let m : List ℕ = bytes s.conn.tlv_header in
    let i : ℕ = s.conn.read_tlv_header_length in
    let new : List ℕ = blit m i xs in
    let size : length m ≡ 8 = length-bytes s.conn.tlv_header in
    let e : bytes (of_bytes new) ≡ new =
      bytes-of_bytes new (IsBytes-blit m i xs (bytes-IsBytes s.conn.tlv_header) b)
        (length-blit m i xs (omega arith) ∙ size) in
    ap (λ t. take (length done + length xs) t) e
    ∙ ap (λ j. take (j + length xs) new) (sym count)
    ∙ take-blit m i xs (omega arith)
    ∙ ap (λ t. t ++ xs) (ap (λ j. take j m) count ∙ memory)

-- A read that leaves the header unfinished.
pub header_goes_on :
    (x : ℕ) (xs : List ℕ) (s : Session) (done left : List ℕ)
    → IsBytes (x ∷ xs)
    → InHeader s.conn done ((x ∷ xs) ++ left)
    → 0 < length left
    → (read_round (got (x ∷ xs)) s ≡ again (header_bytes (x ∷ xs) s))
      × InHeader (header_bytes (x ∷ xs) s).conn (done ++ (x ∷ xs)) left
unfolding read_round read_header
header_goes_on x xs s done left b p more =
    let sum : length done + length (x ∷ xs) + length left ≡ 8 =
      omega (arith, p.total, length-append (x ∷ xs) left) in
    let size : length (done ++ (x ∷ xs)) ≡ length done + length (x ∷ xs) =
      length-append done (x ∷ xs) in
    (
      rw (
        lt→ltb s.conn.read_tlv_header_length 8 (omega (arith, p.count)),
        ==_ne (s.conn.read_tlv_header_length + length (x ∷ xs)) 8 (omega (arith, p.count)),
      ),
      record {
        count = omega (arith, p.count, size);
        total = omega (arith, size);
        more = more;
        no_body = p.no_body;
        memory =
            ap (λ n. take n (bytes (header_bytes (x ∷ xs) s).conn.tlv_header)) size
            ∙ header_memory (x ∷ xs) s done b p.count (omega arith) p.memory;
        waiting = p.waiting;
      },
    )

-- The read that completes a header which announces `n` bytes, few enough.
pub header_ends :
    (x : ℕ) (xs : List ℕ) (s : Session) (done : List ℕ) (n : ℕ)
    → IsBytes (x ∷ xs)
    → InHeader s.conn done (x ∷ xs)
    → of_big_endian (drop 4 (done ++ (x ∷ xs))) ≡ n
    → n ≤ max_tlv_length
    → (t : Session) × (read_round (got (x ∷ xs)) s ≡ again t)
      × Quiet s t
      × ((body : List ℕ) → length body ≡ n → InBody t.conn [] body)
unfolding read_round read_header header_complete
header_ends x xs s done n b p announces small =
    let s' : Session = header_bytes (x ∷ xs) s in
    let h : TlvHeader = swap s'.conn.tlv_header in
    let whole : bytes s'.conn.tlv_header ≡ done ++ (x ∷ xs) =
      sym (
        take_all (length done + length (x ∷ xs)) (bytes s'.conn.tlv_header)
          (omega (arith, length-bytes s'.conn.tlv_header, p.total)))
      ∙ header_memory (x ∷ xs) s done b p.count (omega (arith, p.total)) p.memory in
    let says : h.length ≡ n =
      swap-length s'.conn.tlv_header ∙ ap (λ m. of_big_endian (drop 4 m)) whole ∙ announces in
    (
      set_conn s
          (record (s'.conn) { tlv_header = h; read_buffer = resize h.length 0 s.conn.read_buffer }),
      rw (
        lt→ltb s.conn.read_tlv_header_length 8 (omega (arith, p.count, p.total)),
        ==_eq (s.conn.read_tlv_header_length + length (x ∷ xs)) 8 (omega (arith, p.count, p.total)),
        le→ltb max_tlv_length h.length (omega (arith, says)),
      ),
      record { state = refl; channel = refl; send_buffer = refl; wire = refl; close_calls = refl },
      λ body len. record {
        header_read = omega (arith, p.count, p.total);
        announced = omega (arith, says, len);
        room = omega (arith, says, len, length-resize h.length 0 s.conn.read_buffer);
        count = p.no_body;
        memory = refl;
        waiting = p.waiting;
      },
    )

-- The body's memory after a read.
pub body_memory :
    (xs : List ℕ) (s : Session) (done left : List ℕ)
    → InBody s.conn done (xs ++ left)
    → InBody (body_bytes xs s).conn (done ++ xs) left
unfolding body_bytes
body_memory xs s done left p =
    let i : ℕ = s.conn.read_body_length in
    let size : length (done ++ xs) ≡ length done + length xs = length-append done xs in
    let rest : length (xs ++ left) ≡ length xs + length left = length-append xs left in
    record {
      header_read = p.header_read;
      announced = omega (arith, p.announced, size, rest);
      room = omega (
        arith,
        p.room,
        p.count,
        size,
        rest,
        length-blit s.conn.read_buffer i xs (omega (arith, p.room, p.count, rest)),
      );
      count = omega (arith, p.count, size);
      memory =
          ap (λ j. take j (blit s.conn.read_buffer i xs))
            (size ∙ ap (λ j. j + length xs) (sym p.count))
          ∙ take-blit s.conn.read_buffer i xs (omega (arith, p.room, p.count))
          ∙ ap (λ t. t ++ xs) (ap (λ j. take j s.conn.read_buffer) p.count ∙ p.memory);
      waiting = p.waiting;
    }

-- A read that leaves the body unfinished, and one that completes it.
pub body_goes_on :
    (x : ℕ) (xs : List ℕ) (s : Session) (done left : List ℕ)
    → InBody s.conn done ((x ∷ xs) ++ left)
    → 0 < length left
    → read_round (got (x ∷ xs)) s ≡ again (body_bytes (x ∷ xs) s)
unfolding read_round read_body
body_goes_on x xs s done left p more =
    let rest : length ((x ∷ xs) ++ left) ≡ length (x ∷ xs) + length left =
      length-append (x ∷ xs) left in
    rw (
      le→ltb s.conn.read_tlv_header_length 8 (omega (arith, p.header_read)),
      ==_ne (s.conn.read_body_length + length (x ∷ xs)) s.conn.tlv_header.length
          (omega (arith, p.count, p.announced, rest)),
    )

pub body_ends :
    (x : ℕ) (xs : List ℕ) (s : Session) (done : List ℕ)
    → InBody s.conn done (x ∷ xs)
    → read_round (got (x ∷ xs)) s ≡ stop (set_ready (body_bytes (x ∷ xs) s))
unfolding read_round read_body
body_ends x xs s done p = rw (
  le→ltb s.conn.read_tlv_header_length 8 (omega (arith, p.header_read)),
  ==_eq (s.conn.read_body_length + length (x ∷ xs)) s.conn.tlv_header.length
      (omega (arith, p.count, p.announced)),
)
