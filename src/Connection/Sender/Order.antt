-- ===== src/Connection/Sender/Order.antt =====
-- What each call adds to the stream of bytes that goes out.
use epoll_server.Base.{
  ℕ, Bool, true, List, [], ◌∷◌, ◌++◌, ◌≤◌, ◌≡◌, refl, sym, ap, subst, ◌∙◌, inl, inr, arith, length,
  take, drop, ltb, ◌==◌, Bool-cases, ==_iff, take-append-drop, append-nil, append_assoc, ltb→le,
}
use epoll_server.Buffer.{Buffer, append, readable_bytes, retrieve}
use epoll_server.Buffer.Contents.{
  IsValid, contents, length-contents, append-IsValid, retrieve-IsValid, contents-append,
  contents-retrieve,
}
use epoll_server.Tlv.{outgoing_header}
use epoll_server.Connection.State.{WriteReply, wrote, write_error, Session, handle_close}
use epoll_server.Connection.Close.{handle_close-kept}
use epoll_server.Connection.Sender.Whole.{send-send_internal}
use epoll_server.Connection.Sender.{
  append_and_enable, queue_remaining, write_first, send_internal, send, send2,
  send_with_two_sys_call, write_non_blocking, is_transient,
}

-- What has been written, and behind it what waits in the send buffer.
abbrev pub outgoing : Session → List ℕ
outgoing s = s.wire ++ contents s.conn.send_buffer

-- The answer of a `write` that takes bytes or asks to try again.
abbrev pub IsUsable : WriteReply → Type 0
IsUsable (wrote n) = Unit {0}
IsUsable (write_error e) = is_transient e ≡ true

-- A call leaves a valid send buffer, and adds `bytes` to what goes out.
pub record Adds (s t : Session) (bytes : List ℕ) : Type 0 where
  pub valid : IsValid t.conn.send_buffer
  pub stream : outgoing t ≡ outgoing s ++ bytes

abbrev pub ValidBuffer : Session → Type 0
ValidBuffer s = IsValid s.conn.send_buffer

append_and_enable-Adds :
    (ok : Bool) (rest : List ℕ) (s : Session)
    → ValidBuffer s
    → Adds s (append_and_enable ok rest s) rest
unfolding append_and_enable
append_and_enable-Adds ok rest s v = record {
  valid = append-IsValid s.conn.send_buffer rest v;
  stream =
      ap (λ t. s.wire ++ t) (contents-append s.conn.send_buffer rest v)
      ∙ sym (append_assoc s.wire (contents s.conn.send_buffer) rest);
}

empty_of_length : (xs : List ℕ) → length xs ≤ 0 → xs ≡ []
empty_of_length [] h = refl
empty_of_length (x ∷ xs) h = absurd (omega arith)

queue_remaining-Adds :
    (ok : Bool) (rest : List ℕ) (s : Session)
    → ValidBuffer s
    → Adds s (queue_remaining ok rest s) rest
unfolding queue_remaining
queue_remaining-Adds ok rest s v = elim (Bool-cases (ltb 0 (length rest))) [
  | inl more ↦ rw more (append_and_enable-Adds ok rest s v)
  | inr done ↦
      rw (done, empty_of_length rest (ltb→le 0 (length rest) done))
        (record { valid = v; stream = sym (append-nil (outgoing s)) })
]

-- What `write` takes of the bytes, behind those on the wire, and the rest.
take_some : (w c r : List ℕ) (n : ℕ) → c ≡ [] → ((w ++ take n r) ++ c) ++ drop n r ≡ (w ++ c) ++ r
take_some w c r n e = rw e (simp (append-nil, append_assoc, take-append-drop))

-- `write` is tried when the send buffer is empty.
pub write_first-Adds :
    (w : WriteReply) (ok : Bool) (response : List ℕ) (s : Session)
    → ValidBuffer s
    → contents s.conn.send_buffer ≡ []
    → IsUsable w
    → Adds s (write_first w ok response s) response
unfolding write_first
write_first-Adds (wrote n) ok response s v empty u =
    let q : Adds _ (write_first (wrote n) ok response s) (drop n response) =
      queue_remaining-Adds ok (drop n response) (record s { wire = s.wire ++ take n response }) v in
    record { valid = q.valid; stream = q.stream ∙ take_some s.wire _ response n empty }
write_first-Adds (write_error e) ok response s v empty u =
    rw u (queue_remaining-Adds ok response s v)

pub send_internal-Adds :
    (w : WriteReply) (ok : Bool) (msg : List ℕ) (s : Session)
    → ValidBuffer s
    → IsUsable w
    → Adds s (send_internal w ok msg s) msg
unfolding send_internal
send_internal-Adds w ok msg s v u = elim (Bool-cases (readable_bytes s.conn.send_buffer == 0)) [
  | inl empty ↦ rw empty (
      write_first-Adds w ok msg s v
        (empty_of_length (contents s.conn.send_buffer)
          (omega (arith, length-contents s.conn.send_buffer v, (==_iff _ 0).0 empty)))
        u)
  | inr waiting ↦ rw waiting (queue_remaining-Adds ok msg s v)
]

-- The frame of a message: its header and its bytes.
unfoldable pub frame : List ℕ → List ℕ
frame msg = outgoing_header (length msg) ++ msg

pub send-Adds :
    (w : WriteReply) (ok : Bool) (msg : List ℕ) (s : Session)
    → ValidBuffer s
    → IsUsable w
    → Adds s (send w ok msg s) (frame msg)
unfolding frame
send-Adds w ok msg s v u =
    subst (λ t. Adds s t (frame msg)) (sym (send-send_internal w ok msg s))
      (send_internal-Adds w ok (frame msg) s v u)

-- `Send2` writes nothing and queues the frame.
pub contents-send2 :
    (ok : Bool) (msg : List ℕ) (s : Session)
    → ValidBuffer s
    → contents (send2 ok msg s).conn.send_buffer ≡ contents s.conn.send_buffer ++ frame msg
unfolding send2 frame
contents-send2 ok msg s v =
    let b : Buffer = s.conn.send_buffer in
    let h : List ℕ = outgoing_header (length msg) in
    contents-append (append b h) msg (append-IsValid b h v)
    ∙ ap (λ t. t ++ msg) (contents-append b h v)
    ∙ append_assoc (contents b) h msg

pub send2-Adds :
    (ok : Bool) (msg : List ℕ) (s : Session) → ValidBuffer s → Adds s (send2 ok msg s) (frame msg)
unfolding send2
send2-Adds ok msg s v =
    let b : Buffer = s.conn.send_buffer in
    let h : List ℕ = outgoing_header (length msg) in
    record {
      valid = append-IsValid (append b h) msg (append-IsValid b h v);
      stream =
          ap (λ t. s.wire ++ t) (contents-send2 ok msg s v)
          ∙ sym (append_assoc s.wire (contents b) (frame msg));
    }

pub send_with_two_sys_call-Adds :
    (w : WriteReply) (ok : Bool) (w' : WriteReply) (ok' : Bool) (msg : List ℕ) (s : Session)
    → ValidBuffer s
    → IsUsable w
    → IsUsable w'
    → Adds s (send_with_two_sys_call w ok w' ok' msg s) (frame msg)
unfolding send_with_two_sys_call frame
send_with_two_sys_call-Adds w ok w' ok' msg s v u u' =
    let h : List ℕ = outgoing_header (length msg) in
    let t : Session = send_internal w ok h s in
    let first : Adds s t h = send_internal-Adds w ok h s v u in
    let second : Adds t (send_internal w' ok' msg t) msg =
      send_internal-Adds w' ok' msg t first.valid u' in
    record {
      valid = second.valid;
      stream = second.stream ∙ ap (λ o. o ++ msg) first.stream ∙ append_assoc (outgoing s) h msg;
    }

handle_close-Adds : (s : Session) → ValidBuffer s → Adds s (handle_close s) []
handle_close-Adds s v =
    handle_close-kept (λ t. Adds s t []) s
      (record { valid = v; stream = sym (append-nil (outgoing s)) })
      (record { valid = v; stream = sym (append-nil (outgoing s)) })

retrieve_stream :
    (w : List ℕ) (b : Buffer) (n : ℕ)
    → IsValid b
    → (w ++ take n (contents b)) ++ contents (retrieve b n) ≡ (w ++ contents b) ++ []
retrieve_stream w b n v =
    rw (contents-retrieve b n v) (simp (append-nil, append_assoc, take-append-drop))

pub write_non_blocking-Adds :
    (w : WriteReply) (ok : Bool) (s : Session)
    → ValidBuffer s
    → Adds s (write_non_blocking w ok s) []
unfolding write_non_blocking
write_non_blocking-Adds (wrote n) ok s v = record {
  valid = retrieve-IsValid s.conn.send_buffer n v;
  stream = retrieve_stream s.wire s.conn.send_buffer n v;
}
write_non_blocking-Adds (write_error e) ok s v = elim (Bool-cases (is_transient e)) [
  | inl again ↦ rw again (record {
    valid = retrieve-IsValid s.conn.send_buffer 0 v;
    stream =
        ap (λ t. s.wire ++ t) (contents-retrieve s.conn.send_buffer 0 v)
        ∙ sym (append-nil (outgoing s));
  })
  | inr fatal ↦ rw fatal (handle_close-Adds s v)
]

pub Adds-trans : {s t u : Session} {a b : List ℕ} → Adds s t a → Adds t u b → Adds s u (a ++ b)
Adds-trans {s} {a = a} {b = b} p q = record {
  valid = q.valid;
  stream = q.stream ∙ ap (λ o. o ++ b) p.stream ∙ append_assoc (outgoing s) a b;
}
