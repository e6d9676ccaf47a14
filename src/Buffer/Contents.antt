-- ===== src/Buffer/Contents.antt =====
-- What a buffer holds, and each operation against a plain queue of bytes.
use epoll_server.Base.{
  ℕ, ◌+◌, ◌-◌, ◌≤◌, ◌≡◌, refl, sym, ap, ◌∙◌, inl, inr, List, [], ◌∷◌, ◌++◌, arith, length, take,
  drop, ltb, Bool-cases, ltb→lt, ltb→le, length-take, length-drop, drop_all, drop-append_left,
  drop-drop, drop-take, length-blit, take-blit, length-resize, take-resize,
}
use epoll_server.Buffer.{
  Buffer, init, peek, readable_bytes, ensure_writable_bytes, append, retrieve_all, retrieve,
}

pub record IsValid (b : Buffer) : Type 0 where
  pub read_in : b.read_index ≤ b.write_index
  pub write_in : b.write_index ≤ length b.buffer

-- The bytes appended and not yet retrieved.
unfoldable pub contents : Buffer → List ℕ
unfolding readable_bytes peek
contents b = take (readable_bytes b) (peek b)

-- The same bytes, cut from the front of what has been written.
contents_lem :
    (b : Buffer) → IsValid b → contents b ≡ drop b.read_index (take b.write_index b.buffer)
unfolding contents
contents_lem b v =
    sym (drop-take b.read_index (b.write_index - b.read_index) b.write_index b.buffer (omega arith))

pub length-contents : (b : Buffer) → IsValid b → length (contents b) ≡ readable_bytes b
unfolding contents
length-contents b v = omega (
  arith,
  length-take (b.write_index - b.read_index) (drop b.read_index b.buffer),
  length-drop b.read_index b.buffer,
)

pub init-IsValid : IsValid init
unfolding init
init-IsValid = omega arith

pub contents-init : contents init ≡ []
unfolding init contents
contents-init = refl

-- Making room moves no index and loses no byte.
pub record Roomy (b e : Buffer) (len : ℕ) : Type 0 where
  pub same_read : e.read_index ≡ b.read_index
  pub same_write : e.write_index ≡ b.write_index
  pub room : b.write_index + len ≤ length e.buffer
  pub kept : take b.write_index e.buffer ≡ take b.write_index b.buffer

pub ensure_writable_bytes-Roomy :
    (b : Buffer) (len : ℕ) → IsValid b → Roomy b (ensure_writable_bytes b len) len
unfolding ensure_writable_bytes
ensure_writable_bytes-Roomy b len v = ground (
  arith,
  length-resize (b.write_index + len) 0 b.buffer,
  take-resize (b.write_index + len) 0 b.buffer b.write_index,
)

pub append-IsValid : (b : Buffer) (message : List ℕ) → IsValid b → IsValid (append b message)
unfolding append
append-IsValid b message v =
    let e : Buffer = ensure_writable_bytes b (length message) in
    let r : Roomy b e (length message) = ensure_writable_bytes-Roomy b (length message) v in
    omega (arith, r, v, length-blit e.buffer e.write_index message)

-- All bytes written so far, retrieved ones included.
written : Buffer → List ℕ
written b = take b.write_index b.buffer

written-append :
    (b : Buffer) (message : List ℕ) → IsValid b → written (append b message) ≡ written b ++ message
unfolding append written
written-append b message v =
    let e : Buffer = ensure_writable_bytes b (length message) in
    let r : Roomy b e (length message) = ensure_writable_bytes-Roomy b (length message) v in
    take-blit e.buffer e.write_index message (omega (arith, r))
    ∙ ap (λ t. t ++ message) (ap (λ i. take i e.buffer) r.same_write ∙ r.kept)

-- `Append` leaves the read index and moves the write index behind the message.
pub record Moved (b a : Buffer) (message : List ℕ) : Type 0 where
  pub read_index : a.read_index ≡ b.read_index
  pub write_index : a.write_index ≡ b.write_index + length message

pub append-Moved : (b : Buffer) (message : List ℕ) → IsValid b → Moved b (append b message) message
unfolding append
append-Moved b message v =
    let r : Roomy b (ensure_writable_bytes b (length message)) (length message) =
      ensure_writable_bytes-Roomy b (length message) v in
    record { read_index = r.same_read; write_index = ap (λ i. i + length message) r.same_write }

-- Appended bytes stand behind those that were there.
pub contents-append :
    (b : Buffer) (message : List ℕ)
    → IsValid b
    → contents (append b message) ≡ contents b ++ message
unfolding written
contents-append b message v =
    contents_lem (append b message) (append-IsValid b message v)
    ∙ ap (λ i. drop i (written (append b message))) (append-Moved b message v).read_index
    ∙ ap (λ t. drop b.read_index t) (written-append b message v)
    ∙ drop-append_left b.read_index (written b) message
        (omega (arith, v, length-take b.write_index b.buffer))
    ∙ ap (λ t. t ++ message) (sym (contents_lem b v))

pub retrieve-IsValid : (b : Buffer) (len : ℕ) → IsValid b → IsValid (retrieve b len)
unfolding retrieve
retrieve-IsValid b len v = ground arith

pub contents-retrieve_all : (b : Buffer) → contents (retrieve_all b) ≡ []
unfolding retrieve_all contents
contents-retrieve_all b = refl

-- Retrieved bytes leave from the front; asking for too many empties the buffer.
pub contents-retrieve :
    (b : Buffer) (len : ℕ) → IsValid b → contents (retrieve b len) ≡ drop len (contents b)
unfolding retrieve
contents-retrieve b len v = elim (Bool-cases (ltb (len + b.read_index) b.write_index)) [
  | inl more ↦ rw more (
      contents_lem (record b { read_index = b.read_index + len })
        (record { read_in = omega (arith, ltb→lt _ _ more); write_in = v.write_in })
      ∙ sym (drop-drop b.read_index len (b.read_index + len) (take b.write_index b.buffer) refl)
      ∙ ap (λ t. drop len t) (sym (contents_lem b v)))
  | inr done ↦ rw done (
      contents-retrieve_all b
      ∙ sym (drop_all len (contents b) (enough (ltb→le (len + b.read_index) _ done))))
]
  where
    enough : b.write_index ≤ len + b.read_index → length (contents b) ≤ len
    enough h = unfold readable_bytes in omega (arith, length-contents b v)

-- The calls of a client, on the buffer and on a queue of bytes.
pub data Op : Type 0 where
  append_op : List ℕ → Op
  retrieve_op : ℕ → Op
  retrieve_all_op : Op

unfoldable pub apply : Buffer → Op → Buffer
apply b (append_op message) = append b message
apply b (retrieve_op len) = retrieve b len
apply b retrieve_all_op = retrieve_all b

unfoldable pub run : Buffer → List Op → Buffer
run b [] = b
run b (o ∷ os) = run (apply b o) os

unfoldable pub queue_run : List ℕ → List Op → List ℕ
queue_run q [] = q
queue_run q (append_op message ∷ os) = queue_run (q ++ message) os
queue_run q (retrieve_op len ∷ os) = queue_run (drop len q) os
queue_run q (retrieve_all_op ∷ os) = queue_run [] os

apply-IsValid : (b : Buffer) (o : Op) → IsValid b → IsValid (apply b o)
unfolding apply retrieve_all
apply-IsValid b (append_op message) v = append-IsValid b message v
apply-IsValid b (retrieve_op len) v = retrieve-IsValid b len v
apply-IsValid b retrieve_all_op v = omega arith

-- From a valid buffer, any sequence of `Append`, `Retrieve` and `RetrieveAll` calls leaves a valid
-- buffer which holds what a plain queue of bytes would hold after the same calls.
pub run_refines :
    (b : Buffer) (os : List Op)
    → IsValid b
    → IsValid (run b os) × (contents (run b os) ≡ queue_run (contents b) os)
unfolding run queue_run apply
run_refines b [] v = (v, refl)
run_refines b (append_op message ∷ os) v =
    rw (← contents-append b message v)
      (run_refines (append b message) os (append-IsValid b message v))
run_refines b (retrieve_op len ∷ os) v =
    rw (← contents-retrieve b len v) (run_refines (retrieve b len) os (retrieve-IsValid b len v))
run_refines b (retrieve_all_op ∷ os) v =
    rw (← contents-retrieve_all b)
      (run_refines (retrieve_all b) os (apply-IsValid b retrieve_all_op v))
