-- ===== src/Buffer/Bounds.antt =====
-- The buffer's `int` arithmetic and its memory.
use Prim.Native.Nat.{max}
use epoll_server.Base.{
  ℕ, resize, ◌+◌, ◌-◌, ◌^◌, ◌≤◌, ◌≡◌, List, arith, length, length-blit, length-resize,
}
use epoll_server.Buffer.{
  Buffer, readable_bytes, writable_bytes, ensure_writable_bytes, append, retrieve,
}
use epoll_server.Buffer.Contents.{IsValid, Moved, append-Moved}

-- The vector after `Append` is as large as it was if the bytes fit behind the write index, and
-- else ends exactly behind them: it never shrinks, and grows by no more than it must.
pub length-buffer-append :
    (b : Buffer) (message : List ℕ)
    → IsValid b
    → length (append b message).buffer ≡ max (length b.buffer) (b.write_index + length message)
unfolding append ensure_writable_bytes writable_bytes
length-buffer-append b message v = ground (
  arith,
  length-resize (b.write_index + length message) 0 b.buffer,
  length-blit b.buffer b.write_index message,
  length-blit (resize (b.write_index + length message) 0 b.buffer) b.write_index message,
)

abbrev pub int_max : ℕ
int_max = 2 ^ 31 - 1

-- The indices and the size of the vector are values of an `int`.
abbrev pub FitsInt : Buffer → Type 0
FitsInt b = (b.read_index ≤ int_max) × (b.write_index ≤ int_max) × (length b.buffer ≤ int_max)

-- On a valid buffer whose indices and size fit an `int`, if the end of the appended bytes fits one,
-- so do the indices and the size after `Append`, and they do after any `Retrieve` of at most the
-- readable bytes, the sum that it tests included.
pub append-retrieve-FitsInt :
    (b : Buffer) (message : List ℕ) (len : ℕ)
    → IsValid b
    → FitsInt b
    → b.write_index + length message ≤ int_max
    → len ≤ readable_bytes b
    → FitsInt (append b message) × FitsInt (retrieve b len) × (len + b.read_index ≤ int_max)
unfolding retrieve readable_bytes
append-retrieve-FitsInt b message len v f room h =
    let a : Moved b (append b message) message = append-Moved b message v in
    (
      (omega (arith, a), omega (arith, a), omega (arith, length-buffer-append b message v)),
      (ground arith, ground arith, ground arith),
      omega arith,
    )
