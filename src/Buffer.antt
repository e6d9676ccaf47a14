-- ===== src/Buffer.antt =====
-- buffer.h and buffer.cpp: the growing byte buffer between `Connection` and `write`.
-- A pointer into the vector is its index; `Append(message, len)` is given the `len` bytes themselves.
-- The indices are `int` in the source, and natural numbers here: see `Bounds`.
pub mod Contents
pub mod Bounds
mod Tests
use epoll_server.Base.{
  ℕ, ◌+◌, ◌-◌, List, length, drop, replicate, blit, resize, ltb, leb, if◌then◌else◌,
}

-- DEFAULT_INIT_SIZE
abbrev pub default_init_size : ℕ
default_init_size = 256

pub record Buffer : Type 0 where
  pub buffer : List ℕ
  pub read_index : ℕ
  pub write_index : ℕ

unfoldable pub init : Buffer
init = record { buffer = replicate default_init_size 0; read_index = 0; write_index = 0 }

-- `beginread` and `Peek`: the memory from the first unread byte on.
unfoldable pub peek : Buffer → List ℕ
peek b = drop b.read_index b.buffer

unfoldable pub readable_bytes : Buffer → ℕ
readable_bytes b = b.write_index - b.read_index

unfoldable pub writable_bytes : Buffer → ℕ
writable_bytes b = length b.buffer - b.write_index

unfoldable pub ensure_writable_bytes : Buffer → ℕ → Buffer
unfolding writable_bytes
ensure_writable_bytes b len =
    if leb len (writable_bytes b)
    then b
    else record b { buffer = resize (b.write_index + len) 0 b.buffer }

-- `std::copy` to `beginwrite()`, in memory that `EnsureWritableBytes` has made room in.
unfoldable pub append : Buffer → List ℕ → Buffer
append b message =
    let e : Buffer = ensure_writable_bytes b (length message) in
    record e {
      buffer = blit e.buffer e.write_index message;
      write_index = e.write_index + length message;
    }

unfoldable pub retrieve_all : Buffer → Buffer
retrieve_all b = record b { read_index = 0; write_index = 0 }

unfoldable pub retrieve : Buffer → ℕ → Buffer
unfolding retrieve_all
retrieve b len =
    if ltb (len + b.read_index) b.write_index
    then record b { read_index = b.read_index + len }
    else retrieve_all b
