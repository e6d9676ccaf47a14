-- ===== src/BufferPool.antt =====
-- bufferpool.h: the pool of vectors.
-- The vector at the back of the pool is the first of the list. The lock makes each call one step.
pub mod Bounds
mod Tests
use epoll_server.Base.{
  ℕ, zero, suc, Bool, true, false, ◌||◌, List, [], ◌∷◌, length, replicate, resize, ltb,
  if◌then◌else◌,
}

abbrev pub min_size : ℕ
min_size = 1024

abbrev pub max_size : ℕ
max_size = 2048

pub record CharVector : Type 0 where
  pub chars : List ℕ
  pub capacity : ℕ

pub record BufferPool : Type 0 where
  pub pool : List CharVector
  pub buffer_size : ℕ
  pub buffer_pool_size : ℕ

-- `push_back` copies the vector: `copied` is the capacity that the copy of an empty vector has.
unfoldable pub init : ℕ → ℕ → ℕ → BufferPool
init copied chunk_size pool_size = record {
  pool = replicate pool_size (record { chars = []; capacity = copied });
  buffer_size = chunk_size;
  buffer_pool_size = pool_size;
}

-- The vector that is given, and those that stay; `grown` is the capacity that `resize` makes if the
-- vector's is too small.
unfoldable pub take_back : ℕ → List CharVector → CharVector × List CharVector
take_back grown [] = (record { chars = replicate min_size 0; capacity = min_size }, [])
take_back grown (buf ∷ rest) = (
  record {
    chars = resize min_size 0 buf.chars;
    capacity = if ltb buf.capacity min_size then grown else buf.capacity;
  },
  rest,
)

unfoldable pub get_buffer : ℕ → BufferPool → CharVector × BufferPool
unfolding take_back
get_buffer grown p = let (buf, rest) = take_back grown p.pool in (buf, record p { pool = rest })

unfoldable pub return_buffer : CharVector → BufferPool → BufferPool
return_buffer buf p =
    if ltb buf.capacity min_size || ltb max_size buf.capacity
    then p
    else if ltb (length p.pool) p.buffer_pool_size
    then record p { pool = record { chars = []; capacity = buf.capacity } ∷ p.pool }
    else p
