-- ===== src/BufferPool/Tests.antt =====
-- A pool for two vectors, to which three are returned.
use epoll_server.Base.{ℕ, ◌≡◌, List, [], ◌∷◌, arith, length}
use epoll_server.BufferPool.{CharVector, BufferPool, get_buffer, min_size}
use epoll_server.BufferPool.Bounds.{Call, get, give_back, run, IsBounded, run-get_buffer}

abbrev empty_pool : BufferPool
empty_pool = record { pool = []; buffer_size = 1024; buffer_pool_size = 2 }

abbrev used : ℕ → CharVector
used capacity = record { chars = 1 ∷ 2 ∷ []; capacity = capacity }

abbrev calls : List Call
calls =
    give_back (used 1024)
    ∷ give_back (used 2048)
    ∷ give_back (used 1500)
    ∷ get 4096
    ∷ give_back (used 4096)
    ∷ []

run-get_buffer_example :
    IsBounded (run calls empty_pool)
    × (length (get_buffer 1024 (run calls empty_pool)).0.chars ≡ min_size)
run-get_buffer_example =
    run-get_buffer calls empty_pool 1024 (record { count = omega arith; pooled = tt })
