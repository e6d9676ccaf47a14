-- ===== src/BufferPool/Bounds.antt =====
-- What the pool holds and gives.
use epoll_server.Base.{
  ℕ, ◌≤◌, ◌≡◌, refl, sym, Bool, true, false, ◌||◌, List, [], ◌∷◌, All, arith, length, ltb, ltb→lt,
  ltb→le, length-resize, length-replicate, false≢true, if_both,
}
use epoll_server.BufferPool.{
  CharVector, BufferPool, min_size, max_size, take_back, get_buffer, return_buffer,
}

-- A vector in the pool is empty and not too large.
pub record IsPooled (v : CharVector) : Type 0 where
  pub cleared : v.chars ≡ []
  pub small : v.capacity ≤ max_size

-- The pool is within its bound, and so are its vectors.
pub record IsBounded (p : BufferPool) : Type 0 where
  pub count : length p.pool ≤ p.buffer_pool_size
  pub pooled : All IsPooled p.pool

pub data Call : Type 0 where
  get : ℕ → Call
  give_back : CharVector → Call

unfoldable pub apply : Call → BufferPool → BufferPool
unfolding get_buffer return_buffer
apply (get grown) p = (get_buffer grown p).1
apply (give_back buf) p = return_buffer buf p

unfoldable pub run : List Call → BufferPool → BufferPool
unfolding apply
run [] p = p
run (c ∷ cs) p = run cs (apply c p)

take_back-All :
    (grown : ℕ) (pool : List CharVector)
    → All IsPooled pool
    → All IsPooled (take_back grown pool).1
      × (length (take_back grown pool).1 ≤ length pool)
      × (length (take_back grown pool).0.chars ≡ min_size)
unfolding take_back
take_back-All grown [] h = (tt, omega arith, length-replicate {A = ℕ} min_size 0)
take_back-All grown (buf ∷ rest) h = (h.1, omega arith, length-resize min_size 0 buf.chars)

get_buffer-IsBounded : (grown : ℕ) (p : BufferPool) → IsBounded p → IsBounded (get_buffer grown p).1
unfolding get_buffer
get_buffer-IsBounded grown p b =
    let (pooled, shorter, _) = take_back-All grown p.pool b.pooled in
    record { count = omega (arith, b.count, shorter); pooled = pooled }

or_second : (a b : Bool) → a || b ≡ false → b ≡ false
or_second true b e = absurd (false≢true (sym e))
or_second false b e = e

return_buffer-IsBounded :
    (buf : CharVector) (p : BufferPool) → IsBounded p → IsBounded (return_buffer buf p)
unfolding return_buffer
return_buffer-IsBounded buf p b =
    if_both IsBounded (ltb buf.capacity min_size || ltb max_size buf.capacity) p _ (λ _. b)
      (λ fits.
        if_both IsBounded (ltb (length p.pool) p.buffer_pool_size) _ p
          (λ room. record {
            count = omega (arith, ltb→lt (length p.pool) p.buffer_pool_size room);
            pooled = (
              record {
                cleared = refl;
                small = ltb→le max_size buf.capacity (or_second (ltb buf.capacity min_size) _ fits);
              },
              b.pooled,
            );
          })
          (λ _. b))

apply-IsBounded : (c : Call) (p : BufferPool) → IsBounded p → IsBounded (apply c p)
unfolding apply
apply-IsBounded (get grown) p b = get_buffer-IsBounded grown p b
apply-IsBounded (give_back buf) p b = return_buffer-IsBounded buf p b

run-IsBounded : (cs : List Call) (p : BufferPool) → IsBounded p → IsBounded (run cs p)
unfolding run
run-IsBounded [] p b = b
run-IsBounded (c ∷ cs) p b = run-IsBounded cs (apply c p) (apply-IsBounded c p b)

-- From a pool within its bound, after any sequence of get_buffer and return_buffer calls, whatever
-- vectors are returned: the pool has at most BUFFER_POOL_SIZE vectors, all of them empty and none with
-- a capacity above MAX_SIZE, and the next get_buffer gives a vector of exactly MIN_SIZE characters.
pub run-get_buffer :
    (cs : List Call) (p : BufferPool) (grown : ℕ)
    → IsBounded p
    → IsBounded (run cs p) × (length (get_buffer grown (run cs p)).0.chars ≡ min_size)
unfolding get_buffer
run-get_buffer cs p grown b =
    let bounded : IsBounded (run cs p) = run-IsBounded cs p b in
    (bounded, (take_back-All grown (run cs p).pool bounded.pooled).2)
