-- ===== src/CurrentThread.antt =====
-- currentthread.h and currentthread.cpp: the id of a thread, which each thread keeps once it has it.
-- `Thread` is what a thread has of its own (`__thread`); `id` is what the kernel answers to `gettid` on it,
-- and `format` what `snprintf` makes of a number with "%5d ".
mod Tests
use epoll_server.Base.{
  ℕ, zero, suc, ap, ◌∙◌, ◌+◌, ◌≡◌, ◌≢◌, refl, List, [], ◌∷◌, ◌==◌, ==_ne, if◌then◌else◌, length,
  replicate,
}

-- The cache, and how often `gettid` has been called.
pub record Thread : Type 0 where
  pub cached_tid : ℕ
  pub formatted_tid : List ℕ
  pub formatted_tid_length : ℕ
  pub gettid_calls : ℕ

unfoldable pub init : Thread
init = record { cached_tid = 0; formatted_tid = []; formatted_tid_length = 0; gettid_calls = 0 }

abbrev pub tid_string : Thread → List ℕ
tid_string t = t.formatted_tid

abbrev pub tid_string_length : Thread → ℕ
tid_string_length t = t.formatted_tid_length

module _ (id : ℕ) (format : ℕ → List ℕ) where
  unfoldable pub gettid : Thread → ℕ × Thread
  gettid t = (id, record t { gettid_calls = t.gettid_calls + 1 })

  unfoldable pub cache_tid : Thread → Thread
  unfolding gettid
  cache_tid t =
      if t.cached_tid == 0
      then (let (n, u) = gettid t in
          record u {
            cached_tid = n;
            formatted_tid = format n;
            formatted_tid_length = length (format n);
          })
      else t

  unfoldable pub tid : Thread → ℕ × Thread
  unfolding cache_tid
  tid t = let u : Thread = if t.cached_tid == 0 then cache_tid t else t in (u.cached_tid, u)

  -- The ids that `n` calls return.
  unfoldable pub tids : ℕ → Thread → List ℕ × Thread
  tids zero t = ([], t)
  tids (suc n) t = let (i, u) = tid t in let (is, v) = tids n u in (i ∷ is, v)

  -- The cache is filled.
  abbrev pub cached : Thread
  cached = record {
    cached_tid = id;
    formatted_tid = format id;
    formatted_tid_length = length (format id);
    gettid_calls = 1;
  }

  tid_first : tid init ≡ (id, cached)
  unfolding tid cache_tid gettid init
  tid_first = refl

  tids_step :
      (n : ℕ) (t : Thread) (ids : List ℕ)
      → tid t ≡ (id, cached)
      → tids n cached ≡ (ids, cached)
      → tids (suc n) t ≡ (id ∷ ids, cached)
  unfolding tids
  tids_step n t ids e h =
      ap {A = ℕ × Thread} (λ p. (p.0 ∷ (tids n p.1).0, (tids n p.1).1)) e
      ∙ ap {A = List ℕ × Thread} (λ p. (id ∷ p.0, p.1)) h

  tids-cached : id ≢ 0 → (n : ℕ) → tids n cached ≡ (replicate n id, cached)
  unfolding tids tid
  tids-cached some_id zero = refl
  tids-cached some_id (suc n) =
      tids_step n cached (replicate n id) (rw (==_ne id 0 some_id) refl) (tids-cached some_id n)

  -- If the kernel's id of a thread is not 0, then every call of `tid` on that thread returns it, however
  -- many there are; `gettid` is called once, by the first, and the text kept is the one of the id.
  pub tids_lem : id ≢ 0 → (n : ℕ) → tids (suc n) init ≡ (replicate (suc n) id, cached)
  tids_lem some_id n = tids_step n init (replicate n id) tid_first (tids-cached some_id n)
