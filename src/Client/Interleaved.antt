-- ===== src/Client/Interleaved.antt =====
-- The threads of a test, which take their steps one at a time and in any order: what their positions come
-- to together. `S` is what the threads share, `P` where one of them stands, and `Move s p t q` a step
-- from `p` to `q` which makes `t` of `s`.
use Prim.Native.Nat.mul as Mul
use native.Mathlib.Nat.{add_comm}
use epoll_server.Base.{
  ℕ, zero, suc, ◌+◌, ◌*◌, ◌≤◌, ◌<◌, ◌≡◌, refl, ap, false, ◌==◌, if◌then◌else◌, List, [], ◌∷◌, ◌++◌,
  arith, Bool-cases, inl, inr, ==_iff, update,
}

-- The sum of the weights of the first `n` threads.
unfoldable pub total {ℓ} : {P : Type ℓ} → (P → ℕ) → ℕ → (ℕ → P) → ℕ
total weight zero at = 0
total weight (suc n) at = total weight n at + weight (at n)

module _ {ℓ} {P : Type ℓ} (weight : P → ℕ) where
  total_above :
      (n : ℕ) (at : ℕ → P) (i : ℕ) (p : P)
      → n ≤ i
      → total weight n (update at i p) ≡ total weight n at
  unfolding total update
  total_above zero at i p h = refl
  total_above (suc n) at i p h = ground (arith, total_above n at i p)

  total-update :
      (n : ℕ) (at : ℕ → P) (i : ℕ) (p : P)
      → i < n
      → total weight n (update at i p) + weight (at i) ≡ total weight n at + weight p
  unfolding total update
  total-update zero at i p h = absurd (omega arith)
  total-update (suc n) at i p h = elim (Bool-cases (i == n)) [
    | inl last ↦
        let same : i ≡ n = (==_iff i n).0 last in
        rw last (omega (arith, total_above n at i p (omega arith), ap (λ j. weight (at j)) same))
    | inr below ↦ rw below (omega (arith, total-update n at i p (smaller below)))
  ]
    where
      smaller : i == n ≡ false → i < n
      smaller below = ground arith

  pub total_same :
      (n : ℕ) (at : ℕ → P) (w : ℕ)
      → ((i : ℕ) → i < n → weight (at i) ≡ w)
      → total weight n at ≡ n * w
  unfolding total
  total_same zero at w h = omega arith
  total_same (suc n) at w h =
      rw (Mul.suc n w, total_same n at w (λ i below. h i (omega arith)), h n (omega arith))
        (add_comm (n * w) w)

pub total_le :
    {P : Type 0} (small large : P → ℕ) (n : ℕ) (at : ℕ → P)
    → ((i : ℕ) → i < n → small (at i) ≤ large (at i))
    → total small n at ≤ total large n at
unfolding total
total_le small large zero at h = omega arith
total_le small large (suc n) at h =
    omega (arith, h n (omega arith), total_le small large n at (λ i below. h i (omega arith)))

-- What the threads share, and where each of them stands.
pub record Threads (S P : Type 0) : Type 0 where
  pub shared : S
  pub at : ℕ → P

module _ {S P : Type 0} (Move : S → P → S → P → Type 0) (n : ℕ) where
  pub data Step (s : Threads S P) : Threads S P → Type 0 where
    moves :
        (i : ℕ) {t : S} {q : P}
        → i < n
        → Move s.shared (s.at i) t q
        → Step s (record { shared = t; at = update s.at i q })

  pub data Reach (s : Threads S P) : Threads S P → Type 0 where
    here : Reach s s
    next : {t u : Threads S P} → Reach s t → Step t u → Reach s u

  unfoldable pub steps : {s t : Threads S P} → Reach s t → ℕ
  steps here = 0
  steps (next reach step) = steps reach + 1

  -- A quantity that changes only as the position of the thread does which moves.
  pub Reach-total :
      (value spent : S → ℕ) (weight : P → ℕ)
      → ((s : S) (p : P) (t : S) (q : P)
          → Move s p t q
          → value t + spent s + weight p ≡ value s + spent t + weight q)
      → {s t : Threads S P} → Reach s t
      → value t.shared + spent s.shared + total weight n s.at
        ≡ value s.shared + spent t.shared + total weight n t.at
  Reach-total value spent weight balanced here = refl
  Reach-total value spent weight balanced (next {t} {u} reach (moves i below move)) = omega (
    arith,
    balanced _ _ _ _ move,
    total-update weight n t.at i _ below,
    Reach-total value spent weight balanced reach,
  )

  -- A measure that goes down in each step bounds their number.
  pub Reach-steps :
      (left : P → ℕ)
      → ((s : S) (p : P) (t : S) (q : P) → Move s p t q → left q < left p)
      → {s t : Threads S P} (reach : Reach s t)
      → steps reach + total left n t.at ≤ total left n s.at
  unfolding steps
  Reach-steps left falls here = omega arith
  Reach-steps left falls (next {t} {u} reach (moves i below move)) =
      omega (
        arith,
        falls _ _ _ _ move,
        total-update left n t.at i _ below,
        Reach-steps left falls reach,
      )

  -- What holds of each position at the start and is kept by each step.
  pub Reach-all :
      (Holds : P → Type 0)
      → ((s : S) (p : P) (t : S) (q : P) → Move s p t q → Holds p → Holds q)
      → {s t : Threads S P} → ((i : ℕ) → Holds (s.at i))
      → Reach s t
      → (i : ℕ) → Holds (t.at i)
  unfolding update
  Reach-all Holds keeps h here i = h i
  Reach-all Holds keeps h (next {t} reach (moves j {q = q} below move)) i =
      elim (Bool-cases (j == i)) [
        | inl mover ↦ rw mover (keeps _ _ _ _ move (Reach-all Holds keeps h reach j))
        | inr other ↦ rw other (Reach-all Holds keeps h reach i)
      ]

-- How often a number stands in a list.
unfoldable pub count : ℕ → List ℕ → ℕ
count x [] = 0
count x (y ∷ ys) = (if y == x then 1 else 0) + count x ys

pub count-snoc :
    (x y : ℕ) (ys : List ℕ) → count x (ys ++ (y ∷ [])) ≡ count x ys + (if y == x then 1 else 0)
unfolding count
count-snoc x y [] = omega arith
count-snoc x y (z ∷ ys) = omega (arith, count-snoc x y ys)

abbrev pub one_at : ℕ → ℕ → ℕ
one_at fd x = if x == fd then 1 else 0
