-- ===== src/Base/Memory.antt =====
-- What a write into memory leaves: the laws of `blit` and `resize`.
use Prim.Native.Nat.{ℕ, ◌+◌, ◌-◌, ◌≤◌}
use mathlib.Core.Path.{◌≡◌, ap, ◌∙◌}
use mathlib.Core.List.{List, ◌++◌}
use native.Mathlib.Omega.{arith}
use mathlib.Core.Logic.{◌≢◌}
use epoll_server.Base.Tests.{◌==◌, if◌then◌else◌, ==_eq, ==_ne, if_so, if_not}
use epoll_server.Base.Lists.{
  length, take, drop, replicate, blit, resize, length-append, length-take, length-drop,
  length-replicate, take_all, take-append_left, take-append_right,
}

module _ {ℓ} {A : Type ℓ} (m : List A) (i : ℕ) (xs : List A) where
  pub length-blit : i + length xs ≤ length m → length (blit m i xs) ≡ length m
  length-blit h = omega (
    arith,
    length-append (take i m) (xs ++ drop (i + length xs) m),
    length-append xs (drop (i + length xs) m),
    length-take i m,
    length-drop (i + length xs) m,
  )

  pub take-blit : i ≤ length m → take (i + length xs) (blit m i xs) ≡ take i m ++ xs
  take-blit h =
      take-append_right (i + length xs) (length xs) (take i m) (xs ++ drop (i + length xs) m)
        (omega (arith, length-take i m))
      ∙ ap (λ t. take i m ++ t)
          (take-append_left (length xs) xs (drop (i + length xs) m) (omega arith)
            ∙ take_all (length xs) xs (omega arith))

  pub take-blit_before : i ≤ length m → take i (blit m i xs) ≡ take i m
  take-blit_before h =
      take-append_left i (take i m) (xs ++ drop (i + length xs) m) (omega (arith, length-take i m))
      ∙ take_all i (take i m) (omega (arith, length-take i m))

module _ {ℓ} {A : Type ℓ} (n : ℕ) (a : A) (xs : List A) where
  pub length-resize : length (resize n a xs) ≡ n
  length-resize = omega (
    arith,
    length-append (take n xs) (replicate (n - length xs) a),
    length-take n xs,
    length-replicate (n - length xs) a,
  )

  -- A vector that grows keeps what it holds.
  pub take-resize : (i : ℕ) → i ≤ length xs → length xs ≤ n → take i (resize n a xs) ≡ take i xs
  take-resize i h g =
      ap (λ t. take i (t ++ replicate (n - length xs) a)) (take_all n xs g)
      ∙ take-append_left i xs (replicate (n - length xs) a) h

-- A family with another value at one index.
unfoldable pub update {ℓ} : {A : Type ℓ} → (ℕ → A) → ℕ → A → ℕ → A
update at i x j = if i == j then x else at j

pub update_same {ℓ} : {A : Type ℓ} (at : ℕ → A) (i : ℕ) (x : A) → update at i x i ≡ x
unfolding update
update_same at i x = if_so (i == i) x (at i) (==_eq i i (λ _. i))

pub update_other {ℓ} : {A : Type ℓ} (at : ℕ → A) (i j : ℕ) (x : A) → i ≢ j → update at i x j ≡ at j
unfolding update
update_other at i j x h = if_not (i == j) x (at j) (==_ne i j h)
