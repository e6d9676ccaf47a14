-- ===== src/Client/Package.antt =====
-- `generateRandomPackage`: what it writes behind the header.
-- The statement in its loop both reads `i` for the index and increments it for the character, and
-- C++14 gives no order to the two: `Order` is the order that the compiler takes.
use epoll_server.Base.{
  ℕ, zero, suc, ◌+◌, ◌%◌, true, false, Option, none, some, List, [], ◌∷◌, ◌++◌, ltb, if◌then◌else◌,
  replicate,
}
use epoll_server.Tlv.{outgoing_header, tlv_header_length}

pub data Order : Type 0 where
  index_first increment_first : Order

-- The table of the digits, the capital and the small letters.
unfoldable pub alphanum : ℕ → ℕ
alphanum i = if ltb i 10 then 48 + i else if ltb i 36 then 55 + i else 61 + i

-- A write into the vector, which has to be in its range.
unfoldable pub store : List ℕ → ℕ → ℕ → Option (List ℕ)
store [] i v = none
store (x ∷ xs) zero v = some (v ∷ xs)
store (x ∷ xs) (suc i) v = elim (store xs i v) [ none ↦ none | some ys ↦ some (x ∷ ys) ]

-- The index `i` that the write takes.
abbrev pub index_of : Order → ℕ → ℕ
index_of index_first i = i
index_of increment_first i = i + 1

-- The loop, with at most `rounds` rounds left: `i` grows by one in the statement and by one behind it.
unfoldable pub fill : Order → ℕ → ℕ → ℕ → List ℕ → Option (List ℕ)
unfolding store alphanum
fill order zero i len packet = some packet
fill order (suc rounds) i len packet = elim (ltb i len) [
  | false ↦ some packet
  | true ↦ (elim (store packet (tlv_header_length + index_of order i) (alphanum (i % 62))) [
    | none ↦ none
    | some next ↦ fill order rounds (i + 2) len next
  ])
]

unfoldable pub generate_random_package : Order → ℕ → Option (List ℕ)
unfolding fill
generate_random_package order len = fill order len 0 len (outgoing_header len ++ replicate len 0)

-- What stands behind the header afterwards, from index `i` on.
unfoldable pub letters : Order → ℕ → ℕ → Option (List ℕ)
unfolding alphanum
letters order i zero = some []
letters index_first i (suc zero) = some (alphanum (i % 62) ∷ [])
letters increment_first i (suc zero) = none
letters order i (suc (suc n)) = elim (letters order (i + 2) n) [
  | none ↦ none
  | some rest ↦ some (elim order [
    | index_first ↦ alphanum (i % 62) ∷ 0 ∷ rest
    | increment_first ↦ 0 ∷ alphanum (i % 62) ∷ rest
  ])
]
