-- ===== src/Client/Letters.antt =====
-- The packet that the loop of `generateRandomPackage` leaves, for both orders.
use epoll_server.Base.{
  ℕ, zero, suc, ◌+◌, ◌%◌, ◌≤◌, ◌≡◌, ◌↔◌, refl, sym, ap, ◌∙◌, true, Option, none, some, List, [],
  ◌∷◌, ◌++◌, ltb, lt→ltb, le→ltb, ◌<◌, ◌==◌, ==_iff, Bool-cases, inl, inr, arith, length, replicate,
  length-append, append_assoc, none≢some,
}
use epoll_server.Tlv.{outgoing_header}
use epoll_server.Tlv.Wire.{length-outgoing_header}
use epoll_server.Client.Package.{
  Order, index_first, increment_first, alphanum, store, index_of, fill, generate_random_package,
  letters,
}

-- A write behind `pre`.
store_at :
    (pre post : List ℕ) (x v : ℕ) (i : ℕ)
    → i ≡ length pre
    → store (pre ++ (x ∷ post)) i v ≡ some (pre ++ (v ∷ post))
unfolding store
store_at [] post x v zero e = refl
store_at [] post x v (suc i) e = absurd (omega arith)
store_at (p ∷ pre) post x v zero e = absurd (omega arith)
store_at (p ∷ pre) post x v (suc i) e = rw (store_at pre post x v i (omega arith), store) refl

store_outside : (xs : List ℕ) (i v : ℕ) → length xs ≤ i → store xs i v ≡ none
unfolding store
store_outside [] i v h = refl
store_outside (x ∷ xs) zero v h = absurd (omega arith)
store_outside (x ∷ xs) (suc i) v h = rw (store_outside xs i v (omega arith), store) refl

-- The bytes behind those that are there.
abbrev behind : List ℕ → Option (List ℕ) → Option (List ℕ)
behind pre none = none
behind pre (some rest) = some (pre ++ rest)

-- One round that writes.
fill-suc :
    (order : Order) (rounds i len : ℕ) (packet next : List ℕ)
    → ltb i len ≡ true
    → store packet (8 + index_of order i) (alphanum (i % 62)) ≡ some next
    → fill order (suc rounds) i len packet ≡ fill order rounds (i + 2) len next
unfolding fill
fill-suc order rounds i len packet next more e = rw (more, e, fill) refl

fill_done :
    (order : Order) (rounds i len : ℕ) (packet : List ℕ)
    → len ≤ i
    → fill order rounds i len packet ≡ some packet
unfolding fill
fill_done order zero i len packet h = refl
fill_done order (suc rounds) i len packet h = rw (le→ltb i len h, fill) refl

fill_outside :
    (order : Order) (rounds i len : ℕ) (packet : List ℕ)
    → i < len
    → length packet ≤ 8 + index_of order i
    → fill order (suc rounds) i len packet ≡ none
unfolding fill
fill_outside order rounds i len packet h out =
    rw (lt→ltb i len h, store_outside packet (8 + index_of order i) (alphanum (i % 62)) out, fill)
      refl

behind_two :
    (pre : List ℕ) (x y : ℕ) (o : Option (List ℕ))
    → behind (pre ++ (x ∷ y ∷ [])) o
      ≡ behind pre (elim o [ none ↦ none | some rest ↦ some (x ∷ y ∷ rest) ])
behind_two pre x y none = refl
behind_two pre x y (some rest) = ap some (append_assoc pre (x ∷ y ∷ []) rest)

two_more :
    (pre : List ℕ) (x y i : ℕ) → length pre ≡ 8 + i → length (pre ++ (x ∷ y ∷ [])) ≡ 8 + (i + 2)
two_more pre x y i p = omega (arith, p, length-append pre (x ∷ y ∷ []))

fill_lem :
    (order : Order) (n rounds i len : ℕ) (pre : List ℕ)
    → length pre ≡ 8 + i
    → i + n ≡ len
    → n ≤ rounds
    → fill order rounds i len (pre ++ replicate n 0) ≡ behind pre (letters order i n)
unfolding letters
fill_lem order zero rounds i len pre p e r = fill_done order rounds i len (pre ++ []) (omega arith)
fill_lem index_first (suc zero) (suc rounds) i len pre p e r =
    fill-suc index_first rounds i len (pre ++ (0 ∷ [])) (pre ++ (alphanum (i % 62) ∷ []))
      (lt→ltb i len (omega arith)) (store_at pre [] 0 (alphanum (i % 62)) (8 + i) (sym p))
    ∙ fill_done index_first rounds (i + 2) len (pre ++ (alphanum (i % 62) ∷ [])) (omega arith)
fill_lem increment_first (suc zero) (suc rounds) i len pre p e r =
    fill_outside increment_first rounds i len (pre ++ (0 ∷ [])) (omega arith)
      (omega (arith, p, length-append pre (0 ∷ [])))
fill_lem index_first (suc (suc n)) (suc rounds) i len pre p e r =
    let c : ℕ = alphanum (i % 62) in
    fill-suc index_first rounds i len (pre ++ (0 ∷ 0 ∷ replicate n 0))
      (pre ++ (c ∷ 0 ∷ replicate n 0)) (lt→ltb i len (omega arith))
      (store_at pre (0 ∷ replicate n 0) 0 c (8 + i) (sym p))
    ∙ ap (fill index_first rounds (i + 2) len) (sym (append_assoc pre (c ∷ 0 ∷ []) (replicate n 0)))
    ∙ fill_lem index_first n rounds (i + 2) len (pre ++ (c ∷ 0 ∷ [])) (two_more pre c 0 i p)
        (omega arith) (omega arith)
    ∙ behind_two pre c 0 (letters index_first (i + 2) n)
fill_lem increment_first (suc (suc n)) (suc rounds) i len pre p e r =
    let c : ℕ = alphanum (i % 62) in
    fill-suc increment_first rounds i len (pre ++ (0 ∷ 0 ∷ replicate n 0))
      (pre ++ (0 ∷ c ∷ replicate n 0)) (lt→ltb i len (omega arith))
      (ap (λ packet. store packet (8 + (i + 1)) c)
          (sym (append_assoc pre (0 ∷ []) (0 ∷ replicate n 0)))
        ∙ store_at (pre ++ (0 ∷ [])) (replicate n 0) 0 c (8 + (i + 1))
            (omega (arith, p, length-append pre (0 ∷ [])))
        ∙ ap some (append_assoc pre (0 ∷ []) (c ∷ replicate n 0)))
    ∙ ap (fill increment_first rounds (i + 2) len)
        (sym (append_assoc pre (0 ∷ c ∷ []) (replicate n 0)))
    ∙ fill_lem increment_first n rounds (i + 2) len (pre ++ (0 ∷ c ∷ [])) (two_more pre 0 c i p)
        (omega arith) (omega arith)
    ∙ behind_two pre 0 c (letters increment_first (i + 2) n)
fill_lem order (suc n) zero i len pre p e r = absurd (omega arith)

generated :
    (order : Order) (len : ℕ)
    → generate_random_package order len ≡ behind (outgoing_header len) (letters order 0 len)
unfolding generate_random_package
generated order len =
    fill_lem order len len 0 len (outgoing_header len) (length-outgoing_header len) (omega arith)
      (omega arith)

letters_total : (i n : ℕ) → (ls : List ℕ) × (letters index_first i n ≡ some ls) × (length ls ≡ n)
unfolding letters
letters_total i zero = ([], refl, refl)
letters_total i (suc zero) = (alphanum (i % 62) ∷ [], refl, refl)
letters_total i (suc (suc n)) =
    let (rest, e, l) = letters_total (i + 2) n in
    (alphanum (i % 62) ∷ 0 ∷ rest, rw (e, letters) refl, omega arith)

letters_odd : (i n : ℕ) → n % 2 ≡ 1 → letters increment_first i n ≡ none
unfolding letters
letters_odd i zero odd = absurd (omega arith)
letters_odd i (suc zero) odd = refl
letters_odd i (suc (suc n)) odd = rw (letters_odd (i + 2) n (omega arith), letters) refl

letters_even : (i n : ℕ) → n % 2 ≡ 0 → (ls : List ℕ) × (letters increment_first i n ≡ some ls)
unfolding letters
letters_even i zero even = ([], refl)
letters_even i (suc zero) even = absurd (omega arith)
letters_even i (suc (suc n)) even =
    let (rest, e) = letters_even (i + 2) n (omega arith) in
    (0 ∷ alphanum (i % 62) ∷ rest, rw (e, letters) refl)

odd_of_none : (len : ℕ) → generate_random_package increment_first len ≡ none → len % 2 ≡ 1
odd_of_none len e = elim (Bool-cases (len % 2 == 1)) [
  | inl odd ↦ (==_iff (len % 2) 1).0 odd
  | inr other ↦
      let even : len % 2 ≡ 0 = ground arith in
      let (ls, f) = letters_even 0 len even in
      absurd
        (none≢some (sym e ∙ generated increment_first len ∙ ap (behind (outgoing_header len)) f))
]

-- If the compiler takes the index before it increments `i`, then generateRandomPackage never leaves its
-- vector, and gives the header of the length and behind it that many bytes, of which every second one
-- is a letter or digit and the others are 0. If it increments first, then it writes behind the vector
-- exactly for the odd lengths.
pub generate_random_package_lem :
    (len : ℕ)
    → ((ls : List ℕ) × (letters index_first 0 len ≡ some ls)
        × (length ls ≡ len)
        × (generate_random_package index_first len ≡ some (outgoing_header len ++ ls)))
      × ((generate_random_package increment_first len ≡ none) ↔ (len % 2 ≡ 1))
generate_random_package_lem len =
    let (ls, e, l) = letters_total 0 len in
    (
      (ls, e, l, generated index_first len ∙ ap (behind (outgoing_header len)) e),
      (
        odd_of_none len,
        λ odd.
            generated increment_first len
            ∙ ap (behind (outgoing_header len)) (letters_odd 0 len odd),
      ),
    )
