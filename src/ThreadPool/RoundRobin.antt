-- ===== src/ThreadPool/RoundRobin.antt =====
-- Which loops calls that follow on each other return.
use epoll_server.Base.{
  ℕ, suc, ◌+◌, ◌<◌, ◌≡◌, ◌≢◌, refl, sym, ap, ◌∙◌, subst, some, List, [], ◌∷◌, ◌++◌, arith, ==_ne,
  ==_iff, length, length-append, append-nil, append_assoc,
}
use epoll_server.ThreadPool.{ThreadPool, loop_at, advance, next_event_loop, next_event_loops}

module _ {ℓ} {L : Type ℓ} where
  loop_at-append : (pre post : List L) (l : L) → loop_at (pre ++ (l ∷ post)) (length pre) ≡ some l
  unfolding loop_at
  loop_at-append [] post l = refl
  loop_at-append (x ∷ pre) post l = loop_at-append pre post l

  abbrev at : List L → ThreadPool L → ThreadPool L
  at pre p = record p { next = length pre }

  next_event_loop_lem :
      (p : ThreadPool L) (l : L) (i : ℕ)
      → p.sub_reactors ≢ 0
      → loop_at p.event_loops p.next ≡ some l
      → advance p ≡ i
      → next_event_loop p ≡ some (l, record p { next = i })
  unfolding next_event_loop
  next_event_loop_lem p l i n e a =
      rw (==_ne p.sub_reactors 0 n, e) (ap (λ i. some (l, record p { next = i })) a)

  next_event_loops-zero : (p : ThreadPool L) → next_event_loops 0 p ≡ some ([], p)
  unfolding next_event_loops
  next_event_loops-zero p = refl

  next_event_loops-suc :
      (n : ℕ) (p q r : ThreadPool L) (l : L) (ls : List L)
      → next_event_loop p ≡ some (l, q)
      → next_event_loops n q ≡ some (ls, r)
      → next_event_loops (suc n) p ≡ some (l ∷ ls, r)
  unfolding next_event_loops
  next_event_loops-suc n p q r l ls e f = rw (next_event_loops, e, f) refl

  -- The pool has a loop for every thread, and these are `pre`, `l` and `post`.
  record Loops (p : ThreadPool L) (pre post : List L) (l : L) : Type ℓ where
    all : p.event_loops ≡ pre ++ (l ∷ post)
    count : p.sub_reactors ≡ length p.event_loops

  Loops-count :
      {p : ThreadPool L} {pre post : List L} {l : L}
      → Loops p pre post l
      → p.sub_reactors ≡ length pre + suc (length post)
  Loops-count {pre = pre} {post = post} {l = l} s =
      s.count ∙ ap length s.all ∙ length-append pre (l ∷ post)

  -- The call for the loop behind `pre`: which loop it returns, whatever comes next.
  next_event_loop-at :
      (pre post : List L) (l : L) (i : ℕ) (p : ThreadPool L)
      → Loops p pre post l
      → advance (at pre p) ≡ i
      → next_event_loop (at pre p) ≡ some (l, record p { next = i })
  next_event_loop-at pre post l i p s a =
      next_event_loop_lem (at pre p) l i (λ e. absurd (omega (arith, e, Loops-count s)))
        (ap (λ ls. loop_at ls (length pre)) s.all ∙ loop_at-append pre post l) a

  advance_last :
      (pre : List L) (l : L) (p : ThreadPool L) → Loops p pre [] l → advance (at pre p) ≡ 0
  advance_last pre l p s =
      rw ((==_iff (length pre + 1) p.sub_reactors).1 (omega (arith, Loops-count s))) refl

  advance_inside :
      (pre post : List L) (l : L) (p : ThreadPool L)
      → Loops p pre post l
      → 0 < length post
      → advance (at pre p) ≡ length (pre ++ (l ∷ []))
  advance_inside pre post l p s h =
      rw (==_ne (length pre + 1) p.sub_reactors (λ e. absurd (omega (arith, e, h, Loops-count s))))
        (omega (arith, length-append pre (l ∷ [])))

  Loops-next :
      (pre post : List L) (l l' : L) (p : ThreadPool L)
      → Loops p pre (l' ∷ post) l
      → Loops p (pre ++ (l ∷ [])) post l'
  Loops-next pre post l l' p s = record {
    all = s.all ∙ sym (append_assoc pre (l ∷ []) (l' ∷ post));
    count = s.count;
  }

  -- To the last loop, and `n` calls more.
  to_end :
      (post pre : List L) (l : L) (p r : ThreadPool L) (n : ℕ) (ls : List L)
      → Loops p pre post l
      → next_event_loops n (at [] p) ≡ some (ls, r)
      → next_event_loops (suc (length post + n)) (at pre p) ≡ some (l ∷ (post ++ ls), r)
  to_end [] pre l p r n ls s more =
      subst (λ c. next_event_loops (suc c) (at pre p) ≡ some (l ∷ ls, r)) (omega arith)
        (next_event_loops-suc n (at pre p) (at [] p) r l ls
          (next_event_loop-at pre [] l 0 p s (advance_last pre l p s)) more)
  to_end (l' ∷ post) pre l p r n ls s more =
      subst (λ c. next_event_loops (suc c) (at pre p) ≡ some (l ∷ l' ∷ (post ++ ls), r))
        (omega arith)
        (next_event_loops-suc (suc (length post + n)) (at pre p) (at (pre ++ (l ∷ [])) p) r l
          (l' ∷ (post ++ ls))
          (next_event_loop-at pre (l' ∷ post) l _ p s
            (advance_inside pre (l' ∷ post) l p s (omega arith)))
          (to_end post (pre ++ (l ∷ [])) l' p r n ls (Loops-next pre post l l' p s) more))

  to_middle :
      (mid pre post : List L) (l : L) (p : ThreadPool L)
      → p.event_loops ≡ pre ++ (mid ++ (l ∷ post))
      → p.sub_reactors ≡ length p.event_loops
      → next_event_loops (length mid) (at pre p) ≡ some (mid, at (pre ++ mid) p)
  to_middle [] pre post l p all count =
      next_event_loops-zero (at pre p) ∙ ap (λ ls. some ([], at ls p)) (sym (append-nil pre))
  to_middle (k ∷ mid) pre post l p all count =
      next_event_loops-suc (length mid) (at pre p) (at (pre ++ (k ∷ [])) p)
        (at (pre ++ (k ∷ mid)) p) k mid
        (next_event_loop-at pre (mid ++ (l ∷ post)) k _ p (record { all = all; count = count })
          (advance_inside pre (mid ++ (l ∷ post)) k p (record { all = all; count = count })
            (omega (arith, length-append mid (l ∷ post)))))
        (to_middle mid (pre ++ (k ∷ [])) post l p
            (all ∙ sym (append_assoc pre (k ∷ []) (mid ++ (l ∷ post)))) count
          ∙ ap (λ ls. some (mid, at ls p)) (append_assoc pre (k ∷ []) mid))

  -- In a pool with a loop for every thread, from the one after `pre` on, as many calls as there are
  -- loops return each of them once, in their order and from the last on to the first, and leave the
  -- pool as it was.
  pub next_event_loops-round :
      (pre post : List L) (l : L) (p : ThreadPool L)
      → p.event_loops ≡ pre ++ (l ∷ post)
      → p.sub_reactors ≡ length p.event_loops
      → p.next ≡ length pre
      → next_event_loops p.sub_reactors p ≡ some ((l ∷ post) ++ pre, p)
  next_event_loops-round pre post l p all count e =
      let s : Loops p pre post l = record { all = all; count = count } in
      let p' : p ≡ at pre p = ap (λ i. record p { next = i }) e in
      subst (λ q. next_event_loops p.sub_reactors q ≡ some ((l ∷ post) ++ pre, q)) (sym p')
        (subst (λ c. next_event_loops c (at pre p) ≡ some ((l ∷ post) ++ pre, at pre p))
          (omega (arith, Loops-count s))
          (to_end post pre l p (at pre p) (length pre) pre s (to_middle pre [] post l p all count)))
