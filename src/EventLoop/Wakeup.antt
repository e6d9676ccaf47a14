-- ===== src/EventLoop/Wakeup.antt =====
-- The steps of a loop's thread and of the threads that hand it functions.
use epoll_server.Base.{
  ℕ, ◌<◌, ◌≡◌, ◌≢◌, refl, sym, ap, ◌∙◌, inl, inr, Bool, true, false, none, some, List, [], ◌∷◌,
  ◌++◌, arith, append-nil, append_assoc, not, ◌||◌, Bool-cases, false≢true, ==_ne, ◌==◌, none≢some,
  some_inj,
}
use epoll_server.Base.{◌⊎◌}
use epoll_server.EventLoop.{
  init, EventLoop, queue_one_func, take_funcs, end_funcs, handle_read, is_in_loop_thread,
}

-- Where the loop's thread stands: in `epoll_wait`, among the ready channels, or in `HandleToDoList`
-- with these functions still to call.
pub data Pc {ℓ} (A : Type ℓ) : Type ℓ where
  waiting : Pc A
  handling : Pc A
  calling : List A → Pc A

-- The loop and its thread, with the functions handed over so far and those run so far, in order.
pub record Running {ℓ} (A : Type ℓ) : Type ℓ where
  pub loop : EventLoop A
  pub pc : Pc A
  pub handed : List A
  pub ran : List A

or_right : (a : Bool) {b : Bool} → b ≡ true → a || b ≡ true
or_right true e = refl
or_right false e = e

module _ {ℓ} {A : Type ℓ} where
  abbrev pub queue : ℕ → A → Running A → Running A
  queue caller cb r = record r {
    loop = queue_one_func caller cb r.loop;
    handed = r.handed ++ (cb ∷ []);
  }

  -- The constructed loop of a thread that is about to start it, with nothing handed over.
  abbrev pub starting : ℕ → Running A
  starting tid = record { loop = init tid; pc = waiting; handed = []; ran = [] }

  -- One step, of the loop's thread or of another that hands it a function. Since `tid_` is never assigned,
  -- the loop's own thread may take itself for another, or not: its id is any number.
  pub data Step (r : Running A) : Running A → Type ℓ where
    post : (caller : ℕ) (cb : A) → caller ≢ r.loop.tid → Step r (queue caller cb r)
    queue_own : (caller : ℕ) (cb : A) → r.pc ≢ waiting → Step r (queue caller cb r)
    wake : r.pc ≡ waiting → Step r (record r { pc = handling })
    drain :
        {l : EventLoop A}
        → r.pc ≡ handling
        → handle_read r.loop ≡ some l
        → Step r (record r { loop = l })
    take_list :
        r.pc ≡ handling
        → Step r (record r { loop = (take_funcs r.loop).0; pc = calling (take_funcs r.loop).1 })
    run_next :
        {f : A} {fs : List A}
        → r.pc ≡ calling (f ∷ fs)
        → Step r (record r { pc = calling fs; ran = r.ran ++ (f ∷ []) })
    sleep : r.pc ≡ calling [] → Step r (record r { loop = end_funcs r.loop; pc = waiting })

  pub data Reach (r : Running A) : Running A → Type ℓ where
    here : Reach r r
    next : {s t : Running A} → Reach r s → Step s t → Reach r t

  -- The functions that `HandleToDoList` has taken and not yet called.
  abbrev pub in_hand : Pc A → List A
  in_hand (calling fs) = fs
  in_hand _ = []

  abbrev pub is_calling : Pc A → Bool
  is_calling (calling fs) = true
  is_calling _ = false

  pub record IsKept (r : Running A) : Type ℓ where
    pub flag : r.loop.calling_funcs ≡ is_calling r.pc
    pub in_order : r.handed ≡ r.ran ++ (in_hand r.pc ++ r.loop.to_do_list)
    pub seen : (r.pc ≡ handling) ⊎ ((r.loop.to_do_list ≡ []) ⊎ (0 < r.loop.wakeup_count))

  pub queue_one_func-list :
      (caller : ℕ) (cb : A) (l : EventLoop A)
      → (queue_one_func caller cb l).to_do_list ≡ l.to_do_list ++ (cb ∷ [])
  unfolding queue_one_func
  queue_one_func-list caller cb l =
      elim (Bool-cases (not (is_in_loop_thread caller l) || l.calling_funcs)) [
        | inl e ↦ rw e refl
        | inr e ↦ rw e refl
      ]

  queue_one_func-flag :
      (caller : ℕ) (cb : A) (l : EventLoop A)
      → (queue_one_func caller cb l).calling_funcs ≡ l.calling_funcs
  unfolding queue_one_func
  queue_one_func-flag caller cb l =
      elim (Bool-cases (not (is_in_loop_thread caller l) || l.calling_funcs)) [
        | inl e ↦ rw e refl
        | inr e ↦ rw e refl
      ]

  queue_one_func_wakes :
      (caller : ℕ) (cb : A) (l : EventLoop A)
      → not (is_in_loop_thread caller l) || l.calling_funcs ≡ true
      → 0 < (queue_one_func caller cb l).wakeup_count
  unfolding queue_one_func
  queue_one_func_wakes caller cb l e = rw e (omega arith)

  -- A call of QueueOneFunc that wakes the loop wherever that is needed keeps everything.
  queue-IsKept :
      (caller : ℕ) (cb : A) (r : Running A)
      → IsKept r
      → (r.pc ≡ handling) ⊎ (not (is_in_loop_thread caller r.loop) || r.loop.calling_funcs ≡ true)
      → IsKept (queue caller cb r)
  queue-IsKept caller cb r k woken = record {
    flag = queue_one_func-flag caller cb r.loop ∙ k.flag;
    in_order = sym (
        ap (λ q. r.ran ++ (in_hand r.pc ++ q)) (queue_one_func-list caller cb r.loop)
        ∙ ap (λ q. r.ran ++ q) (sym (append_assoc (in_hand r.pc) r.loop.to_do_list (cb ∷ [])))
        ∙ sym (append_assoc r.ran (in_hand r.pc ++ r.loop.to_do_list) (cb ∷ []))
        ∙ ap (λ q. q ++ (cb ∷ [])) (sym k.in_order));
    seen = elim woken [
      | inl e ↦ inl e
      | inr w ↦ inr (inr (queue_one_func_wakes caller cb r.loop w))
    ];
  }

  handle_read_empty : (l : EventLoop A) → l.wakeup_count == 0 ≡ true → handle_read l ≡ none
  unfolding handle_read
  handle_read_empty l z = rw z refl

  handle_read_drains :
      (l : EventLoop A)
      → l.wakeup_count == 0 ≡ false
      → handle_read l ≡ some (record l { wakeup_count = 0 })
  unfolding handle_read
  handle_read_drains l z = rw z refl

  -- A read that succeeds changes nothing but the counter.
  handle_read-loop :
      (l : EventLoop A) {t : EventLoop A}
      → handle_read l ≡ some t
      → (t.to_do_list ≡ l.to_do_list) × (t.calling_funcs ≡ l.calling_funcs)
  handle_read-loop l {t} e = elim (Bool-cases (l.wakeup_count == 0)) [
    | inl z ↦ absurd (none≢some (sym (handle_read_empty l z) ∙ e))
    | inr z ↦
        let q = sym (some_inj (sym (handle_read_drains l z) ∙ e)) in
        (ap (λ x. x.to_do_list) q, ap (λ x. x.calling_funcs) q)
  ]

  pc_busy : (p : Pc A) → p ≢ waiting → (p ≡ handling) ⊎ (is_calling p ≡ true)
  pc_busy waiting w = absurd (w refl)
  pc_busy handling w = inl refl
  pc_busy (calling fs) w = inr refl

  calling≢handling : {fs : List A} {p : Pc A} → p ≡ calling fs → p ≢ handling
  calling≢handling e bad = false≢true (ap is_calling (sym bad ∙ e))

  pub calling≢waiting : {fs : List A} {p : Pc A} → p ≡ calling fs → p ≢ waiting
  calling≢waiting e bad = false≢true (ap is_calling (sym bad ∙ e))

  IsKept-flag :
      {r : Running A} {p : Pc A} → IsKept r → r.pc ≡ p → r.loop.calling_funcs ≡ is_calling p
  IsKept-flag k e = k.flag ∙ ap is_calling e

  IsKept-order :
      {r : Running A} {p : Pc A}
      → IsKept r
      → r.pc ≡ p
      → r.handed ≡ r.ran ++ (in_hand p ++ r.loop.to_do_list)
  IsKept-order {r} k e = k.in_order ∙ ap (λ p. r.ran ++ (in_hand p ++ r.loop.to_do_list)) e

  IsKept-seen :
      {r : Running A} {fs : List A}
      → IsKept r
      → r.pc ≡ calling fs
      → {p : Pc A} → (p ≡ handling) ⊎ ((r.loop.to_do_list ≡ []) ⊎ (0 < r.loop.wakeup_count))
  IsKept-seen k e = elim k.seen [ inl bad ↦ absurd (calling≢handling e bad) | inr seen ↦ inr seen ]

  -- One step of any thread.
  Step-IsKept : {r t : Running A} → Step r t → IsKept r → IsKept t
  unfolding take_funcs end_funcs
  Step-IsKept {r} (post caller cb other) k =
      queue-IsKept caller cb r k (inr (rw (==_ne caller r.loop.tid other) refl))
  Step-IsKept {r} (queue_own caller cb awake) k =
      queue-IsKept caller cb r k (elim (pc_busy r.pc awake) [
        | inl e ↦ inl e
        | inr busy ↦ inr (or_right (not (is_in_loop_thread caller r.loop)) (k.flag ∙ busy))
      ])
  Step-IsKept {r} (wake e) k = record {
    flag = IsKept-flag k e;
    in_order = IsKept-order k e;
    seen = inl refl;
  }
  Step-IsKept {r} (drain e read) k =
      let (list, flag) = handle_read-loop r.loop read in
      record {
        flag = flag ∙ k.flag;
        in_order = k.in_order ∙ ap (λ q. r.ran ++ (in_hand r.pc ++ q)) (sym list);
        seen = inl e;
      }
  Step-IsKept {r} (take_list e) k = record {
    flag = refl;
    in_order = IsKept-order k e ∙ ap (λ q. r.ran ++ q) (sym (append-nil r.loop.to_do_list));
    seen = inr (inl refl);
  }
  Step-IsKept {r} (run_next {f} {fs} e) k = record {
    flag = IsKept-flag k e;
    in_order = IsKept-order k e ∙ sym (append_assoc r.ran (f ∷ []) (fs ++ r.loop.to_do_list));
    seen = IsKept-seen k e;
  }
  Step-IsKept {r} (sleep e) k = record {
    flag = refl;
    in_order = IsKept-order k e;
    seen = IsKept-seen k e;
  }

  -- From a state in which it holds, for instance the one after the constructor, at any later time, and
  -- however the calls of QueueOneFunc by other threads and by the loop's own functions fall between the
  -- steps of the loop: the functions handed over are, in order, those run so far, those that
  -- HandleToDoList has taken and those in the list, so each runs exactly once and none before its turn;
  -- and while the loop waits in epoll_wait with a function in its list, its eventfd is readable.
  pub Reach-IsKept : {r t : Running A} → Reach r t → IsKept r → IsKept t
  Reach-IsKept here k = k
  Reach-IsKept (next reach step) k = Step-IsKept step (Reach-IsKept reach k)

  pub starting-IsKept : (tid : ℕ) → IsKept (starting tid)
  unfolding init
  starting-IsKept tid = record { flag = refl; in_order = refl; seen = inr (inl refl) }
