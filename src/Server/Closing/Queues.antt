-- ===== src/Server/Closing/Queues.antt =====
-- The tasks of one connection in the lists of the loops.
use epoll_server.Base.{
  ℕ, ◌≡◌, ◌≢◌, refl, sym, ap, ◌∙◌, Bool, true, false, List, [], ◌∷◌, ◌++◌, ◌==◌, if◌then◌else◌,
  if_so, if_not, Bool-cases, inl, inr, ==_eq, ==_iff, false≢true, update, update_same, update_other,
}
use epoll_server.EventLoop.{EventLoop, queue_one_func}
use epoll_server.EventLoop.Wakeup.{queue_one_func-list}
use epoll_server.Server.{ConnRef, Task, destroy, queue_destructor}
use epoll_server.Server.Closing.{with_list, is_own, own}

module _ (c : ConnRef) where
  own-cons_own : (t : Task) (ts : List Task) → is_own c t ≡ true → own c (t ∷ ts) ≡ t ∷ own c ts
  unfolding own
  own-cons_own t ts e = if_so (is_own c t) _ _ e

  own-append : (a b : List Task) → own c (a ++ b) ≡ own c a ++ own c b
  unfolding own
  own-append [] b = refl
  own-append (t ∷ a) b = elim (Bool-cases (is_own c t)) [
    | inl e ↦ rw e (ap (λ r. t ∷ r) (own-append a b))
    | inr e ↦ rw e (own-append a b)
  ]

  abbrev head_of : Task → List Task → Task
  head_of d [] = d
  head_of d (x ∷ xs) = x

  abbrev tail_of : List Task → List Task
  tail_of [] = []
  tail_of (x ∷ xs) = xs

  abbrev is_empty : List Task → Bool
  is_empty [] = true
  is_empty (x ∷ xs) = false

  alone : (a b : List Task) (t x : Task) → a ++ (t ∷ b) ≡ x ∷ [] → (t ≡ x) × (a ++ b ≡ [])
  alone [] b t x e = (ap (head_of t) e, ap tail_of e)
  alone (y ∷ []) b t x e = absurd (false≢true (ap (λ l. is_empty (tail_of l)) e))
  alone (y ∷ z ∷ a) b t x e = absurd (false≢true (ap (λ l. is_empty (tail_of l)) e))

  never : (a b : List Task) (t : Task) → a ++ (t ∷ b) ≢ []
  never [] b t e = false≢true (ap is_empty e)
  never (y ∷ a) b t e = false≢true (ap is_empty e)

  own-split :
      (before after : List Task) (t : Task)
      → is_own c t ≡ true
      → own c (before ++ (t ∷ after)) ≡ own c before ++ (t ∷ own c after)
  own-split before after t e =
      own-append before (t ∷ after) ∙ ap (λ r. own c before ++ r) (own-cons_own t after e)

  -- The one task of this connection is taken out.
  pub take_only :
      (before after : List Task) (t x : Task)
      → is_own c t ≡ true
      → own c (before ++ (t ∷ after)) ≡ x ∷ []
      → (t ≡ x) × (own c (before ++ after) ≡ [])
  take_only before after t x e only =
      let (same, nothing) =
        alone (own c before) (own c after) t x (sym (own-split before after t e) ∙ only) in
      (same, own-append before after ∙ nothing)

  pub take_none :
      (before after : List Task) (t : Task) → is_own c t ≡ true → own c (before ++ (t ∷ after)) ≢ []
  take_none before after t e nothing =
      never (own c before) (own c after) t (sym (own-split before after t e) ∙ nothing)

  pub own-single : (t : Task) → is_own c t ≡ true → own c (t ∷ []) ≡ t ∷ []
  unfolding own
  own-single t e = own-cons_own t [] e

  -- A task of this connection is handed to a loop that has none.
  pub own-queue :
      (self : ℕ) (t : Task) (l : EventLoop Task)
      → is_own c t ≡ true
      → own c l.to_do_list ≡ []
      → own c (queue_one_func self t l).to_do_list ≡ t ∷ []
  own-queue self t l e nothing =
      ap (own c) (queue_one_func-list self t l)
      ∙ own-append l.to_do_list (t ∷ [])
      ∙ ap (λ r. r ++ own c (t ∷ [])) nothing
      ∙ own-single t e

  -- The task, if the loop is this one.
  abbrev pub only_at : ℕ → Task → ℕ → List Task
  only_at at t i = if i == at then t ∷ [] else []

  pub own-update_queue :
      (self at : ℕ) (t : Task) (loops : ℕ → EventLoop Task)
      → is_own c t ≡ true
      → ((i : ℕ) → own c (loops i).to_do_list ≡ [])
      → (i : ℕ)
      → own c (update loops at (queue_one_func self t (loops at)) i).to_do_list ≡ only_at at t i
  own-update_queue self at t loops e nothing i = elim (Bool-cases (i == at)) [
    | inl there ↦ rw there (
        ap (λ k. own c (update loops at (queue_one_func self t (loops at)) k).to_do_list)
          ((==_iff i at).0 there)
        ∙ ap (λ l. own c l.to_do_list) (update_same loops at _)
        ∙ own-queue self t (loops at) e (nothing at))
    | inr other ↦ rw other (
        ap (λ l. own c l.to_do_list)
          (update_other loops at i _ (λ same. false≢true (sym other ∙ (==_iff i at).1 (sym same))))
        ∙ nothing i)
  ]

  pub own-queue_destructor :
      (self : ℕ) (loops : ℕ → EventLoop Task)
      → ((i : ℕ) → own c (loops i).to_do_list ≡ [])
      → (i : ℕ)
      → own c (queue_destructor self c loops i).to_do_list ≡ only_at c.event_loop (destroy c) i
  unfolding queue_destructor
  own-queue_destructor self loops nothing i = elim (Bool-cases (i == c.event_loop)) [
    | inl there ↦ rw there (own-queue self (destroy c) (loops i) (==_eq c.id c.id refl) (nothing i))
    | inr other ↦ rw other (nothing i)
  ]

  -- The tasks of a list that has been replaced.
  pub own-with_list :
      (loops : ℕ → EventLoop Task) (i : ℕ) (ts : List Task)
      → own c ts ≡ []
      → ((k : ℕ) → i ≢ k → own c (loops k).to_do_list ≡ [])
      → (k : ℕ) → own c (update loops i (with_list ts (loops i)) k).to_do_list ≡ []
  own-with_list loops i ts nothing others k = elim (Bool-cases (i == k)) [
    | inl there ↦
        ap (λ k. own c (update loops i (with_list ts (loops i)) k).to_do_list)
          (sym ((==_iff i k).0 there))
        ∙ ap (λ l. own c l.to_do_list) (update_same loops i _)
        ∙ nothing
    | inr other ↦
        let apart : i ≢ k = λ same. false≢true (sym other ∙ (==_iff i k).1 same) in
        ap (λ l. own c l.to_do_list) (update_other loops i k _ apart) ∙ others k apart
  ]

  -- Where the one task of this connection stands.
  pub find_only :
      (ts : List Task) (x : Task)
      → own c ts ≡ x ∷ []
      → (before after : List Task) × (ts ≡ before ++ (x ∷ after))
  unfolding own
  find_only [] x e = absurd (false≢true (ap is_empty (sym e)))
  find_only (t ∷ ts) x e = elim (Bool-cases (is_own c t)) [
    | inl mine ↦ ([], ts, ap (λ y. y ∷ ts) (ap (head_of t) (sym (own-cons_own t ts mine) ∙ e)))
    | inr other ↦
        let (before, after, list) =
          find_only ts x (sym (if_not (is_own c t) (t ∷ own c ts) (own c ts) other) ∙ e) in
        (t ∷ before, after, ap (λ r. t ∷ r) list)
  ]
