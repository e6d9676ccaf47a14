-- ===== src/EventLoop/Handling.antt =====
-- The events of a round: the ready channels, whose callbacks may hand functions to the loop, and the read of
-- the eventfd, against the steps of Wakeup.
use epoll_server.Base.{
  ℕ, ◌≤◌, ◌<◌, Bool, false≢true, ◌≡◌, ◌≢◌, refl, sym, ap, ◌∙◌, subst, true, false, Option, none,
  some, List, [], ◌∷◌, ◌++◌, All, arith, ◌==◌, ==_iff, Bool-cases, inl, inr, none≢some, some_inj,
}
use epoll_server.EventLoop.{EventLoop, queue_one_func, handle_read}
use epoll_server.EventLoop.Wakeup.{
  Pc, waiting, handling, Running, queue_own, drain, Reach, here, next,
}

-- The loop with the functions handed over and those run.
pub record Trace {ℓ} (A : Type ℓ) : Type ℓ where
  pub loop : EventLoop A
  pub handed : List A
  pub ran : List A

-- A ready channel: that of the eventfd, or another, whose callbacks hand over these functions.
pub data Event {ℓ} (A : Type ℓ) : Type ℓ where
  wakeup : Event A
  ready : List A → Event A

module _ {ℓ} {A : Type ℓ} where
  abbrev pub at : Pc A → Trace A → Running A
  at pc s = record { loop = s.loop; pc = pc; handed = s.handed; ran = s.ran }

  abbrev pub put_loop : EventLoop A → Trace A → Trace A
  put_loop l s = record s { loop = l }

  abbrev pub drained : Trace A → Option (EventLoop A) → Option (Trace A)
  drained s none = none
  drained s (some l) = some (put_loop l s)

  abbrev pub IsOther : Event A → Type 0
  IsOther wakeup = ⊥
  IsOther (ready fs) = Unit {0}

  -- What epoll_wait may answer when the counter of the eventfd is this: a descriptor is reported once at
  -- most, and that of the eventfd only if it is readable.
  abbrev pub IsReported : List (Event A) → ℕ → Type 0
  IsReported [] n = Unit {0}
  IsReported (wakeup ∷ es) n = (0 < n) × All IsOther es
  IsReported (ready fs ∷ es) n = IsReported es n

  pub trans : {r s t : Running A} → Reach r s → Reach s t → Reach r t
  trans p here = p
  trans p (next q step) = next (trans p q) step

  abbrev is_handling : Pc A → Bool
  is_handling handling = true
  is_handling _ = false

  pub handling≢waiting : ◌≢◌ {A = Pc A} handling waiting
  handling≢waiting e = false≢true (sym (ap is_handling e))

  handle_read_readable : (l : EventLoop A) → 0 < l.wakeup_count → handle_read l ≢ none
  unfolding handle_read
  handle_read_readable l readable e = elim (Bool-cases (l.wakeup_count == 0)) [
    | inl z ↦ absurd (omega (arith, (==_iff l.wakeup_count 0).0 z))
    | inr z ↦ none≢some (sym (rw z at e))
  ]

  queue_one_func-count :
      (caller : ℕ) (f : A) (l : EventLoop A)
      → l.wakeup_count ≤ (queue_one_func caller f l).wakeup_count
  unfolding queue_one_func
  queue_one_func-count caller f l = ground arith

  -- `self` is what `CurrentThread::tid` gives on the loop's thread.
  module _ (self : ℕ) where
    unfoldable pub queue_all : List A → Trace A → Trace A
    queue_all [] s = s
    queue_all (f ∷ fs) s =
        queue_all fs (record {
          loop = queue_one_func self f s.loop;
          handed = s.handed ++ (f ∷ []);
          ran = s.ran;
        })

    abbrev pub handle : Event A → Trace A → Option (Trace A)
    handle wakeup s = drained s (handle_read s.loop)
    handle (ready fs) s = some (queue_all fs s)

    abbrev pub handlers : List (Event A) → List (Trace A → Option (Trace A))
    handlers [] = []
    handlers (e ∷ es) = handle e ∷ handlers es

    -- The loop over the ready channels.
    unfoldable pub handle_all : List (Event A) → Trace A → Option (Trace A)
    handle_all [] s = some s
    handle_all (e ∷ es) s = elim (handle e s) [ none ↦ none | some t ↦ handle_all es t ]

    pub queue_all-Reach :
        (fs : List A) (pc : Pc A) (s : Trace A)
        → pc ≢ waiting
        → Reach (at pc s) (at pc (queue_all fs s))
    unfolding queue_all
    queue_all-Reach [] pc s awake = here
    queue_all-Reach (f ∷ fs) pc s awake =
        trans (next here (queue_own self f awake)) (queue_all-Reach fs pc _ awake)

    pub queue_all-ran : (fs : List A) (s : Trace A) → (queue_all fs s).ran ≡ s.ran
    unfolding queue_all
    queue_all-ran [] s = refl
    queue_all-ran (f ∷ fs) s = queue_all-ran fs _

    queue_all-count :
        (fs : List A) (s : Trace A) → s.loop.wakeup_count ≤ (queue_all fs s).loop.wakeup_count
    unfolding queue_all
    queue_all-count [] s = omega arith
    queue_all-count (f ∷ fs) s = omega (
      arith,
      queue_one_func-count self f s.loop,
      queue_all-count fs (record {
        loop = queue_one_func self f s.loop;
        handed = s.handed ++ (f ∷ []);
        ran = s.ran;
      }),
    )

    handle-Reach :
        (e : Event A) (s t : Trace A)
        → handle e s ≡ some t
        → Reach (at handling s) (at handling t) × (t.ran ≡ s.ran)
    handle-Reach wakeup s t run = by_read (handle_read s.loop) refl run
      where
        by_read :
            (o : Option (EventLoop A))
            → handle_read s.loop ≡ o
            → drained s o ≡ some t
            → Reach (at handling s) (at handling t) × (t.ran ≡ s.ran)
        by_read none e run = absurd (none≢some run)
        by_read (some l) e run =
            subst (λ t. Reach (at handling s) (at handling t) × (t.ran ≡ s.ran)) (some_inj run)
              (next here (drain refl e), refl)
    handle-Reach (ready fs) s t run =
        subst (λ t. Reach (at handling s) (at handling t) × (t.ran ≡ s.ran)) (some_inj run)
          (queue_all-Reach fs handling s handling≢waiting, queue_all-ran fs s)

    pub handle_all-Reach :
        (es : List (Event A)) (s u : Trace A)
        → handle_all es s ≡ some u
        → Reach (at handling s) (at handling u) × (u.ran ≡ s.ran)
    unfolding handle_all
    handle_all-Reach [] s u run =
        subst (λ t. Reach (at handling s) (at handling t) × (t.ran ≡ s.ran)) (some_inj run)
          (here, refl)
    handle_all-Reach (e ∷ es) s u run =
        by_event (λ t. handle_all-Reach es t u) (handle e s) refl run
      where
        by_event :
            ((t : Trace A)
              → handle_all es t ≡ some u
              → Reach (at handling t) (at handling u) × (u.ran ≡ t.ran))
            → (o : Option (Trace A)) → handle e s ≡ o
            → (elim o [ none ↦ none | some t ↦ handle_all es t ]) ≡ some u
            → Reach (at handling s) (at handling u) × (u.ran ≡ s.ran)
        by_event later none first run = absurd (none≢some run)
        by_event later (some t) first run =
            let (p, same) = handle-Reach e s t first in
            let (q, kept) = later t run in (trans p q, kept ∙ same)

    -- Without an event of the eventfd, no assertion fails.
    others_return : (es : List (Event A)) (s : Trace A) → All IsOther es → handle_all es s ≢ none
    unfolding handle_all
    others_return [] s h e = none≢some (sym e)
    others_return (wakeup ∷ es) s h e = absurd h.0
    others_return (ready fs ∷ es) s h e = others_return es (queue_all fs s) h.1 e

    pub reported_return :
        (es : List (Event A)) (n : ℕ) (s : Trace A)
        → n ≤ s.loop.wakeup_count
        → IsReported es n
        → handle_all es s ≢ none
    unfolding handle_all
    reported_return [] n s more h = λ e. none≢some (sym e)
    reported_return (wakeup ∷ es) n s more h = by_read (handle_read s.loop) refl
      where
        by_read :
            (o : Option (EventLoop A))
            → handle_read s.loop ≡ o
            → (elim (drained s o) [ none ↦ none | some t ↦ handle_all es t ]) ≢ none
        by_read none read = absurd (handle_read_readable s.loop (omega (arith, more, h.0)) read)
        by_read (some l) read = others_return es (put_loop l s) h.1
    reported_return (ready fs ∷ es) n s more h =
        reported_return es n (queue_all fs s) (omega (arith, more, queue_all-count fs s)) h
