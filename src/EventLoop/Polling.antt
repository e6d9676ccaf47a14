-- ===== src/EventLoop/Polling.antt =====
-- The first half of a round of `Start`: `Epoll`, and then `HandleEvent` of each ready channel.
-- `S` is a channel with what its callbacks change; a channel is named by its address. `handle p` is the
-- `HandleEvent` of the channel at `p`; `none` is one that does not come back.
use epoll_server.Base.{
  ℕ, ◌≡◌, ◌≢◌, refl, sym, ap, ◌∙◌, subst, Option, none, some, List, [], ◌∷◌, map, All, ◌==◌, ==_iff,
  Bool-cases, inl, inr, update, update_same, update_other, false≢true,
}
use mathlib.Core.Option.{get_or}
use epoll_server.Channel.State.{Channel, set_ready_events}
use epoll_server.Epoller.Wait.{Event, epoll, Distinct, reported, reported-absent, marked, epoll_lem}

module _ {S : Type 0} (handle : ℕ → S → Option S) where
  -- `for (auto chan : ready_channels) chan->HandleEvent()`
  unfoldable pub handle_all : List ℕ → (ℕ → S) → Option (ℕ → S)
  handle_all [] at = some at
  handle_all (p ∷ ps) at = elim (handle p (at p)) [
    | none ↦ none
    | some s ↦ handle_all ps (update at p s)
  ]

  -- Each of these channels comes back.
  abbrev pub AllReturn : List Event → (ℕ → S) → Type 0
  AllReturn es at = All (λ e. (s : S) × (handle e.ptr (at e.ptr) ≡ some s)) es

  -- What has become of the channel at `p`, when it was ready or not.
  abbrev pub Handled : (ℕ → S) → (ℕ → S) → ℕ → Option ℕ → Type 0
  Handled at after p none = after p ≡ at p
  Handled at after p (some events) = handle p (at p) ≡ some (after p)

  others_return :
      (e : Event) (es : List Event) (at : ℕ → S) (s : S)
      → All (λ f. e.ptr ≢ f.ptr) es
      → AllReturn es at
      → AllReturn es (update at e.ptr s)
  others_return e [] at s other h = tt
  others_return e (f ∷ es) at s other h = (
    (h.0.0, ap (handle f.ptr) (update_other at e.ptr f.ptr s other.0) ∙ h.0.1),
    others_return e es at s other.1 h.1,
  )

  Handled-moved :
      (at at' after : ℕ → S) (p : ℕ) (events : Option ℕ)
      → at' p ≡ at p
      → Handled at' after p events
      → Handled at after p events
  Handled-moved at at' after p none same h = h ∙ same
  Handled-moved at at' after p (some events) same h = ap (handle p) (sym same) ∙ h

  Handled-cons :
      (e : Event) (es : List Event) (at after : ℕ → S) (s : S) (p : ℕ)
      → All (λ f. e.ptr ≢ f.ptr) es
      → handle e.ptr (at e.ptr) ≡ some s
      → Handled (update at e.ptr s) after p (reported p es)
      → Handled at after p (reported p (e ∷ es))
  unfolding reported
  Handled-cons e es at after s p other run h = elim (Bool-cases (e.ptr == p)) [
    | inl here ↦
        let same : e.ptr ≡ p = (==_iff e.ptr p).0 here in
        let now : after e.ptr ≡ s =
          subst (Handled (update at e.ptr s) after e.ptr) (reported-absent e.ptr es other)
            (subst (λ q. Handled (update at e.ptr s) after q (reported q es)) (sym same) h)
          ∙ update_same at e.ptr s in
        rw here (subst (λ q. handle q (at q) ≡ some (after q)) same (run ∙ ap some (sym now)))
    | inr elsewhere ↦
        let apart : e.ptr ≢ p = λ same. false≢true (sym elsewhere ∙ (==_iff e.ptr p).1 same) in
        rw elsewhere (
          Handled-moved at (update at e.ptr s) after p (reported p es)
            (update_other at e.ptr p s apart) h)
  ]

  handle_all_lem :
      (es : List Event) (at : ℕ → S)
      → Distinct es
      → AllReturn es at
      → (after : ℕ → S) × (handle_all (map (λ e. e.ptr) es) at ≡ some after)
        × ((p : ℕ) → Handled at after p (reported p es))
  unfolding handle_all reported
  handle_all_lem [] at d r = (at, refl, λ p. refl)
  handle_all_lem (e ∷ es) at d r =
      let (s, run) = r.0 in
      let (after, rest, each) =
        handle_all_lem es (update at e.ptr s) d.1 (others_return e es at s d.0 r.1) in
      (after, rw (run, handle_all) rest, λ p. Handled-cons e es at after s p d.0 run (each p))

-- `channel_of` is the channel, and `put_channel` changes it.
module _ {S : Type 0} (channel_of : S → Channel) (put_channel : Channel → S → S)
    (put_same : (s : S) → put_channel (channel_of s) s ≡ s) (handle : ℕ → S → Option S) where
  -- `Epoll` on the channels where they are.
  unfoldable pub polled : Option (List Event) → (ℕ → S) → ℕ → S
  polled answer at p = put_channel ((epoll answer (λ q. channel_of (at q))).0 p) (at p)

  -- `Epoll`, and the loop over what it returns.
  unfoldable pub poll_round : Option (List Event) → (ℕ → S) → Option (ℕ → S)
  unfolding handle_all polled
  poll_round answer at =
      handle_all handle (epoll answer (λ q. channel_of (at q))).1 (polled answer at)

  -- What has become of the channel at `p`: `HandleEvent` has run on it with the events reported as its
  -- ready events, or it is as it was.
  abbrev pub Polled : (ℕ → S) → (ℕ → S) → ℕ → Option ℕ → Type 0
  Polled at after p none = after p ≡ at p
  Polled at after p (some events) =
      handle p (put_channel (set_ready_events (channel_of (at p)) events) (at p)) ≡ some (after p)

  polled-marked :
      (answer : Option (List Event)) (at : ℕ → S) (p : ℕ)
      → Distinct (get_or answer [])
      → polled answer at p
        ≡ put_channel (marked (reported p (get_or answer [])) (channel_of (at p))) (at p)
  unfolding polled
  polled-marked answer at p d =
      ap (λ c. put_channel c (at p)) (epoll_lem answer (λ q. channel_of (at q)) p d).0

  Handled-Polled :
      (at : ℕ → S) (was after : ℕ → S) (p : ℕ) (events : Option ℕ)
      → was p ≡ put_channel (marked events (channel_of (at p))) (at p)
      → Handled handle was after p events
      → Polled at after p events
  unfolding marked set_ready_events
  Handled-Polled at was after p none e h = h ∙ e ∙ put_same (at p)
  Handled-Polled at was after p (some events) e h = ap (handle p) (sym e) ∙ h

  -- If `epoll_wait` names different channels, and the `HandleEvent` of each comes back: then it has run once
  -- for each channel that is named, on the channel as it was but for its ready events, which are those
  -- reported for it, and every other channel is as it was.
  pub poll_round-Polled :
      (answer : Option (List Event)) (at : ℕ → S)
      → Distinct (get_or answer [])
      → AllReturn handle (get_or answer []) (polled answer at)
      → (after : ℕ → S) × (poll_round answer at ≡ some after)
        × ((p : ℕ) → Polled at after p (reported p (get_or answer [])))
  unfolding poll_round
  poll_round-Polled answer at d r =
      let es : List Event = get_or answer [] in
      let (after, run, each) = handle_all_lem handle es (polled answer at) d r in
      (
        after,
        ap (λ ps. handle_all handle ps (polled answer at))
              (epoll_lem answer (λ q. channel_of (at q)) 0 d).1
            ∙ run,
        λ p.
            Handled-Polled at (polled answer at) after p (reported p es)
              (polled-marked answer at p d) (each p),
      )
