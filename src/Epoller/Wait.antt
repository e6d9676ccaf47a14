-- ===== src/Epoller/Wait.antt =====
-- `Epoller::Epoll`: handing the ready events to their channels.
use epoll_server.Base.{
  ℕ, ◌≡◌, refl, ap, ◌≢◌, Option, none, some, List, [], ◌∷◌, map, arith, ◌==◌, if◌then◌else◌, All,
}
use mathlib.Core.Option.{get_or}
use epoll_server.Channel.State.{Channel, set_ready_events}

-- An `epoll_event`: the channel's address from `data.ptr`, and the mask.
pub record Event : Type 0 where
  pub ptr : ℕ
  pub events : ℕ

-- The channels in memory, by their addresses.
abbrev pub Channels : Type 0
Channels = ℕ → Channel

abbrev pub write_channel : Channels → ℕ → Channel → Channels
write_channel cs p c q = if p == q then c else cs q

-- The loop over the events, with the vector of channels it fills.
unfoldable pub collect : List Event → Channels → Channels × List ℕ
unfolding set_ready_events
collect [] cs = (cs, [])
collect (e ∷ es) cs =
    let (cs', ready) = collect es (write_channel cs e.ptr (set_ready_events (cs e.ptr) e.events)) in
    (cs', e.ptr ∷ ready)

-- `none` is an answer below 0, after which the vector stays empty.
unfoldable pub epoll : Option (List Event) → Channels → Channels × List ℕ
unfolding collect
epoll none cs = (cs, [])
epoll (some es) cs = collect es cs

-- The events name different channels, as those of one `epoll_wait` do.
abbrev pub Distinct : List Event → Type 0
Distinct [] = Unit {0}
Distinct (e ∷ es) = All (λ f. e.ptr ≢ f.ptr) es × Distinct es

-- The mask reported for a channel, if it is among the events.
unfoldable pub reported : ℕ → List Event → Option ℕ
reported p [] = none
reported p (e ∷ es) = if e.ptr == p then some e.events else reported p es

-- What the channel at `p` should be: its ready events are those reported, if any are.
unfoldable pub marked : Option ℕ → Channel → Channel
marked none c = c
marked (some events) c = record c { ready_events = events }

pub reported-absent : (p : ℕ) (es : List Event) → All (λ f. p ≢ f.ptr) es → reported p es ≡ none
unfolding reported
reported-absent p [] h = refl
reported-absent p (e ∷ es) h = ground (arith, reported-absent p es h.1)

collect-marked :
    (es : List Event) (cs : Channels) (p : ℕ)
    → Distinct es
    → (collect es cs).0 p ≡ marked (reported p es) (cs p)
unfolding collect reported marked set_ready_events
collect-marked [] cs p d = refl
collect-marked (e ∷ es) cs p d =
    let written : Channels = write_channel cs e.ptr (set_ready_events (cs e.ptr) e.events) in
    ground (arith, collect-marked es written p d.1, reported-absent e.ptr es d.0)

collect-order : (es : List Event) (cs : Channels) → (collect es cs).1 ≡ map (λ e. e.ptr) es
unfolding collect
collect-order [] cs = refl
collect-order (e ∷ es) cs = ap (λ t. e.ptr ∷ t) (collect-order es _)

-- If `epoll_wait` names different channels, `Epoll` returns them in its order, each has the events
-- reported for it as its ready events, and every other channel is as it was; if the wait fails,
-- nothing is returned and no channel changes.
pub epoll_lem :
    (answer : Option (List Event)) (cs : Channels) (p : ℕ)
    → Distinct (get_or answer [])
    → ((epoll answer cs).0 p ≡ marked (reported p (get_or answer [])) (cs p))
      × ((epoll answer cs).1 ≡ map (λ e. e.ptr) (get_or answer []))
unfolding epoll reported marked
epoll_lem none cs p d = (refl, refl)
epoll_lem (some es) cs p d = (collect-marked es cs p d, collect-order es cs)
