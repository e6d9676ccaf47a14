-- ===== src/Channel/Dispatch.antt =====
-- `HandleEvent`: which callbacks run for the events that a channel is ready for.
use epoll_server.Base.{
  ℕ, Bool, true, false, ◌||◌, Option, none, some, ◌≡◌, ap, ◌∙◌, has, bit_or, if◌then◌else◌,
  has-bit_or_right, if_both, Bool-cases, inl, inr, sym,
}
use epoll_server.Channel.State.{epollin, epollpri, epollout, epollrdhup}

-- A callback that is not set does nothing.
abbrev pub call {ℓ} : {S : Type ℓ} → Option (S → S) → S → S
call none s = s
call (some callback) s = callback s

-- The callbacks of a channel, none of them set at first, and their setters.
pub record Callbacks {ℓ} (S : Type ℓ) : Type ℓ where
  pub read_callback : Option (S → S)
  pub write_callback : Option (S → S)

abbrev pub no_callbacks {ℓ} : {S : Type ℓ} → Callbacks S
no_callbacks = record { read_callback = none; write_callback = none }

abbrev pub set_read_callback {ℓ} : {S : Type ℓ} → (S → S) → Callbacks S → Callbacks S
set_read_callback callback c = record c { read_callback = some callback }

abbrev pub set_write_callback {ℓ} : {S : Type ℓ} → (S → S) → Callbacks S → Callbacks S
set_write_callback callback c = record c { write_callback = some callback }

-- Whether the read callback is due, flag by flag.
abbrev pub wants_read : ℕ → Bool
wants_read mask = (has mask epollin || has mask epollpri) || has mask epollrdhup

wants_read_lem :
    (mask : ℕ) → has mask (bit_or (bit_or epollin epollpri) epollrdhup) ≡ wants_read mask
wants_read_lem mask =
    has-bit_or_right mask (bit_or epollin epollpri) epollrdhup
    ∙ ap (λ b. b || has mask epollrdhup) (has-bit_or_right mask epollin epollpri)

-- `S` is whatever the callbacks change; `ready_events` reads the channel's field from it.
module _ {ℓ} {S : Type ℓ} (ready_events : S → ℕ)
    (read_callback write_callback : Option (S → S)) where
  unfoldable pub handle_read : S → S
  handle_read s =
      if has (ready_events s) (bit_or (bit_or epollin epollpri) epollrdhup)
      then call read_callback s
      else s

  unfoldable pub handle_write : S → S
  handle_write s = if has (ready_events s) epollout then call write_callback s else s

  unfoldable pub handle_event_with_guard : S → S
  unfolding handle_read handle_write
  handle_event_with_guard s = handle_write (handle_read s)

  -- `alive`: whether `tie.lock()` still finds the owner. The pointer is taken, and not tested.
  unfoldable pub handle_event : (tied alive : Bool) → S → S
  unfolding handle_event_with_guard
  handle_event true alive s = handle_event_with_guard s
  handle_event false alive s = handle_event_with_guard s

  handle_event_with_guard_lem :
      (s : S)
      → ready_events (call read_callback s) ≡ ready_events s
      → handle_event_with_guard s ≡ (
          if wants_read (ready_events s)
          then (if has (ready_events s) epollout
              then call write_callback (call read_callback s)
              else call read_callback s)
          else (if has (ready_events s) epollout then call write_callback s else s))
  unfolding handle_event_with_guard
  handle_event_with_guard_lem s same =
      elim (Bool-cases (has (ready_events s) (bit_or (bit_or epollin epollpri) epollrdhup))) [
        | inl due ↦ rw (due, sym (wants_read_lem (ready_events s)) ∙ due, same)
        | inr not_due ↦ rw (not_due, sym (wants_read_lem (ready_events s)) ∙ not_due)
      ]

  -- If the read callback leaves the ready events alone: it runs, first, if EPOLLIN, EPOLLPRI or
  -- EPOLLRDHUP is among them, the write callback runs, after it, if EPOLLOUT is, and for any other
  -- events neither does; whether the channel is tied, and to an owner that is still there, is all
  -- the same.
  pub handle_event_lem :
      (tied alive : Bool) (s : S)
      → ready_events (call read_callback s) ≡ ready_events s
      → handle_event tied alive s ≡ (
          if wants_read (ready_events s)
          then (if has (ready_events s) epollout
              then call write_callback (call read_callback s)
              else call read_callback s)
          else (if has (ready_events s) epollout then call write_callback s else s))
  unfolding handle_event
  handle_event_lem true alive s same = handle_event_with_guard_lem s same
  handle_event_lem false alive s same = handle_event_with_guard_lem s same

  -- A property that holds before the read callback and after it, and that the write callback keeps.
  pub handle_event_keeps {κ} :
      (P : S → Type κ) (tied alive : Bool) (s : S)
      → P s
      → P (call read_callback s)
      → ((t : S) → P t → P (call write_callback t))
      → P (handle_event tied alive s)
  unfolding handle_event
  handle_event_keeps P tied alive s before after keep = by_owner tied
    where
      guarded : P (handle_event_with_guard s)
      guarded =
          let readable : ℕ = bit_or (bit_or epollin epollpri) epollrdhup in
          let t : S = handle_read s in
          let read : P t =
            if_both P (has (ready_events s) readable) _ s (λ _. after) (λ _. before) in
          if_both P (has (ready_events t) epollout) _ t (λ _. keep t read) (λ _. read)

      by_owner : (tied : Bool) → P (handle_event tied alive s)
      by_owner true = guarded
      by_owner false = guarded
