-- ===== src/Epoller/Registration.antt =====
-- A channel's view of its registration against the kernel's interest list.
use epoll_server.Base.{
  ◌∙◌, bit_or, ℕ, Bool, true, false, Option, none, some, List, [], ◌∷◌, ◌≡◌, ◌↔◌, ◌≢◌, refl, arith,
  inl, inr, Bool-cases,
}
use epoll_server.Channel.State.{epollet, epollin, epollpri, epollout, Channel, listen}
use epoll_server.Channel.Enable.{enable_et, enable_read, enable_write}
use epoll_server.Epoller.{CtlOp, add, delete, update_op, update_channel, delete_channel}

-- epoll_ctl(2) on one epoll instance: adding or modifying, if it succeeds, sets the entry of the
-- descriptor in the interest list; a call that fails leaves it; and removal leaves none, since it
-- fails only where there is none.
pub record EpollInstance : Type 1 where
  pub Kernel : Type 0
  pub interest : Kernel → ℕ → Option ℕ
  pub epoll_ctl : CtlOp → ℕ → ℕ → Kernel → Bool × Kernel
  pub succeeds :
      (op : CtlOp) (fd events : ℕ) (k : Kernel)
      → op ≢ delete
      → (epoll_ctl op fd events k).0 ≡ true
      → interest (epoll_ctl op fd events k).1 fd ≡ some events
  pub fails :
      (op : CtlOp) (fd events : ℕ) (k : Kernel)
      → (epoll_ctl op fd events k).0 ≡ false
      → interest (epoll_ctl op fd events k).1 fd ≡ interest k fd
  pub delete_removes :
      (fd events : ℕ) (k : Kernel) → interest (epoll_ctl delete fd events k).1 fd ≡ none

-- The calls that a channel's owner makes.
pub data Call : Type 0 where
  call_enable_et call_enable_read call_enable_write call_delete : Call

-- `in_epoll` says whether the kernel has an entry for the descriptor, and then, unless a call has
-- failed, the entry is the events that the channel listens for.
pub record Mirrors (c : Channel) (entry : Option ℕ) : Type 0 where
  pub absent : c.in_epoll ≡ false → entry ≡ none
  pub present : c.in_epoll ≡ true → (m : ℕ) × (entry ≡ some m)
  pub agrees : c.in_epoll ≡ true → c.failed ≡ false → entry ≡ some c.listening_events

-- The entry before and after an `epoll_ctl` that asked for the mask of `listen c m`.
update-Mirrors :
    (ok : Bool) (c : Channel) (m : ℕ) (was now : Option ℕ)
    → Mirrors c was
    → (ok ≡ true → now ≡ some (listen c m).listening_events)
    → (ok ≡ false → now ≡ was)
    → Mirrors (update_channel ok (listen c m)) now
unfolding update_channel listen
update-Mirrors true c m was now v yes_ no_ =
    let set : now ≡ some (bit_or c.listening_events m) = yes_ refl in
    record {
      absent = λ h. ground (arith, h);
      present = λ h. (bit_or c.listening_events m, set);
      agrees = λ h f. ground (arith, h, f, set);
    }
update-Mirrors false c m was now v yes_ no_ =
    let same : now ≡ was = no_ refl in
    record {
      absent = λ h. same ∙ v.absent (ground (arith, h));
      present = λ h. let (n, e) = v.present (ground (arith, h)) in (n, same ∙ e);
      agrees = λ h f. ground (arith, h, f);
    }

update_op-ne-delete : (c : Channel) → update_op c ≢ delete
unfolding update_op
update_op-ne-delete c h = ground arith

update_op_iff :
    (c : Channel) (entry : Option ℕ) → Mirrors c entry → (update_op c ≡ add) ↔ (entry ≡ none)
unfolding update_op
update_op_iff c entry v = elim (Bool-cases c.in_epoll) [
  | inl there ↦ let (m, e) = v.present there in ground arith
  | inr absent ↦ let e : entry ≡ none = v.absent absent in ground arith
]

update_channel-listening_events :
    (ok : Bool) (c : Channel) → (update_channel ok c).listening_events ≡ c.listening_events
unfolding update_channel
update_channel-listening_events ok c = ground arith

update_channel-client_fd : (ok : Bool) (c : Channel) → (update_channel ok c).client_fd ≡ c.client_fd
unfolding update_channel
update_channel-client_fd ok c = ground arith

delete_channel-client_fd : (ok : Bool) (c : Channel) → (delete_channel ok c).client_fd ≡ c.client_fd
unfolding delete_channel
delete_channel-client_fd ok c = ground arith

delete-Mirrors :
    (ok : Bool) (c : Channel) (now : Option ℕ) → now ≡ none → Mirrors (delete_channel ok c) now
unfolding delete_channel
delete-Mirrors ok c now e = record {
  absent = λ h. e;
  present = λ h. absurd (ground (arith, h));
  agrees = λ h f. absurd (ground (arith, h));
}

module _ (e : EpollInstance) where
  open e use {Kernel, interest, epoll_ctl, succeeds, fails, delete_removes}

  -- `update` stands for `EnableET`, `EnableRead` or `EnableWrite`, given what `epoll_ctl` answers.
  abbrev step_update : (Bool → Channel → Channel) → Channel → Kernel → Channel × Kernel
  step_update update c k =
      let (ok, k') = epoll_ctl (update_op c) c.client_fd (update true c).listening_events k in
      (update ok c, k')

  unfoldable pub step : Call → Channel × Kernel → Channel × Kernel
  step call_enable_et (c, k) = step_update enable_et c k
  step call_enable_read (c, k) = step_update enable_read c k
  step call_enable_write (c, k) = step_update enable_write c k
  step call_delete (c, k) =
      let (ok, k') = epoll_ctl delete c.client_fd 0 k in (delete_channel ok c, k')

  unfoldable pub run : List Call → Channel × Kernel → Channel × Kernel
  run [] s = s
  run (c ∷ cs) s = run cs (step c s)

  ctl_update-Mirrors :
      (c : Channel) (k : Kernel) (m : ℕ)
      → Mirrors c (interest k c.client_fd)
      → let (ok, k') = epoll_ctl (update_op c) c.client_fd (listen c m).listening_events k in
        Mirrors (update_channel ok (listen c m)) (interest k' c.client_fd)
  ctl_update-Mirrors c k m v =
      let events : ℕ = (listen c m).listening_events in
      let r : Bool × Kernel = epoll_ctl (update_op c) c.client_fd events k in
      update-Mirrors r.0 c m (interest k c.client_fd) (interest r.1 c.client_fd) v
        (succeeds (update_op c) c.client_fd events k (update_op-ne-delete c))
        (fails (update_op c) c.client_fd events k)

  abbrev Mirrored : Channel × Kernel → Type 0
  Mirrored (c, k) = Mirrors c (interest k c.client_fd)

  step_update-Mirrored :
      (m : ℕ) (c : Channel) (k : Kernel)
      → Mirrored (c, k)
      → Mirrored (step_update (λ ok d. update_channel ok (listen d m)) c k)
  unfolding listen
  step_update-Mirrored m c k v =
      simp (update_channel-listening_events true (listen c m), update_channel-client_fd)
        (ctl_update-Mirrors c k m v)

  step-Mirrored :
      (call : Call) (c : Channel) (k : Kernel) → Mirrored (c, k) → Mirrored (step call (c, k))
  unfolding step enable_et enable_read enable_write
  step-Mirrored call_enable_et c k v = step_update-Mirrored epollet c k v
  step-Mirrored call_enable_read c k v = step_update-Mirrored (bit_or epollin epollpri) c k v
  step-Mirrored call_enable_write c k v = step_update-Mirrored epollout c k v
  step-Mirrored call_delete c k v =
      simp delete_channel-client_fd (delete-Mirrors _ c _ (delete_removes c.client_fd 0 k))

  run-Mirrored :
      (cs : List Call) (c : Channel) (k : Kernel) → Mirrored (c, k) → Mirrored (run cs (c, k))
  unfolding run
  run-Mirrored [] c k v = v
  run-Mirrored (a ∷ cs) c k v =
      run-Mirrored cs (step a (c, k)).0 (step a (c, k)).1 (step-Mirrored a c k v)

  -- From a channel that mirrors its entry in the kernel's interest list, any sequence of EnableET,
  -- EnableRead, EnableWrite and DeleteChannel calls leaves one that does, whichever `epoll_ctl`
  -- calls fail; and the next update then asks to add exactly if the kernel has no entry.
  pub run-Mirrors :
      (cs : List Call) (c : Channel) (k : Kernel)
      → Mirrors c (interest k c.client_fd)
      → let (c', k') = run cs (c, k) in
        Mirrors c' (interest k' c'.client_fd)
        × ((update_op c' ≡ add) ↔ (interest k' c'.client_fd ≡ none))
  run-Mirrors cs c k v =
      let w : Mirrored (run cs (c, k)) = run-Mirrored cs c k v in
      (
        w,
        update_op_iff (run cs (c, k)).0 (interest (run cs (c, k)).1 (run cs (c, k)).0.client_fd) w,
      )
