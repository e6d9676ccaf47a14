-- ===== src/Server/Closing/Run.antt =====
-- The close of a connection goes on from stage to stage, whatever happens elsewhere.
use epoll_server.Base.{
  ℕ, ◌+◌, ◌≡◌, refl, sym, ap, ◌∙◌, subst, Bool, true, some, List, [], ◌∷◌, ◌++◌, ◌==◌, if_so,
  if_not, Bool-cases, inl, inr, ==_eq, ==_ne, ==_iff, update, some_inj,
}
use epoll_server.EventLoop.{queue_one_func, run_one_func}
use epoll_server.Connection.State.{disconnected, Session, is_disconnected}
use epoll_server.Connection.State as ConnectionState
use epoll_server.Server.{ConnRef, Task, close_in_loop, destroy}
use epoll_server.Server as ServerParts
use epoll_server.Server.Closing.{
  World, with_list, is_own, own, after_run_one, call, close, Step, elsewhere, closes, runs, Reach,
  here, next,
}
use epoll_server.Server.Closing.Queues.{
  only_at, take_only, take_none, find_only, own-update_queue, own-with_list,
}
use epoll_server.Server.Closing.Stages.{
  Stage, serving, closing, destroying, gone, Closed, Holds, Staged, Elsewhere-Holds, after_close,
  call_close, after_close-Holds, after_destroy, call_destroy, after_destroy-Holds,
}

module _ (c : ConnRef) (main_reactor calls : ℕ) where
  abbrev At : Stage → World → Type 0
  At p w = Holds c main_reactor calls p w

  abbrev take : World → ℕ → List Task → World
  take w i ts = record w { loops = update w.loops i (with_list ts (w.loops i)) }

  -- The only task of this connection is taken out of its list.
  taken :
      (at i : ℕ) (x t : Task) (before after : List Task) (w : World)
      → ((k : ℕ) → own c (w.loops k).to_do_list ≡ only_at c at x k)
      → (w.loops i).to_do_list ≡ before ++ (t ∷ after)
      → is_own c t ≡ true
      → (t ≡ x) × ((k : ℕ) → own c ((take w i (before ++ after)).loops k).to_do_list ≡ [])
  taken at i x t before after w only list mine = elim (Bool-cases (i == at)) [
    | inl there ↦
        let (same, rest) =
          take_only c before after t x mine
            (sym (ap (own c) list) ∙ only i ∙ if_so (i == at) _ _ there) in
        (
          same,
          own-with_list c w.loops i (before ++ after) rest (λ k apart.
              only k
              ∙ if_not (k == at) _ _ (==_ne k at (λ e. apart ((==_iff i at).0 there ∙ sym e)))),
        )
    | inr other ↦ absurd (
        take_none c before after t mine
          (sym (ap (own c) list) ∙ only i ∙ if_not (i == at) _ _ other))
  ]

  run_close :
      (self i : ℕ) (ok : Bool) (before after : List Task) (t : Task) (w : World)
      → At closing w
      → (w.loops i).to_do_list ≡ before ++ (t ∷ after)
      → is_own c t ≡ true
      → (call c main_reactor self ok t (take w i (before ++ after))
          ≡ some (after_close c main_reactor calls self (take w i (before ++ after))))
        × At destroying (after_close c main_reactor calls self (take w i (before ++ after)))
  run_close self i ok before after t w h list mine =
      let (same, nothing) =
        taken main_reactor i (close_in_loop c) t before after w h.waiting list mine in
      let v : World = take w i (before ++ after) in
      (
        ap (λ t. call c main_reactor self ok t v) same
            ∙ call_close c main_reactor calls self ok v h.entry,
        after_close-Holds c main_reactor calls self v nothing h.closed h.destroyed,
      )

  run_destroy :
      (self i : ℕ) (ok : Bool) (before after : List Task) (t : Task) (w : World)
      → At destroying w
      → (w.loops i).to_do_list ≡ before ++ (t ∷ after)
      → is_own c t ≡ true
      → (call c main_reactor self ok t (take w i (before ++ after))
          ≡ some (after_destroy c main_reactor calls ok (take w i (before ++ after))))
        × At gone (after_destroy c main_reactor calls ok (take w i (before ++ after)))
  run_destroy self i ok before after t w h list mine =
      let (same, nothing) = taken c.event_loop i (destroy c) t before after w h.waiting list mine in
      let v : World = take w i (before ++ after) in
      (
        ap (λ t. call c main_reactor self ok t v) same
            ∙ call_destroy c main_reactor calls self ok v,
        after_destroy-Holds c main_reactor calls ok v nothing h.closed,
      )

  runs-Staged :
      (self i : ℕ) (ok : Bool) (before after : List Task) (t : Task) (p : Stage) (w v : World)
      → At p w
      → (w.loops i).to_do_list ≡ before ++ (t ∷ after)
      → is_own c t ≡ true
      → call c main_reactor self ok t (take w i (before ++ after)) ≡ some v
      → Staged c main_reactor calls v
  runs-Staged self i ok before after t serving w v h list mine run =
      absurd (take_none c before after t mine (sym (ap (own c) list) ∙ h.waiting i))
  runs-Staged self i ok before after t closing w v h list mine run =
      let (ran, k) = run_close self i ok before after t w h list mine in
      (destroying, subst (At destroying) (some_inj (sym ran ∙ run)) k)
  runs-Staged self i ok before after t destroying w v h list mine run =
      let (ran, k) = run_destroy self i ok before after t w h list mine in
      (gone, subst (At gone) (some_inj (sym ran ∙ run)) k)
  runs-Staged self i ok before after t gone w v h list mine run =
      absurd (take_none c before after t mine (sym (ap (own c) list) ∙ h.waiting i))

  closed_session :
      (s : Session)
      → Closed c main_reactor calls serving s
      → Closed c main_reactor calls closing (ConnectionState.handle_close s)
  unfolding ConnectionState.handle_close
  closed_session s (opened, callback, n) = rw (opened, callback) (refl, ap (λ k. k + 1) n)

  -- The close comes to its end, at one of the later stages.
  abbrev Closes : ℕ → Bool → World → Type 0
  Closes self ok w =
      (v : World) × (close c main_reactor self ok w ≡ some v) × Staged c main_reactor calls v

  close_first : (self : ℕ) (ok : Bool) (w : World) → At serving w → Closes self ok w
  unfolding close ServerParts.handle_close run_one_func
  close_first self ok w h =
      let v : World = record w { session = ConnectionState.handle_close w.session } in
      let (opened, callback, n) = h.closed in
      let told : close c main_reactor self ok w
          ≡ after_run_one c main_reactor self ok v
              (ServerParts.handle_close self c (v.loops main_reactor)) =
        if_not (is_disconnected w.session.conn.state) _ _ opened
        ∙ if_so w.session.conn.on_close_callback _ _ callback in
      elim (Bool-cases (self == (w.loops main_reactor).tid)) [
        | inl same ↦
            let u : World = take v main_reactor (w.loops main_reactor).to_do_list in
            (
              after_close c main_reactor calls self u,
              told
                  ∙ ap (after_run_one c main_reactor self ok v)
                      (if_so (self == (w.loops main_reactor).tid) _ _ same)
                  ∙ call_close c main_reactor calls self ok u h.entry,
              (
                destroying,
                after_close-Holds c main_reactor calls self u
                    (own-with_list c w.loops main_reactor (w.loops main_reactor).to_do_list
                      (h.waiting main_reactor) (λ k apart. h.waiting k))
                    (closed_session w.session h.closed) h.destroyed,
              ),
            )
        | inr other ↦ (
          record v {
            loops =
                update w.loops main_reactor
                  (queue_one_func self (close_in_loop c) (w.loops main_reactor));
          },
          told
              ∙ ap (after_run_one c main_reactor self ok v)
                  (if_not (self == (w.loops main_reactor).tid) _ _ other),
          (
            closing,
            record {
              waiting =
                  own-update_queue c self main_reactor (close_in_loop c) w.loops
                    (==_eq c.id c.id refl) h.waiting;
              entry = h.entry;
              closed = closed_session w.session h.closed;
              destroyed = h.destroyed;
            },
          ),
        )
      ]

  close_again :
      (self : ℕ) (ok : Bool) (p : Stage) (w : World)
      → At p w
      → w.session.conn.state ≡ disconnected
      → Closes self ok w
  unfolding close
  close_again self ok p w h e =
      (w, if_so (is_disconnected w.session.conn.state) _ _ (ap is_disconnected e), (p, h))

  close-Staged : (self : ℕ) (ok : Bool) (p : Stage) (w : World) → At p w → Closes self ok w
  close-Staged self ok serving w h = close_first self ok w h
  close-Staged self ok closing w h = close_again self ok closing w h h.closed.0
  close-Staged self ok destroying w h = close_again self ok destroying w h h.closed.0
  close-Staged self ok gone w h = close_again self ok gone w h h.closed.0

  Step-Staged :
      {w v : World}
      → Step c main_reactor w v
      → Staged c main_reactor calls w
      → Staged c main_reactor calls v
  Step-Staged {w} {v} (elsewhere e) (p, h) = (p, Elsewhere-Holds c main_reactor calls p w v e h)
  Step-Staged {w} (closes self ok run) (p, h) =
      let (u, ran, staged) = close-Staged self ok p w h in
      subst (Staged c main_reactor calls) (some_inj (sym ran ∙ run)) staged
  Step-Staged {w} {v} (runs self i ok before after t list mine run) (p, h) =
      runs-Staged self i ok before after t p w v h list mine run

  Reach-Staged :
      {w v : World}
      → Reach c main_reactor w v
      → Staged c main_reactor calls w
      → Staged c main_reactor calls v
  Reach-Staged here s = s
  Reach-Staged (next reach step) s = Step-Staged step (Reach-Staged reach s)

  -- It can go on to its end.
  abbrev pub CanEnd : World → Type 0
  CanEnd w = (u : World) × Reach c main_reactor w u × At gone u

  destroy_next : (ok : Bool) (w : World) → At destroying w → CanEnd w
  destroy_next ok w h =
      let i : ℕ = c.event_loop in
      let (before, after, list) =
        find_only c (w.loops i).to_do_list (destroy c)
          (h.waiting i ∙ if_so (i == i) _ _ (==_eq i i refl)) in
      let mine : is_own c (destroy c) ≡ true = ==_eq c.id c.id refl in
      let (ran, k) = run_destroy 0 i ok before after (destroy c) w h list mine in
      (_, next here (runs 0 i ok before after (destroy c) list mine ran), k)

  close_next : (ok : Bool) (w : World) → At closing w → CanEnd w
  close_next ok w h =
      let i : ℕ = main_reactor in
      let (before, after, list) =
        find_only c (w.loops i).to_do_list (close_in_loop c)
          (h.waiting i ∙ if_so (i == i) _ _ (==_eq i i refl)) in
      let mine : is_own c (close_in_loop c) ≡ true = ==_eq c.id c.id refl in
      let (ran, k) = run_close 0 i ok before after (close_in_loop c) w h list mine in
      let (u, reach, done) = destroy_next ok _ k in
      (u, joined (next here (runs 0 i ok before after (close_in_loop c) list mine ran)) reach, done)
    where
      joined :
          {a b d : World}
          → Reach c main_reactor a b
          → Reach c main_reactor b d
          → Reach c main_reactor a d
      joined p here = p
      joined p (next q step) = next (joined p q) step

  -- The close has begun only if HandleClose has been called; then it can go on to its end.
  abbrev pub Ending : Stage → World → Type 0
  Ending serving w = Unit {0}
  Ending _ w = CanEnd w

  ends : (p : Stage) (w : World) → At p w → Ending p w
  ends serving w h = tt
  ends closing w h = close_next true w h
  ends destroying w h = destroy_next true w h
  ends gone w h = (w, here, h)

  -- From an open connection with its close callback set and its entry in the map, with none of its tasks
  -- waiting: however HandleClose is called on any threads, tasks of the loops run on any threads and
  -- other things happen elsewhere, the close is at one of four stages. HandleClose has not run; or
  -- HandleCloseInLoop waits for this connection once, in the main loop, with the entry in the map, so that its
  -- assertion will hold; or it has run, the entry is gone and ConnectionDestructor waits once, in the
  -- connection's own loop; or that has run too and the channel is out of the epoller. No other
  -- task of this connection waits in any loop; and from HandleClose on the connection is disconnected and
  -- the close callback has run once more than before, however often HandleClose is called. From the second
  -- and the third stage the tasks that wait can always be run to the last one.
  pub Reach-Ending :
      {w v : World} → Reach c main_reactor w v → At serving w → (p : Stage) × At p v × Ending p v
  Reach-Ending {w} {v} reach h = let (p, k) = Reach-Staged reach (serving, h) in (p, k, ends p v k)
