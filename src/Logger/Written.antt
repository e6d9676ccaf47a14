-- ===== src/Logger/Written.antt =====
-- What has become of the lines at each moment of a logger's life.
use Prim.Native.String.{String}
use epoll_server.Base.{
  ℕ, ◌≡◌, refl, sym, ap, ◌∙◌, subst, Bool, true, false, Option, none, some, List, [], ◌++◌,
  append-nil, append_assoc, if_so, if_not, inl, some_inj, none≢some,
}
use epoll_server.Logger.{
  LogLevel, info, error, Message, Line, Logger, Target, init, log, start_aasync, open_target,
  write_batch,
}
use epoll_server.Logger.Failure.{OnFile, OnFile-append, write_lines-OnFile}
use epoll_server.Logger.Life.{
  AsyncThread, unstarted, opening, writing, returned, Life, begin, is_joinable, start_thread, start,
  noted, log_line, running, start_failed, open_file, write_round, max_size, Step, logs, starts,
  opens, rounds, Reach, here, next,
}
use epoll_server.Logger.Calls.{added, noted-added, on-log, off-log}

module _ (takes : List Line → Line → Bool) where
  -- Before `StartAasync`; while the file is opened; while lines are written; and when it was not opened.
  abbrev pub Stage : AsyncThread → Logger → Option (List Line) → Type 0
  Stage unstarted l since =
      (l.is_async ≡ false) × (l.async_thread_failed ≡ false) × (l.buffer ≡ []) × (since ≡ none)
  Stage opening l since =
      (l.is_async ≡ true) × (l.async_thread_failed ≡ false) × (since ≡ some l.buffer)
  Stage (writing t) l since =
      (l.is_async ≡ true)
      × (l.async_thread_failed ≡ false)
      × (ls : List Line) × (since ≡ some ls)
      × OnFile takes ls t l.buffer
  Stage returned l since =
      (l.is_async ≡ false)
      × (l.async_thread_failed ≡ true)
      × (later : List Line) × (since ≡ some (l.buffer ++ later))

  abbrev pub Written : Life → Type 0
  Written s = Stage s.async_thread s.logger s.since

  log-Stage :
      (thread : ℕ) (level : LogLevel) (m : Message) (a : AsyncThread) (l : Logger)
      (since : Option (List Line))
      → Stage a l since
      → Stage a (log thread level m l) (noted level m since)
  log-Stage thread level m unstarted l since (off, fine, nothing, before) =
      let p = off-log thread level m l off in
      (
        p.on ∙ off,
        p.thread ∙ fine,
        p.buffer ∙ append-nil l.buffer ∙ nothing,
        ap (noted level m) before,
      )
  log-Stage thread level m opening l since (on, fine, all) =
      let p = on-log thread level m l (record { on = on; thread = fine }) in
      (
        p.on ∙ on,
        p.thread ∙ fine,
        ap (noted level m) all ∙ noted-added level m l.buffer ∙ ap some (sym p.buffer),
      )
  log-Stage thread level m (writing t) l since (on, fine, ls, all, h) =
      let p = on-log thread level m l (record { on = on; thread = fine }) in
      (
        p.on ∙ on,
        p.thread ∙ fine,
        ls ++ added level m,
        ap (noted level m) all ∙ noted-added level m ls,
        subst (OnFile takes (ls ++ added level m) t) (sym p.buffer)
            (OnFile-append takes ls t l.buffer (added level m) h),
      )
  log-Stage thread level m returned l since (off, failed, later, all) =
      let p = off-log thread level m l off in
      (
        p.on ∙ off,
        p.thread ∙ failed,
        later ++ added level m,
        ap (noted level m) all
            ∙ noted-added level m (l.buffer ++ later)
            ∙ ap some (
                append_assoc l.buffer later (added level m)
                ∙ ap (λ b. b ++ (later ++ added level m)) (sym (p.buffer ∙ append-nil l.buffer))),
      )

  -- A call of `StartAasync` when asynchronous logging is on, and when it is off.
  start_on : (s : Life) → s.logger.is_async ≡ true → start s ≡ some s
  unfolding start
  start_on s on = if_so s.logger.is_async _ _ on

  start_off :
      (s : Life) (joinable : Bool)
      → s.logger.is_async ≡ false
      → is_joinable s.async_thread ≡ joinable
      → start s ≡ start_thread s joinable
  unfolding start
  start_off s joinable off e = if_not s.logger.is_async (some s) _ off ∙ ap (start_thread s) e

  started-Written :
      (s : Life)
      → s.logger.is_async ≡ false
      → s.logger.async_thread_failed ≡ false
      → s.logger.buffer ≡ []
      → Written
          (record { logger = (start_aasync s.logger).0; async_thread = opening; since = some [] })
  unfolding start_aasync
  started-Written s off fine nothing = rw off (refl, fine, ap some (sym nothing))

  start-Written : (s t : Life) → Written s → start s ≡ some t → Written t
  start-Written s t w run = by_thread s.async_thread refl w
    where
      unchanged : s.logger.is_async ≡ true → Written t
      unchanged on = subst Written (some_inj (sym (start_on s on) ∙ run)) w

      by_thread : (a : AsyncThread) → s.async_thread ≡ a → Stage a s.logger s.since → Written t
      by_thread unstarted e (off, fine, nothing, before) =
          subst Written (some_inj (sym (start_off s false off (ap is_joinable e)) ∙ run))
            (started-Written s off fine nothing)
      by_thread opening e h = unchanged h.0
      by_thread (writing u) e h = unchanged h.0
      by_thread returned e h =
          absurd (none≢some (sym (start_off s true h.0 (ap is_joinable e)) ∙ run))

  open_file-Written :
      (thread : ℕ) (err : String) (ok : Bool) (s : Life)
      → s.async_thread ≡ opening
      → Written s
      → Written (open_file thread err ok s)
  unfolding open_file open_target
  open_file-Written thread err true s e w =
      let (on, fine, all) =
        log-Stage thread info running opening s.logger s.since
          (subst (λ a. Stage a s.logger s.since) e w) in
      (on, fine, (log thread info running s.logger).buffer, all, inl (refl, refl))
  open_file-Written thread err false s e w =
      let (on, fine, all) = subst (λ a. Stage a s.logger s.since) e w in
      let m : Message = start_failed err in
      let p = off-log thread error m (record (s.logger) { is_async = false }) refl in
      (
        p.on,
        refl,
        added error m,
        ap (noted error m) all
            ∙ noted-added error m s.logger.buffer
            ∙ ap (λ b. some (b ++ added error m)) (sym (p.buffer ∙ append-nil s.logger.buffer)),
      )

  write_round-Written :
      (t : Target) (s : Life)
      → s.async_thread ≡ writing t
      → Written s
      → Written (write_round takes t s)
  unfolding write_round write_batch
  write_round-Written t s e w =
      let (on, fine, ls, all, h) = subst (λ a. Stage a s.logger s.since) e w in
      (on, fine, ls, all, write_lines-OnFile takes ls max_size t s.logger.buffer h)

  Step-Written : {s t : Life} → Step takes s t → Written s → Written t
  unfolding log_line
  Step-Written {s} (logs thread level m) w =
      log-Stage thread level m s.async_thread s.logger s.since w
  Step-Written {s} {t} (starts run) w = start-Written s t w run
  Step-Written {s} (opens thread err ok e) w = open_file-Written thread err ok s e w
  Step-Written {s} (rounds t e) w = write_round-Written t s e w

  -- What a call of `StartAasync` does: it starts the thread, returns, or ends the process.
  abbrev pub Restart : AsyncThread → Life → Type 0
  Restart unstarted s = (t : Life) × (start s ≡ some t) × (t.async_thread ≡ opening)
  Restart opening s = start s ≡ some s
  Restart (writing t) s = start s ≡ some s
  Restart returned s = start s ≡ none

  Written-Restart : (s : Life) → Written s → Restart s.async_thread s
  Written-Restart s w = by_thread s.async_thread refl w
    where
      by_thread : (a : AsyncThread) → s.async_thread ≡ a → Stage a s.logger s.since → Restart a s
      by_thread unstarted e (off, fine, nothing, before) =
          (_, start_off s false off (ap is_joinable e), refl)
      by_thread opening e h = start_on s h.0
      by_thread (writing u) e h = start_on s h.0
      by_thread returned e h = start_off s true h.0 (ap is_joinable e)

  written : {s : Life} → Reach takes begin s → Written s
  unfolding begin init
  written here = (refl, refl, refl, refl)
  written (next reach step) = Step-Written step (written reach)

  -- However calls of `Log` and of `StartAasync`, the opening of the file and the rounds of the writing
  -- thread follow on each other. Before `StartAasync` nothing is queued, and the call starts the thread. From
  -- then on, while the file is opened, all lines logged on LOG_INFO and above are queued, and while the
  -- thread writes, the lines in the file and behind them those queued are exactly these, in order and each
  -- once; or else the stream has failed at a line that it refused, and this one is missing between
  -- the two; a further call of `StartAasync` does nothing. When the file could not be opened, what was
  -- queued before that stays queued, no later line is added, and a further call ends the process.
  pub Reach-Written :
      {s : Life}
      → Reach takes begin s
      → Stage s.async_thread s.logger s.since × Restart s.async_thread s
  Reach-Written {s} reach = (written reach, Written-Restart s (written reach))
