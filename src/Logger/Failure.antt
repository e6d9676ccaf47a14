-- ===== src/Logger/Failure.antt =====
-- The log file when its stream fails.
use epoll_server.Base.{
  ℕ, zero, suc, ◌≡◌, ◌⊎◌, inl, inr, refl, sym, ap, ◌∙◌, subst, Bool, true, false, List, [], ◌∷◌,
  ◌++◌, append-nil, append_assoc, Bool-cases, if_so, if_not, if◌then◌else◌,
}
use epoll_server.Logger.{
  Line, Logger, Target, log, is_below, file_line, write_line, write_lines, write_batch,
}
use epoll_server.Logger.Order.{
  Event, logged, round, accepted, IsWriting, Pushes, log-Pushes, log_below, lines_of, run,
}

module _ (takes : List Line → Line → Bool) where
  -- The lines of a stream are those in the file and then those that wait; or the file has refused a line
  -- and takes no more, and that line stands between the two.
  abbrev pub OnFile : List Line → Target → List Line → Type 0
  OnFile stream t waiting =
      ((t.failed ≡ false) × (t.lines ++ waiting ≡ stream))
      ⊎ ((lost : Line) × (t.failed ≡ true)
          × (takes t.lines lost ≡ false)
          × (t.lines ++ (lost ∷ waiting) ≡ stream))

  pub OnFile-append :
      (stream : List Line) (t : Target) (waiting more : List Line)
      → OnFile stream t waiting
      → OnFile (stream ++ more) t (waiting ++ more)
  OnFile-append stream t waiting more (inl (ok, e)) =
      inl (ok, sym (append_assoc t.lines waiting more) ∙ ap (λ ls. ls ++ more) e)
  OnFile-append stream t waiting more (inr (x, failed, refused, e)) =
      inr (
        x,
        failed,
        refused,
        sym (append_assoc t.lines (x ∷ waiting) more) ∙ ap (λ ls. ls ++ more) e,
      )

  -- One line is written, or the stream had failed.
  abbrev after_line : Line → List Line → Target → Target × List Line
  after_line x b t = if t.failed then (t, x ∷ b) else (write_line takes x t, b)

  write_line_taken :
      (x : Line) (b : List Line) (t : Target)
      → t.failed ≡ false
      → takes t.lines x ≡ true
      → after_line x b t ≡ (record t { lines = t.lines ++ (x ∷ []) }, b)
  unfolding write_line
  write_line_taken x b t ok took =
      if_not t.failed (t, x ∷ b) (write_line takes x t, b) ok
      ∙ ap (λ u. (u, b)) (if_so (takes t.lines x) _ _ took)

  write_line_refused :
      (x : Line) (b : List Line) (t : Target)
      → t.failed ≡ false
      → takes t.lines x ≡ false
      → after_line x b t ≡ (record t { failed = true }, b)
  unfolding write_line
  write_line_refused x b t ok refused =
      if_not t.failed (t, x ∷ b) (write_line takes x t, b) ok
      ∙ ap (λ u. (u, b)) (if_not (takes t.lines x) _ _ refused)

  -- What `n` rounds of the loop leave of a file and the lines that wait.
  abbrev Left : List Line → ℕ → Target × List Line → Type 0
  Left stream n p = OnFile stream (write_lines takes n p.0 p.1).0 (write_lines takes n p.0 p.1).1

  pub write_lines-OnFile :
      (stream : List Line) (n : ℕ) (t : Target) (b : List Line)
      → OnFile stream t b
      → Left stream n (t, b)
  unfolding write_lines
  write_lines-OnFile stream zero t b h = h
  write_lines-OnFile stream (suc n) t [] h = h
  write_lines-OnFile stream (suc n) t (x ∷ b) (inl (ok, e)) = elim (Bool-cases (takes t.lines x)) [
    | inl took ↦ subst (Left stream n) (sym (write_line_taken x b t ok took)) (
        write_lines-OnFile stream n (record t { lines = t.lines ++ (x ∷ []) }) b
          (inl (ok, append_assoc t.lines (x ∷ []) b ∙ e)))
    | inr refused ↦
        subst (Left stream n) (sym (write_line_refused x b t ok refused))
          (write_lines-OnFile stream n (record t { failed = true }) b (inr (x, refl, refused, e)))
  ]
  write_lines-OnFile stream (suc n) t (x ∷ b) (inr (y, failed, refused, e)) =
      subst (Left stream n) (sym (if_so t.failed (t, x ∷ b) (write_line takes x t, b) failed))
        (write_lines-OnFile stream n t (x ∷ b) (inr (y, failed, refused, e)))

  -- The logger's part stays on: whatever happens to the stream, `Log` goes on adding lines.
  run-step :
      (es : List Event) (stream : List Line) (l : Logger) (t : Target)
      → l.is_async ≡ true
      → l.async_thread_failed ≡ false
      → OnFile stream t l.buffer
      → OnFile (stream ++ accepted es) (run takes es (l, t)).1 (run takes es (l, t)).0.buffer
  unfolding run accepted write_batch
  run-step [] stream l t on thread h = subst (λ s. OnFile s t l.buffer) (sym (append-nil stream)) h
  run-step (logged i level m ∷ es) stream l t on thread h = elim (Bool-cases (is_below level)) [
    | inl below ↦
        subst
          (λ ls.
            OnFile (stream ++ ls) (run takes es (log i level m l, t)).1
              (run takes es (log i level m l, t)).0.buffer)
          (sym (if_so (is_below level) _ _ below))
          (subst
            (λ k.
              OnFile (stream ++ accepted es) (run takes es (k, t)).1 (run takes es (k, t)).0.buffer)
            (sym (log_below i level m l below)) (run-step es stream l t on thread h))
    | inr above ↦
        let w : IsWriting l (record { lines = []; failed = false }) = record {
          on = on;
          thread = thread;
          file = refl;
        } in
        let p : Pushes l (log i level m l) (file_line level m ∷ []) =
          log-Pushes i level m l (record { lines = []; failed = false }) w above in
        let line : List Line = file_line level m ∷ [] in
        let k : Logger = log i level m l in
        let rest = run-step es (stream ++ line) k t (p.on ∙ on) (p.thread ∙ thread) (
          subst (OnFile (stream ++ line) t) (sym p.buffer)
            (OnFile-append stream t l.buffer line h)) in
        subst (λ s. OnFile s (run takes es (k, t)).1 (run takes es (k, t)).0.buffer)
          (append_assoc stream line (accepted es)
            ∙ ap (λ ls. stream ++ ls) (sym (if_not (is_below level) _ _ above)))
          rest
  ]
  run-step (round n ∷ es) stream l t on thread h =
      run-step es stream (record l { buffer = (write_lines takes n t l.buffer).1 })
        (write_lines takes n t l.buffer).0 on thread (write_lines-OnFile stream n t l.buffer h)

  -- While asynchronous logging is on and the file is open: whatever calls of `Log` and rounds of the writing
  -- thread follow on each other, and whatever lines the stream refuses, the lines in the file, and behind
  -- them those that still wait, are those from before and then exactly the lines logged at LOG_INFO and
  -- above, in order and each once; or else the stream has failed at a line that it refused, and this one
  -- line is missing between the two.
  pub run-OnFile :
      (es : List Event) (l : Logger) (t : Target)
      → IsWriting l t
      → OnFile
          (lines_of (l, t) ++ accepted es)
          (run takes es (l, t)).1
          (run takes es (l, t)).0.buffer
  run-OnFile es l t w = run-step es (lines_of (l, t)) l t w.on w.thread (inl (w.file, refl))
