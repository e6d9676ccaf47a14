-- ===== src/Logger/Order.antt =====
-- The order of the lines in the log file.
use epoll_server.Base.{
  ℕ, zero, suc, ◌≡◌, refl, sym, ap, ◌∙◌, Bool, true, false, not, ◌&&◌, List, [], ◌∷◌, ◌++◌, take,
  drop, take-append-drop, append-nil, append_assoc, if◌then◌else◌, Bool-cases, if_so, if_not,
  if_both, false≢true, subst, inl, inr,
}
use epoll_server.Logger.{
  LogLevel, Message, Line, Logger, Target, log, print_line, push_line, file_line, is_below,
  write_line, write_lines, write_batch,
}

-- What happens to a logger: a line is logged, or the writing thread makes a round.
pub data Event : Type 0 where
  logged : ℕ → LogLevel → Message → Event
  round : ℕ → Event

-- The lines that are not below the level.
unfoldable pub accepted : List Event → List Line
accepted [] = []
accepted (logged thread level m ∷ es) =
    let rest = accepted es in if is_below level then rest else file_line level m ∷ rest
accepted (round n ∷ es) = accepted es

-- The file is open, and asynchronous logging is on.
pub record IsWriting (l : Logger) (t : Target) : Type 0 where
  pub on : l.is_async ≡ true
  pub thread : l.async_thread_failed ≡ false
  pub file : t.failed ≡ false

-- What a call of `Log` does to the logger's part in writing, whether or not it prints.
pub record Pushes (l k : Logger) (lines : List Line) : Type 0 where
  pub buffer : k.buffer ≡ l.buffer ++ lines
  pub on : k.is_async ≡ l.is_async
  pub thread : k.async_thread_failed ≡ l.async_thread_failed

pub print_line-Pushes :
    (thread : ℕ) (level : LogLevel) (m : Message) (l : Logger)
    → Pushes l (print_line thread level m l) []
unfolding print_line
print_line-Pushes thread level m l =
    let same : l.buffer ≡ l.buffer ++ [] = sym (append-nil l.buffer) in
    if_both (λ k. Pushes l k []) l.is_print_cout _ l
      (λ _. record { buffer = same; on = refl; thread = refl })
      (λ _. record { buffer = same; on = refl; thread = refl })

push_line-Pushes :
    (level : LogLevel) (m : Message) (l : Logger)
    → l.is_async && not l.async_thread_failed ≡ true
    → Pushes l (push_line level m l) (file_line level m ∷ [])
unfolding push_line
push_line-Pushes level m l e =
    subst (λ k. Pushes l k (file_line level m ∷ []))
      (sym (if_so (l.is_async && not l.async_thread_failed) _ l e))
      (record { buffer = refl; on = refl; thread = refl })

both : (a b : Bool) → a ≡ true → b ≡ false → a && not b ≡ true
both true true e f = absurd (false≢true (sym f))
both true false e f = refl
both false b e f = absurd (false≢true e)

pub log-Pushes :
    (thread : ℕ) (level : LogLevel) (m : Message) (l : Logger) (t : Target)
    → IsWriting l t
    → is_below level ≡ false
    → Pushes l (log thread level m l) (file_line level m ∷ [])
unfolding log
log-Pushes thread level m l t w above =
    let k : Logger = print_line thread level m l in
    let p : Pushes l k [] = print_line-Pushes thread level m l in
    let q : Pushes k (push_line level m k) (file_line level m ∷ []) =
      push_line-Pushes level m k
        (both k.is_async k.async_thread_failed (p.on ∙ w.on) (p.thread ∙ w.thread)) in
    subst (λ r. Pushes l r (file_line level m ∷ [])) (sym (if_not (is_below level) l _ above))
      (record {
        buffer =
            q.buffer ∙ ap (λ b. b ++ (file_line level m ∷ [])) (p.buffer ∙ append-nil l.buffer);
        on = q.on ∙ p.on;
        thread = q.thread ∙ p.thread;
      })

pub log_below :
    (thread : ℕ) (level : LogLevel) (m : Message) (l : Logger)
    → is_below level ≡ true
    → log thread level m l ≡ l
unfolding log
log_below thread level m l below = if_so (is_below level) l _ below

-- What is in the file, and behind it what waits in the buffer.
abbrev pub lines_of : Logger × Target → List Line
lines_of (l, t) = t.lines ++ l.buffer

module _ (takes : List Line → Line → Bool) where
  unfoldable pub run : List Event → Logger × Target → Logger × Target
  unfolding log write_batch
  run [] s = s
  run (logged thread level m ∷ es) (l, t) = run es (log thread level m l, t)
  run (round n ∷ es) s = run es (write_batch takes n s)

module _ (takes : List Line → Line → Bool)
    (healthy : (ls : List Line) (x : Line) → takes ls x ≡ true) where
  write_line_lem :
      (x : Line) (t : Target) → write_line takes x t ≡ record t { lines = t.lines ++ (x ∷ []) }
  unfolding write_line
  write_line_lem x t = if_so (takes t.lines x) _ _ (healthy t.lines x)

  write_lines_lem :
      (n : ℕ) (t : Target) (b : List Line)
      → t.failed ≡ false
      → write_lines takes n t b ≡ (record t { lines = t.lines ++ take n b }, drop n b)
  unfolding write_lines write_line
  write_lines_lem zero t b e = ap (λ ls. (record t { lines = ls }, b)) (sym (append-nil t.lines))
  write_lines_lem (suc n) t [] e =
      ap (λ ls. (record t { lines = ls }, [])) (sym (append-nil t.lines))
  write_lines_lem (suc n) t (x ∷ b) e =
      ap {A = Target × List Line} (λ p. write_lines takes n p.0 p.1)
        (if_not t.failed (t, x ∷ b) (write_line takes x t, b) e
          ∙ ap (λ u. (u, b)) (write_line_lem x t))
      ∙ write_lines_lem n (record t { lines = t.lines ++ (x ∷ []) }) b e
      ∙ ap (λ ls. (record t { lines = ls }, drop n b)) (append_assoc t.lines (x ∷ []) (take n b))

  -- A round moves lines from the buffer to the file.
  round_lem :
      (n : ℕ) (l : Logger) (t : Target)
      → IsWriting l t
      → write_batch takes n (l, t)
        ≡ (record l { buffer = drop n l.buffer }, record t { lines = t.lines ++ take n l.buffer })
  unfolding write_batch
  round_lem n l t w =
      ap (λ p. (record l { buffer = p.1 }, p.0)) (write_lines_lem n t l.buffer w.file)

  -- While asynchronous logging is on and the file takes every line: whatever calls of `Log` and rounds
  -- of the writing thread follow on each other, the lines in the file, and behind them those that
  -- still wait, are those from before and then exactly the lines logged at LOG_INFO and above, in order
  -- and each once.
  pub run-lines_of :
      (es : List Event) (l : Logger) (t : Target)
      → IsWriting l t
      → lines_of (run takes es (l, t)) ≡ lines_of (l, t) ++ accepted es
  unfolding run accepted
  run-lines_of [] l t w = sym (append-nil (t.lines ++ l.buffer))
  run-lines_of (logged thread level m ∷ es) l t w = elim (Bool-cases (is_below level)) [
    | inl below ↦
        ap (λ k. lines_of (run takes es (k, t))) (log_below thread level m l below)
        ∙ run-lines_of es l t w
        ∙ ap (λ ls. lines_of (l, t) ++ ls) (sym (if_so (is_below level) _ _ below))
    | inr above ↦
        let p : Pushes l (log thread level m l) (file_line level m ∷ []) =
          log-Pushes thread level m l t w above in
        run-lines_of es (log thread level m l) t
          (record { on = p.on ∙ w.on; thread = p.thread ∙ w.thread; file = w.file })
        ∙ ap (λ b. (t.lines ++ b) ++ accepted es) p.buffer
        ∙ ap (λ ls. ls ++ accepted es)
            (sym (append_assoc t.lines l.buffer (file_line level m ∷ [])))
        ∙ append_assoc (t.lines ++ l.buffer) (file_line level m ∷ []) (accepted es)
        ∙ ap (λ ls. lines_of (l, t) ++ ls) (sym (if_not (is_below level) _ _ above))
  ]
  run-lines_of (round n ∷ es) l t w =
      ap (λ s. lines_of (run takes es s)) (round_lem n l t w)
      ∙ run-lines_of es (record l { buffer = drop n l.buffer })
          (record t { lines = t.lines ++ take n l.buffer })
          (record { on = w.on; thread = w.thread; file = w.file })
      ∙ ap (λ ls. ls ++ accepted es)
          (append_assoc t.lines (take n l.buffer) (drop n l.buffer)
            ∙ ap (λ ls. t.lines ++ ls) (take-append-drop n l.buffer))
