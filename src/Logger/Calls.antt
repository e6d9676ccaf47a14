-- ===== src/Logger/Calls.antt =====
-- What a call of `Log` adds to the lines and to the buffer, when asynchronous logging is on and when it
-- is off.
use epoll_server.Base.{
  ℕ, ◌≡◌, refl, sym, ap, ◌∙◌, subst, true, false, some, List, [], ◌∷◌, ◌++◌, append-nil,
  if◌then◌else◌, Bool-cases, inl, inr,
}
use epoll_server.Logger.{
  LogLevel, Message, Line, Logger, Target, log, is_below, file_line, print_line, push_line,
}
use epoll_server.Logger.Order.{IsWriting, Pushes, log-Pushes, log_below, print_line-Pushes}
use epoll_server.Logger.Life.{noted}

-- The line of a call, if its level is not below.
abbrev pub added : LogLevel → Message → List Line
added level m = if is_below level then [] else file_line level m ∷ []

pub noted-added :
    (level : LogLevel) (m : Message) (ls : List Line)
    → noted level m (some ls) ≡ some (ls ++ added level m)
noted-added level m ls = elim (Bool-cases (is_below level)) [
  | inl below ↦ rw below (ap some (sym (append-nil ls)))
  | inr above ↦ rw above refl
]

pub record IsOn (l : Logger) : Type 0 where
  pub on : l.is_async ≡ true
  pub thread : l.async_thread_failed ≡ false

no_change-Pushes : (l : Logger) → Pushes l l []
no_change-Pushes l = record { buffer = sym (append-nil l.buffer); on = refl; thread = refl }

pub on-log :
    (thread : ℕ) (level : LogLevel) (m : Message) (l : Logger)
    → IsOn l
    → Pushes l (log thread level m l) (added level m)
on-log thread level m l w = elim (Bool-cases (is_below level)) [
  | inl below ↦ rw (below, log_below thread level m l below) (no_change-Pushes l)
  | inr above ↦
      let t : Target = record { lines = []; failed = false } in
      let writes : IsWriting l t = record { on = w.on; thread = w.thread; file = refl } in
      rw above (log-Pushes thread level m l t writes above)
]

off-push_line :
    (level : LogLevel) (m : Message) (l : Logger) → l.is_async ≡ false → push_line level m l ≡ l
unfolding push_line
off-push_line level m l off = rw off refl

pub off-log :
    (thread : ℕ) (level : LogLevel) (m : Message) (l : Logger)
    → l.is_async ≡ false
    → Pushes l (log thread level m l) []
unfolding log
off-log thread level m l off = elim (Bool-cases (is_below level)) [
  | inl below ↦ rw below (no_change-Pushes l)
  | inr above ↦
      let p : Pushes l (print_line thread level m l) [] = print_line-Pushes thread level m l in
      rw above (subst (λ k. Pushes l k []) (sym (off-push_line level m _ (p.on ∙ off))) p)
]
