-- ===== src/Connection/Close.antt =====
-- `HandleClose`, by cases.
use epoll_server.Base.{◌+◌, ◌≡◌, refl, true, false, if◌then◌else◌, Bool-cases, inl, inr, false≢true}
use epoll_server.Connection.State.{
  ConnectionState, invalid, connected, disconnected, Session, is_disconnected, handle_close,
}

pub eq_disconnected : (c : ConnectionState) → is_disconnected c ≡ true → c ≡ disconnected
eq_disconnected invalid h = absurd (false≢true h)
eq_disconnected connected h = absurd (false≢true h)
eq_disconnected disconnected h = refl

-- The session after the first close.
abbrev pub closed : Session → Session
closed s = record s {
  conn = record (s.conn) { state = disconnected };
  close_calls = if s.conn.on_close_callback then s.close_calls + 1 else s.close_calls;
}

pub handle_close_cases {ℓ} :
    (P : Session → Type ℓ) (s : Session)
    → (s.conn.state ≡ disconnected → P s)
    → (is_disconnected s.conn.state ≡ false → P (closed s))
    → P (handle_close s)
unfolding handle_close
handle_close_cases P s old new = elim (Bool-cases (is_disconnected s.conn.state)) [
  | inl h ↦ rw h (old (eq_disconnected s.conn.state h))
  | inr h ↦ rw h (new h)
]

-- What does not hang on the state and the callback's count is as before.
pub handle_close-kept {ℓ} :
    (P : Session → Type ℓ) (s : Session) → P s → P (closed s) → P (handle_close s)
handle_close-kept P s old new = handle_close_cases P s (λ _. old) (λ _. new)

pub handle_close-disconnected : (s : Session) → (handle_close s).conn.state ≡ disconnected
handle_close-disconnected s =
    handle_close_cases (λ t. t.conn.state ≡ disconnected) s (λ h. h) (λ _. refl)
