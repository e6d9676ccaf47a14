-- ===== src/Logger/Process.antt =====
-- `Debug`, `Info`, `Error` and `Fatal`, and code that logs and may end the process.
-- `S` is the state, for one source file that of its logger.
use Prim.Native.String.{String}
use epoll_server.Base.{ℕ, Bool, true, false}
use epoll_server.Logger.{debug, info, error, fatal, Message, Logger, log}

-- How a piece of the program ends: it returns, `std::terminate` is called, or an assertion fails.
pub data Outcome (S A : Type 0) : Type 0 where
  returns : A → S → Outcome S A
  terminates : S → Outcome S A
  asserts : Outcome S A

abbrev pub M : Type 0 → Type 0 → Type 0
M S A = S → Outcome S A

module _ {S : Type 0} where
  abbrev pub pure : {A : Type 0} → A → M S A
  pure a l = returns a l

  infixl 5 ◌>>=◌ ◌>>◌
  abbrev pub ◌>>=◌ : {A B : Type 0} → M S A → (A → M S B) → M S B
  ◌>>=◌ m f l = elim (m l) [ returns a k ↦ f a k | terminates k ↦ terminates k | asserts ↦ asserts ]

  abbrev pub ◌>>◌ : {B : Type 0} → M S (Unit {0}) → M S B → M S B
  m >> k = m >>= λ _. k

  abbrev pub assert : Bool → M S (Unit {0})
  assert true l = returns tt l
  assert false l = asserts

-- What a system call answers: a value, or -1 and the text of `errno`.
pub data Reply (A : Type 0) : Type 0 where
  succeeds : A → Reply A
  fails : String → Reply A

abbrev pub line : String → String → String → Message
line name err message = record { name = name; err = err; message = message }

-- `Fatal` calls `std::terminate` and returns nothing. `thread` is the id of the thread that logs.
unfoldable pub log_debug : ℕ → Message → M Logger (Unit {0})
log_debug thread m l = returns tt (log thread debug m l)

unfoldable pub log_info : ℕ → Message → M Logger (Unit {0})
log_info thread m l = returns tt (log thread info m l)

unfoldable pub log_error : ℕ → Message → M Logger (Unit {0})
log_error thread m l = returns tt (log thread error m l)

unfoldable pub log_fatal : {A : Type 0} → ℕ → Message → M Logger A
log_fatal thread m l = terminates (log thread fatal m l)

-- Code of one source file, whose logger is a part of the loggers of the program.
abbrev pub in_file : {S A : Type 0} → (S → Logger) → (Logger → S → S) → M Logger A → M S A
in_file get put m ls = elim (m (get ls)) [
  | returns a l ↦ returns a (put l ls)
  | terminates l ↦ terminates (put l ls)
  | asserts ↦ asserts
]
