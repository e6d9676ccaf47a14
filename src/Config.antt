-- ===== src/Config.antt =====
-- config.h and config.cpp: the settings and the options of the command line.
-- A text is its bytes. What `getopt` returns is the list of the options with their arguments, and
-- `atoi` and the number of cores are arguments; `I` is the type of the `int`s.
pub mod LastWins
mod Tests
use epoll_server.Base.{ℕ, Bool, true, false, List, [], ◌∷◌, ◌==◌, if◌then◌else◌}

pub record Config {ℓ} (I : Type ℓ) : Type ℓ where
  pub addr : List ℕ
  pub port : I
  pub thread_num : I
  pub is_async_logger : I
  pub log_file : List ℕ

-- "0.0.0.0"
abbrev pub any_address : List ℕ
any_address = 48 ∷ 46 ∷ 48 ∷ 46 ∷ 48 ∷ 46 ∷ 48 ∷ []

module _ {ℓ} {I : Type ℓ} where
  -- The constructor, given the numbers 8080 and 0 and `std::thread::hardware_concurrency()`.
  unfoldable pub init : I → I → I → Config I
  init default_port zero_int cores = record {
    addr = any_address;
    port = default_port;
    thread_num = cores;
    is_async_logger = zero_int;
    log_file = [];
  }

  -- The `switch`: 'p', 'l', 't', 'a' and 'f'.
  unfoldable pub parse_option : (List ℕ → I) → ℕ → List ℕ → Config I → Config I
  parse_option atoi opt optarg c =
      if opt == 112
      then record c { port = atoi optarg }
      else if opt == 108
      then record c { addr = optarg }
      else if opt == 116
      then record c { thread_num = atoi optarg }
      else if opt == 97
      then record c { is_async_logger = atoi optarg }
      else if opt == 102
      then record c { log_file = optarg }
      else c

  unfoldable pub parse_arg : (List ℕ → I) → List (ℕ × List ℕ) → Config I → Config I
  unfolding parse_option
  parse_arg atoi [] c = c
  parse_arg atoi ((opt, optarg) ∷ rest) c = parse_arg atoi rest (parse_option atoi opt optarg c)
