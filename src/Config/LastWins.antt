-- ===== src/Config/LastWins.antt =====
-- What the options do to each setting.
use epoll_server.Base.{
  ℕ, ◌≡◌, refl, sym, ap, ◌∙◌, Bool, true, false, List, [], ◌∷◌, ◌==◌, if◌then◌else◌, Option, none,
  some, arith,
}
use epoll_server.Config.{Config, parse_option, parse_arg}

-- The argument of the last option `key`, if there is one.
or_else : Option (List ℕ) → Bool → List ℕ → Option (List ℕ)
or_else (some later) is_key optarg = some later
or_else none is_key optarg = if is_key then some optarg else none

unfoldable pub last_arg : ℕ → List (ℕ × List ℕ) → Option (List ℕ)
unfolding or_else
last_arg key [] = none
last_arg key ((opt, optarg) ∷ rest) = or_else (last_arg key rest) (opt == key) optarg

-- What a setting becomes: as `read` reads the argument, or else as it was.
abbrev pub setting {ℓ} : {V : Type ℓ} → (List ℕ → V) → V → Option (List ℕ) → V
setting read default none = default
setting read default (some optarg) = read optarg

setting-or_else {ℓ} :
    {V : Type ℓ} (read : List ℕ → V) (default : V) (later : Option (List ℕ)) (is_key : Bool)
    (optarg : List ℕ)
    → setting read default (or_else later is_key optarg)
      ≡ setting read (if is_key then read optarg else default) later
unfolding or_else
setting-or_else read default (some later) is_key optarg = refl
setting-or_else read default none true optarg = refl
setting-or_else read default none false optarg = refl

-- A text is taken as it is.
abbrev pub text : List ℕ → List ℕ
text bytes = bytes

step {ℓ} :
    {V : Type ℓ} (read : List ℕ → V) (key opt : ℕ) (optarg : List ℕ) (rest : List (ℕ × List ℕ))
    (old new : V)
    → new ≡ (if opt == key then read optarg else old)
    → setting read new (last_arg key rest) ≡ setting read old (last_arg key ((opt, optarg) ∷ rest))
unfolding last_arg
step read key opt optarg rest old new e =
    ap (λ v. setting read v (last_arg key rest)) e
    ∙ sym (setting-or_else read old (last_arg key rest) (opt == key) optarg)

module _ {ℓ} {I : Type ℓ} (atoi : List ℕ → I) where
  -- The settings after one option.
  pub record IsParsed (opt : ℕ) (optarg : List ℕ) (c d : Config I) : Type ℓ where
    pub port : d.port ≡ (if opt == 112 then atoi optarg else c.port)
    pub addr : d.addr ≡ (if opt == 108 then optarg else c.addr)
    pub thread_num : d.thread_num ≡ (if opt == 116 then atoi optarg else c.thread_num)
    pub is_async_logger : d.is_async_logger ≡ (if opt == 97 then atoi optarg else c.is_async_logger)
    pub log_file : d.log_file ≡ (if opt == 102 then optarg else c.log_file)

  parse_option-IsParsed :
      (opt : ℕ) (optarg : List ℕ) (c : Config I)
      → IsParsed opt optarg c (parse_option atoi opt optarg c)
  unfolding parse_option
  parse_option-IsParsed opt optarg c = record {
    port = ground arith;
    addr = ground arith;
    thread_num = ground arith;
    is_async_logger = ground arith;
    log_file = ground arith;
  }

  -- Every setting becomes what the last option for it says (the port, the number of threads and the
  -- flag of the asynchronous logger as `atoi` reads its argument, the address and the log file as they
  -- are), and is as it was if there is none; options of other letters change nothing.
  pub parse_arg_lem :
      (opts : List (ℕ × List ℕ)) (c : Config I)
      → ((parse_arg atoi opts c).port ≡ setting atoi c.port (last_arg 112 opts))
        × ((parse_arg atoi opts c).addr ≡ setting text c.addr (last_arg 108 opts))
        × ((parse_arg atoi opts c).thread_num ≡ setting atoi c.thread_num (last_arg 116 opts))
        × ((parse_arg atoi opts c).is_async_logger
            ≡ setting atoi c.is_async_logger (last_arg 97 opts))
        × ((parse_arg atoi opts c).log_file ≡ setting text c.log_file (last_arg 102 opts))
  unfolding parse_arg last_arg
  parse_arg_lem [] c = (refl, refl, refl, refl, refl)
  parse_arg_lem ((opt, optarg) ∷ rest) c =
      let d : Config I = parse_option atoi opt optarg c in
      let p : IsParsed opt optarg c d = parse_option-IsParsed opt optarg c in
      let (port, addr, threads, logger, file) = parse_arg_lem rest d in
      (
        port ∙ step atoi 112 opt optarg rest c.port d.port p.port,
        addr ∙ step text 108 opt optarg rest c.addr d.addr p.addr,
        threads ∙ step atoi 116 opt optarg rest c.thread_num d.thread_num p.thread_num,
        logger ∙ step atoi 97 opt optarg rest c.is_async_logger d.is_async_logger p.is_async_logger,
        file ∙ step text 102 opt optarg rest c.log_file d.log_file p.log_file,
      )
