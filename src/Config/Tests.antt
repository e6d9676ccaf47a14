-- ===== src/Config/Tests.antt =====
-- `-p 80 -p 81 -x`, with an `atoi` that takes the first byte.
use epoll_server.Base.{ℕ, ◌≡◌, List, [], ◌∷◌}
use epoll_server.Config.{Config, parse_arg}
use epoll_server.Config.LastWins.{setting, last_arg, text, parse_arg_lem}

abbrev first_byte : List ℕ → ℕ
first_byte [] = 0
first_byte (b ∷ bytes) = b

abbrev options : List (ℕ × List ℕ)
options = (112, 80 ∷ []) ∷ (112, 81 ∷ []) ∷ (120, []) ∷ []

abbrev before : Config ℕ
before = record { addr = []; port = 7; thread_num = 3; is_async_logger = 0; log_file = [] }

parse_arg_lem_example :
    ((parse_arg first_byte options before).port ≡ setting first_byte 7 (last_arg 112 options))
    × ((parse_arg first_byte options before).addr ≡ setting text [] (last_arg 108 options))
    × ((parse_arg first_byte options before).thread_num
        ≡ setting first_byte 3 (last_arg 116 options))
    × ((parse_arg first_byte options before).is_async_logger
        ≡ setting first_byte 0 (last_arg 97 options))
    × ((parse_arg first_byte options before).log_file ≡ setting text [] (last_arg 102 options))
parse_arg_lem_example = parse_arg_lem first_byte options before
