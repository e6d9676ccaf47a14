-- ===== src/Client/Tests.antt =====
-- The check of the reply to a message of two bytes.
use epoll_server.Base.{ℕ, ◌%◌, ◌≡◌, ◌↔◌, refl, true, some, none, List, [], ◌∷◌, ◌++◌, length}
use epoll_server.Client.Package.{index_first, increment_first, generate_random_package, letters}
use epoll_server.Client.Letters.{generate_random_package_lem}
use epoll_server.Tlv.{outgoing_header, bytes, swap, store32, htonl}
use epoll_server.Base.{replicate, false}
use epoll_server.Client.Thread.{
  Connecting, Exchange, Attempt, client_thread, client_thread_longconn, requests_per_thread,
}
use epoll_server.Client.Adds.{Adds, generate}
use epoll_server.Base.{arith}
use epoll_server.Client.Report.{no_requests, Reported, main, main-Reported}
use epoll_server.Client.Accounts.{successes, sockets}
use epoll_server.Client.Long.{client_thread_longconn-Adds, long_successes, long_messages}
use epoll_server.Client.{random_package, accepts_reply, accepts_reply-random_package}

accepts_reply-random_package_example : accepts_reply 2 (random_package 2 (65 ∷ 66 ∷ [])) 10 ≡ true
accepts_reply-random_package_example = accepts_reply-random_package 2 (65 ∷ 66 ∷ []) 10

-- A packet of three bytes, in both orders of the statement in the loop.
generate_three :
    generate_random_package index_first 3 ≡ some (outgoing_header 3 ++ (48 ∷ 0 ∷ 50 ∷ []))
unfolding generate_random_package outgoing_header bytes swap store32 htonl
generate_three = refl

generate_three_outside : generate_random_package increment_first 3 ≡ none
unfolding generate_random_package outgoing_header bytes swap store32 htonl
generate_three_outside = refl

generate_random_package_lem_example :
    ((ls : List ℕ) × (letters index_first 0 3 ≡ some ls)
      × (length ls ≡ 3)
      × (generate_random_package index_first 3 ≡ some (outgoing_header 3 ++ ls)))
    × ((generate_random_package increment_first 3 ≡ none) ↔ (3 % 2 ≡ 1))
generate_random_package_lem_example = generate_random_package_lem 3

abbrev body : ℕ → List ℕ
body size = replicate size 65

abbrev connected : Connecting
connected = record { sock = some 3; address_ok = true; connected = true }

abbrev answered : ℕ → Attempt
answered size = record {
  connecting = connected;
  exchange = record { written = some size; bytes_received = some size };
  response_time = 7;
}

-- A success, a reply that is short, a refused connection and a socket that is not made.
abbrev attempts : List Attempt
attempts =
    answered 264
    ∷ record (answered 265) { exchange = record { written = some 265; bytes_received = some 264 } }
    ∷ record (answered 266) {
      connecting = record { sock = some 4; address_ok = true; connected = false };
    }
    ∷ record (answered 267) {
      connecting = record { sock = none; address_ok = true; connected = true };
    }
    ∷ []

four_requests :
    Adds no_requests
      (client_thread (generate body) attempts no_requests)
      4
      4
      1
      (3 ∷ 3 ∷ 4 ∷ [])
      (3 ∷ 3 ∷ 4 ∷ [])
    × Reported 4 1 (main (generate body) attempts 9000)
unfolding successes sockets
four_requests = main-Reported body attempts 9000 (omega arith)

-- The second message, of one byte, is not written whole: the third is not sent.
abbrev exchanges : List Exchange
exchanges =
    record { written = some 8; bytes_received = some 8 }
    ∷ record { written = some 7; bytes_received = none }
    ∷ record { written = some 10; bytes_received = some 10 }
    ∷ []

two_messages :
    Adds no_requests
      (client_thread_longconn (generate body) connected 50 exchanges no_requests)
      requests_per_thread
      2
      1
      (3 ∷ [])
      (3 ∷ [])
unfolding long_messages long_successes
two_messages = client_thread_longconn-Adds body connected 50 exchanges no_requests
