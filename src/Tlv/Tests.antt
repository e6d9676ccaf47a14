-- ===== src/Tlv/Tests.antt =====
-- Tests of the header, and its theorems at concrete inputs.
use epoll_server.Base.{◌+◌, ◌^◌, ◌≡◌, refl, [], ◌∷◌, arith}
use epoll_server.Tlv.{outgoing_header, swap, of_bytes, store32, htonl, string_type}
use epoll_server.Tlv.Wire.{big_endian, outgoing_header-big_endian, swap-outgoing_header}

-- 0x01020304 bytes
header_of_many : outgoing_header 0x01020304 ≡ 0 ∷ 0 ∷ 0 ∷ 0 ∷ 1 ∷ 2 ∷ 3 ∷ 4 ∷ []
unfolding outgoing_header store32 htonl
header_of_many = refl

outgoing_header-big_endian_example :
    outgoing_header (2 ^ 32 + 5) ≡ 0 ∷ 0 ∷ 0 ∷ 0 ∷ 0 ∷ 0 ∷ 0 ∷ 5 ∷ []
unfolding big_endian
outgoing_header-big_endian_example = outgoing_header-big_endian (2 ^ 32 + 5)

swap_header : swap (of_bytes (outgoing_header 4096)) ≡ record { type = string_type; length = 4096 }
swap_header = swap-outgoing_header 4096 (omega arith)
