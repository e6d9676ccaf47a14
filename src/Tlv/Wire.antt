-- ===== src/Tlv/Wire.antt =====
-- The header on the wire, and at both of its ends.
use epoll_server.Base.{
  ℕ, ◌+◌, ◌*◌, ◌/◌, ◌%◌, ◌^◌, ◌<◌, ◌≡◌, ◌∙◌, refl, sym, drop, List, [], ◌∷◌, ◌++◌, arith, length,
  IsBytes,
}
use epoll_server.Tlv.{
  TlvHeader, store32, load32, htonl, bytes, of_bytes, swap, outgoing_header, string_type,
}

-- Network byte order: the highest byte first.
unfoldable pub big_endian : ℕ → List ℕ
big_endian n = (n / 2 ^ 24 % 256) ∷ (n / 2 ^ 16 % 256) ∷ (n / 2 ^ 8 % 256) ∷ (n % 256) ∷ []

-- The value of four bytes in network byte order.
unfoldable pub of_big_endian : List ℕ → ℕ
of_big_endian (a ∷ b ∷ c ∷ d ∷ rest) = a * 2 ^ 24 + b * 2 ^ 16 + c * 2 ^ 8 + d
of_big_endian _ = 0

pub store32-IsBytes : (n : ℕ) → IsBytes (store32 n)
unfolding store32
store32-IsBytes n = omega arith

pub length-bytes : (h : TlvHeader) → length (bytes h) ≡ 8
unfolding bytes store32
length-bytes h = refl

pub bytes-IsBytes : (h : TlvHeader) → IsBytes (bytes h)
unfolding bytes store32
bytes-IsBytes h = omega arith

pub load32-store32 : (n : ℕ) (rest : List ℕ) → n < 2 ^ 32 → load32 (store32 n ++ rest) ≡ n
unfolding load32 store32
load32-store32 n rest h = omega arith

store32-load32 :
    (a b c d : ℕ) (rest : List ℕ)
    → IsBytes (a ∷ b ∷ c ∷ d ∷ [])
    → store32 (load32 (a ∷ b ∷ c ∷ d ∷ rest)) ≡ a ∷ b ∷ c ∷ d ∷ []
unfolding store32 load32
store32-load32 a b c d rest h = ground arith

pub bytes-of_bytes : (m : List ℕ) → IsBytes m → length m ≡ 8 → bytes (of_bytes m) ≡ m
unfolding bytes of_bytes
bytes-of_bytes (a ∷ b ∷ c ∷ d ∷ e ∷ f ∷ g ∷ i ∷ []) v h = rw (
  store32-load32 a b c d (e ∷ f ∷ g ∷ i ∷ []) (omega arith),
  store32-load32 e f g i [] (omega arith),
)
bytes-of_bytes _ v h = absurd (omega arith)

pub store32-htonl : (n : ℕ) → store32 (htonl n) ≡ big_endian n
unfolding store32 htonl big_endian
store32-htonl n = ground arith

pub htonl-htonl : (n : ℕ) → n < 2 ^ 32 → htonl (htonl n) ≡ n
unfolding htonl
htonl-htonl n h = omega arith

pub htonl-load32 :
    (a b c d : ℕ) (rest : List ℕ)
    → IsBytes (a ∷ b ∷ c ∷ d ∷ [])
    → htonl (load32 (a ∷ b ∷ c ∷ d ∷ rest)) ≡ of_big_endian (a ∷ b ∷ c ∷ d ∷ rest)
unfolding htonl load32 of_big_endian
htonl-load32 a b c d rest h = omega arith

-- The eight bytes put before a message of `len` bytes are, in network byte order, the type STRING
-- and the length `len` (its low 32 bits, where it needs more).
pub outgoing_header-big_endian :
    (len : ℕ) → outgoing_header len ≡ big_endian string_type ++ big_endian (len % 2 ^ 32)
unfolding outgoing_header
outgoing_header-big_endian len = rw (store32-htonl string_type, store32-htonl (len % 2 ^ 32))

pub length-outgoing_header : (len : ℕ) → length (outgoing_header len) ≡ 8
unfolding outgoing_header
length-outgoing_header len = length-bytes _

pub outgoing_header-IsBytes : (len : ℕ) → IsBytes (outgoing_header len)
unfolding outgoing_header
outgoing_header-IsBytes len = bytes-IsBytes _

htonl-lt : (n : ℕ) → htonl n < 2 ^ 32
unfolding htonl
htonl-lt n = omega arith

pub of_bytes-bytes : (h : TlvHeader) → h.type < 2 ^ 32 → h.length < 2 ^ 32 → of_bytes (bytes h) ≡ h
unfolding of_bytes bytes store32
of_bytes-bytes h p q =
    ground (arith, load32-store32 h.type (store32 h.length) p, load32-store32 h.length [] q)

-- A reader that converts the header back gets the type STRING and the length, for every length
-- that fits 32 bits.
pub swap-outgoing_header :
    (len : ℕ)
    → len < 2 ^ 32
    → swap (of_bytes (outgoing_header len)) ≡ record { type = string_type; length = len }
unfolding outgoing_header swap
swap-outgoing_header len h =
    rw
      (of_bytes-bytes (record { type = htonl string_type; length = htonl (len % 2 ^ 32) })
        (htonl-lt string_type) (htonl-lt (len % 2 ^ 32)))
      (ground
        (arith, htonl-htonl string_type (omega arith), htonl-htonl (len % 2 ^ 32) (omega arith)))

of_big_endian-store32 : (n : ℕ) → of_big_endian (store32 n) ≡ htonl n
unfolding of_big_endian store32 htonl
of_big_endian-store32 n = omega arith

-- The converted length of a header, from its bytes as they came.
pub swap-length : (h : TlvHeader) → (swap h).length ≡ of_big_endian (drop 4 (bytes h))
unfolding swap bytes store32
swap-length h = sym (of_big_endian-store32 h.length)

-- The header before `len` bytes announces them, in network byte order.
pub outgoing_header-announces :
    (len : ℕ) → len < 2 ^ 32 → of_big_endian (drop 4 (outgoing_header len)) ≡ len
unfolding outgoing_header swap
outgoing_header-announces len h =
    sym (swap-length (swap (record { type = string_type; length = len % 2 ^ 32 })))
    ∙ htonl-htonl (len % 2 ^ 32) (omega arith)
    ∙ omega arith
