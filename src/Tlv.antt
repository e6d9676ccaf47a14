-- ===== src/Tlv.antt =====
-- tlvheader.h, and the conversions that connection.cpp makes on a `TLVHeader`.
-- The host is little-endian: a `uint32_t` lies in memory with its lowest byte first, and `htonl`
-- (which the source also calls in place of `ntohl`) reverses the four bytes.
pub mod Wire
mod Tests
use epoll_server.Base.{ℕ, ◌+◌, ◌*◌, ◌/◌, ◌%◌, ◌^◌, List, [], ◌∷◌, ◌++◌, length, take, drop}

pub record TlvHeader : Type 0 where
  pub type : ℕ
  pub length : ℕ

-- TLV_HEADER_LENGTH = sizeof(TLVHeader), packed
abbrev pub tlv_header_length : ℕ
tlv_header_length = 8

-- MAX_TLV_LENGTH
abbrev pub max_tlv_length : ℕ
max_tlv_length = 4096

-- TLVHEADER_TYPE::STRING
abbrev pub string_type : ℕ
string_type = 0

-- The memory of a `uint32_t`, and the value of four bytes of memory.
unfoldable pub store32 : ℕ → List ℕ
store32 n = (n % 256) ∷ (n / 2 ^ 8 % 256) ∷ (n / 2 ^ 16 % 256) ∷ (n / 2 ^ 24 % 256) ∷ []

unfoldable pub load32 : List ℕ → ℕ
load32 (a ∷ b ∷ c ∷ d ∷ rest) = a + b * 2 ^ 8 + c * 2 ^ 16 + d * 2 ^ 24
load32 _ = 0

unfoldable pub htonl : ℕ → ℕ
htonl n = n / 2 ^ 24 % 256 + n / 2 ^ 16 % 256 * 2 ^ 8 + n / 2 ^ 8 % 256 * 2 ^ 16 + n % 256 * 2 ^ 24

-- The eight bytes of a header in memory, and the header that eight bytes make.
unfoldable pub bytes : TlvHeader → List ℕ
bytes h = store32 h.type ++ store32 h.length

unfoldable pub of_bytes : List ℕ → TlvHeader
of_bytes m = record { type = load32 m; length = load32 (drop 4 m) }

-- Both fields through `htonl`: what `Send` does to the header that it sends and `ReadNonBlocking`
-- to the one that it has read.
unfoldable pub swap : TlvHeader → TlvHeader
swap h = record { type = htonl h.type; length = htonl h.length }

-- The header that `Send`, `Send2` and `SendWithTwoSysCall` put before `len` bytes: `htonl` takes
-- the low 32 bits of the `size_t`.
unfoldable pub outgoing_header : ℕ → List ℕ
unfolding swap bytes
outgoing_header len = bytes (swap (record { type = string_type; length = len % 2 ^ 32 }))
