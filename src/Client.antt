-- ===== src/Client.antt =====
-- client.cpp and client_longconn.cpp: the packet that the pressure tests send, and their check of the
-- reply.
-- The packet here has any body; `generateRandomPackage`, which makes one, is in Client/Package.antt.
pub mod Package
pub mod Thread
pub mod Adds
pub mod Accounts
pub mod Long
pub mod Report
pub mod Letters
pub mod Interleaved
pub mod Totals
pub mod Short
mod Tests
use Prim.Native.Nat.{bit_and, bit_and-bitwise, bitwise, digits}
use epoll_server.Base.{
  ℕ, zero, suc, ◌+◌, ◌≡◌, refl, sym, ap, ◌∙◌, Bool, true, false, ◌&&◌, List, [], ◌∷◌, ◌++◌, ◌==◌,
  ==_iff, length, replicate, drop, if◌then◌else◌,
}
use epoll_server.Tlv.{outgoing_header, tlv_header_length, swap, bytes, store32, htonl}

unfoldable pub random_package : ℕ → List ℕ → List ℕ
random_package length body = outgoing_header length ++ body

-- The loop of `hashVector`.
unfoldable pub hash_from : ℕ → List ℕ → ℕ
hash_from result [] = result
hash_from result (x ∷ xs) = hash_from (bit_and result x) xs

unfoldable pub hash_vector : List ℕ → ℕ
unfolding hash_from
hash_vector [] = 0
hash_vector (x ∷ xs) = hash_from x xs

-- Whether the reply counts as a success. `received` is made and hashed; the `read` that gives
-- `bytes_received` bytes puts them into `packet`, after the hash of that has been taken.
unfoldable pub accepts_reply : ℕ → List ℕ → ℕ → Bool
unfolding hash_vector
accepts_reply message_size packet bytes_received =
    let hash : ℕ = hash_vector packet in
    let received : List ℕ = replicate (message_size + tlv_header_length) 0 in
    bytes_received == message_size + tlv_header_length && hash == hash_vector received

and_true : (b : Bool) → b && true ≡ b
and_true true = refl
and_true false = refl

bit_and_zero : (x : ℕ) → bit_and 0 x ≡ 0
bit_and_zero x = bit_and-bitwise 0 x

hash_from_zero : (xs : List ℕ) → hash_from 0 xs ≡ 0
unfolding hash_from
hash_from_zero [] = refl
hash_from_zero (x ∷ xs) = rw (bit_and_zero x) (hash_from_zero xs)

hash_vector_zeros : (n : ℕ) → hash_vector (replicate n 0) ≡ 0
unfolding hash_vector
hash_vector_zeros zero = refl
hash_vector_zeros (suc n) = hash_from_zero (replicate n 0)

hash_vector-random_package :
    (length : ℕ) (body : List ℕ) → hash_vector (random_package length body) ≡ 0
unfolding hash_vector random_package outgoing_header bytes swap store32 htonl
hash_vector-random_package length body = hash_from_zero (drop 1 (random_package length body))

-- The clients accept exactly the replies with the right number of bytes, whatever these are: both of
-- the hashes that they compare are 0 for every message.
pub accepts_reply-random_package :
    (message_size : ℕ) (body : List ℕ) (bytes_received : ℕ)
    → accepts_reply message_size (random_package message_size body) bytes_received
      ≡ (bytes_received == message_size + tlv_header_length)
unfolding accepts_reply
accepts_reply-random_package message_size body bytes_received =
    let same : (hash_vector (random_package message_size body)
          == hash_vector (replicate (message_size + tlv_header_length) 0))
        ≡ true =
      (==_iff _ _).1 (
        hash_vector-random_package message_size body
        ∙ sym (hash_vector_zeros (message_size + tlv_header_length))) in
    rw same (and_true (bytes_received == message_size + tlv_header_length))
