-- ===== src/Common/Hash.antt =====
-- src/common/hash.cpp: digests in lowercase hex and the split of a file into pieces. OpenSSL's EVP
-- functions are the parameter `evp`: the digest of a text, or nothing where one of them fails.
pub mod Pieces
use peer_to_peer_file_sharin.Prelude.{
  ℕ, zero, suc, ◌+◌, ◌-◌, ◌*◌, ◌/◌, ◌%◌, ◌≡◌, List, [], ◌∷◌, Option, none, some, ltb, if◌then◌else◌,
  length, take, drop, arith,
}
use peer_to_peer_file_sharin.Bytes.{Bytes, is_empty}

abbrev pub piece_size : ℕ
piece_size = 512 * 1024

-- EVP_sha1() and EVP_sha256()
pub data Algorithm : Type 0 where
  sha1 sha256 : Algorithm

-- EVP_DigestInit_ex, EVP_DigestUpdate and EVP_DigestFinal_ex in a fresh context.
abbrev pub Evp : Type 0
Evp = Algorithm → Bytes → Option Bytes

unfoldable pub hex_digit : ℕ → ℕ
hex_digit n = if ltb n 10 then 48 + n else 87 + n

unfoldable pub to_hex : Bytes → Bytes
unfolding hex_digit
to_hex [] = []
to_hex (c ∷ s) = hex_digit (c / 16) ∷ hex_digit (c % 16) ∷ to_hex s

unfoldable pub hex_or_empty : Option Bytes → Bytes
unfolding to_hex
hex_or_empty none = []
hex_or_empty (some d) = to_hex d

pub length-to_hex : (s : Bytes) → length (to_hex s) ≡ 2 * length s
unfolding to_hex
length-to_hex [] = omega arith
length-to_hex (c ∷ s) = omega (arith, length-to_hex s)

module _ (evp : Evp) where
  unfoldable pub digest_hex : Algorithm → Bytes → Bytes
  unfolding hex_or_empty
  digest_hex md s = hex_or_empty (evp md s)

  unfoldable pub sha1_hex : Bytes → Bytes
  unfolding digest_hex
  sha1_hex s = digest_hex sha1 s

  unfoldable pub sha256_hex : Bytes → Bytes
  unfolding digest_hex
  sha256_hex s = digest_hex sha256 s

  -- The digest of a file that can be opened: the context is fed with what each read returns, which
  -- makes the digest of it all.
  unfoldable pub sha1_file_hex : Option Bytes → Bytes
  unfolding sha1_hex
  sha1_file_hex none = []
  sha1_file_hex (some s) = sha1_hex s

  -- Reads of at most `size` bytes, `n` times or until one returns nothing, each hashed.
  unfoldable pub read_pieces : ℕ → ℕ → Bytes → List Bytes
  unfolding sha1_hex
  read_pieces size zero s = []
  read_pieces size (suc n) s =
      let rest = read_pieces size n (drop size s) in
      if is_empty s then [] else sha1_hex (take size s) ∷ rest

  -- The hashes, and the number of pieces that the size asks for. A file that cannot be opened is
  -- `none`; a read of a regular file returns what was asked for as long as that is there.
  unfoldable pub sha1_file_pieces : Option Bytes → List Bytes × ℕ
  unfolding read_pieces
  sha1_file_pieces none = ([], 0)
  sha1_file_pieces (some s) =
      let num_pieces : ℕ = (length s + piece_size - 1) / piece_size in
      (read_pieces piece_size num_pieces s, num_pieces)
