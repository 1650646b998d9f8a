-- ===== src/Common/Auth.antt =====
-- src/common/auth.cpp: salts, tokens and stored passwords. What RAND_bytes drew is an argument,
-- `none` where it failed; the digest is OpenSSL's.
use peer_to_peer_file_sharin.Prelude.{
  ℕ, Bool, false, not, ◌||◌, [], ◌∷◌, ◌++◌, Option, nat_eq, if◌then◌else◌, length,
}
use Prim.Native.Nat.{bit_or, bit_xor}
use peer_to_peer_file_sharin.Bytes.{Bytes, is_empty}
use peer_to_peer_file_sharin.Common.Hash.{Evp, hex_or_empty, sha256_hex}

abbrev pub salt_bytes : ℕ
salt_bytes = 16

abbrev pub token_bytes : ℕ
token_bytes = 32

-- The outcome of RAND_bytes.
abbrev pub Drawn : Type 0
Drawn = Option Bytes

unfoldable pub random_hex : Drawn → Bytes
unfolding hex_or_empty
random_hex drawn = hex_or_empty drawn

pub record PasswordHash : Type 0 where
  pub salt : Bytes
  pub hash : Bytes

-- diff |= computed[i] ^ stored[i]
unfoldable pub difference : ℕ → Bytes → Bytes → ℕ
difference diff [] ys = diff
difference diff (x ∷ xs) [] = diff
difference diff (x ∷ xs) (y ∷ ys) = difference (bit_or diff (bit_xor x y)) xs ys

module _ (evp : Evp) where
  unfoldable pub hash_password : Drawn → Bytes → PasswordHash
  unfolding random_hex
  hash_password drawn password =
      let salt : Bytes = random_hex drawn in
      if is_empty salt
      then record { salt = salt; hash = [] }
      else record { salt = salt; hash = sha256_hex evp (salt ++ password) }

  unfoldable pub verify_password : Bytes → PasswordHash → Bool
  unfolding difference
  verify_password password stored =
      if is_empty stored.salt || is_empty stored.hash
      then false
      else (let computed : Bytes = sha256_hex evp (stored.salt ++ password) in
          if not (nat_eq (length computed) (length stored.hash))
          then false
          else nat_eq (difference 0 computed stored.hash) 0)
