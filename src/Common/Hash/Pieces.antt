-- ===== src/Common/Hash/Pieces.antt =====
-- The hash of each piece of a file (`sha1_file_pieces` of src/common/hash.cpp).
use peer_to_peer_file_sharin.Prelude.{
  ℕ, zero, suc, ◌+◌, ◌-◌, ◌*◌, ◌/◌, ◌≤◌, ◌<◌, ◌≡◌, refl, ap, sym, ◌∙◌, [], ◌∷◌, Option, none, some,
  length, take, drop, get_elem?, arith, if◌then◌else◌,
}
use peer_to_peer_file_sharin.Bytes.{Bytes, is_empty}
use peer_to_peer_file_sharin.Common.Hash.{Evp, sha1_hex, read_pieces, sha1_file_pieces, piece_size}

-- The piece of a file at an index, empty behind the end.
abbrev pub piece_at : ℕ → ℕ → Bytes → Bytes
piece_at size i s = take size (drop (i * size) s)

drop-nil : (k : ℕ) → drop {A = ℕ} k [] ≡ []
drop-nil zero = refl
drop-nil (suc k) = refl

take-nil : (k : ℕ) → take {A = ℕ} k [] ≡ []
take-nil zero = refl
take-nil (suc k) = refl

zero_add : (k : ℕ) → 0 + k ≡ k
zero_add k = omega arith

suc_add : (j k : ℕ) → suc j + k ≡ suc (j + k)
suc_add j k = omega arith

zero_mul : (n : ℕ) → 0 * n ≡ 0
zero_mul n = omega arith

suc_mul : (i n : ℕ) → suc i * n ≡ n + i * n
suc_mul i n = omega arith

drop-add : (j k : ℕ) (s : Bytes) → drop (j + k) s ≡ drop k (drop j s)
drop-add zero k s = ap (λ n. drop n s) (zero_add k)
drop-add (suc j) k [] = drop-nil (suc j + k) ∙ sym (drop-nil k)
drop-add (suc j) k (c ∷ s) = ap (λ n. drop n (c ∷ s)) (suc_add j k) ∙ drop-add j k s

pub length-drop : (k : ℕ) (s : Bytes) → length (drop k s) ≡ length s - k
length-drop zero s = omega arith
length-drop (suc k) [] = omega arith
length-drop (suc k) (c ∷ s) = omega (arith, length-drop k s)

module _ (evp : Evp) where
  -- The hash of a piece that is there.
  abbrev pub hash_of : Bytes → Option Bytes
  hash_of p = if is_empty p then none else some (sha1_hex evp p)

  hash_of-behind : (m k : ℕ) → hash_of (take (suc m) (drop k [])) ≡ none
  hash_of-behind m k = ap (λ t. hash_of (take (suc m) t)) (drop-nil k)

  piece_at-zero : (m : ℕ) (s : Bytes) → piece_at (suc m) 0 s ≡ take (suc m) s
  piece_at-zero m s = ap (λ k. take (suc m) (drop k s)) (zero_mul (suc m))

  piece_at-suc :
      (m i : ℕ) (s : Bytes) → piece_at (suc m) (suc i) s ≡ piece_at (suc m) i (drop (suc m) s)
  piece_at-suc m i s =
      ap (λ k. take (suc m) (drop k s)) (suc_mul i (suc m))
      ∙ ap (take (suc m)) (drop-add (suc m) (i * suc m) s)

  -- The hash at each index, if there are enough rounds for the file.
  read_pieces-get :
      (m n i : ℕ) (s : Bytes)
      → length s ≤ n * suc m
      → get_elem? (read_pieces evp (suc m) n s) i ≡ hash_of (piece_at (suc m) i s)
  unfolding read_pieces
  read_pieces-get m zero i [] h = sym (hash_of-behind m (i * suc m))
  read_pieces-get m zero i (c ∷ s) h = ground (arith, h)
  read_pieces-get m (suc n) i [] h = sym (hash_of-behind m (i * suc m))
  read_pieces-get m (suc n) zero (c ∷ s) h = sym (ap hash_of (piece_at-zero m (c ∷ s)))
  read_pieces-get m (suc n) (suc i) (c ∷ s) h =
      read_pieces-get m n i (drop m s) (rw (length-drop m s) (omega (arith, h)))
      ∙ sym (ap hash_of (piece_at-suc m i (c ∷ s)))

  -- The hash at each index is that of the piece there, and there is none behind the end.
  pub sha1_file_pieces-get :
      (s : Bytes) (i : ℕ)
      → get_elem? (sha1_file_pieces evp (some s)).0 i ≡ hash_of (piece_at piece_size i s)
  unfolding sha1_file_pieces
  sha1_file_pieces-get s i =
      read_pieces-get 524287 ((length s + piece_size - 1) / piece_size) i s (omega arith)

  length-read_pieces :
      (m n : ℕ) (s : Bytes)
      → length s ≤ n * suc m
      → n * suc m < length s + suc m
      → length (read_pieces evp (suc m) n s) ≡ n
  unfolding read_pieces
  length-read_pieces m zero s h b = refl
  length-read_pieces m (suc n) [] h b = ground (arith, h, b)
  length-read_pieces m (suc n) (c ∷ s) h b = ap suc (
      length-read_pieces m n (drop m s) (rw (length-drop m s) (omega (arith, h)))
        (rw (length-drop m s) (omega (arith, b))))

  -- For a file that can be read, sha1_file_pieces returns exactly as many hashes as the number of
  -- pieces it reports.
  pub sha1_file_pieces-length :
      (s : Bytes) → length (sha1_file_pieces evp (some s)).0 ≡ (sha1_file_pieces evp (some s)).1
  unfolding sha1_file_pieces
  sha1_file_pieces-length s =
      length-read_pieces 524287 ((length s + piece_size - 1) / piece_size) s (omega arith)
        (omega arith)
