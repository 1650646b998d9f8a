-- ===== src/Client/Downloader/Pool/Writes.antt =====
-- What one turn of a worker of src/client/downloader.cpp does to the output file, if the announced
-- hashes are those of a file and no payload of the turn collides with one of its pieces.
use peer_to_peer_file_sharin.Prelude.{
  ℕ, zero, suc, ◌+◌, ◌-◌, ◌/◌, ◌≤◌, ◌<◌, ◌≡◌, refl, ap, sym, ◌∙◌, true, false, [], ◌∷◌, Option,
  none, some, leb, if◌then◌else◌, length, take, drop, get_elem?, arith,
}
use native.Mathlib.Decide.{dec_lt}
use mathlib.Core.Option.{some-injective}
use peer_to_peer_file_sharin.Bytes.{Bytes, is_empty, ==_iff}
use peer_to_peer_file_sharin.Common.Hash.{Evp, sha1_hex, sha1_file_pieces, piece_size}
use peer_to_peer_file_sharin.Common.Hash.Pieces.{
  piece_at, hash_of, length-drop, sha1_file_pieces-get,
}
use peer_to_peer_file_sharin.Client.Downloader.Storage.{write_at}
use peer_to_peer_file_sharin.Client.Downloader.Storage.Bytewise.{
  length-write_at, write_at-before, write_at-within, write_at-behind, get_elem?-take,
  get_elem?-drop,
}
use peer_to_peer_file_sharin.Client.Downloader.Fetch.{matches}

length-take : (n : ℕ) (s : Bytes) → length (take n s) ≡ (if leb n (length s) then n else length s)
length-take zero s = ground arith
length-take (suc n) [] = ground arith
length-take (suc n) (c ∷ s) = ground (arith, length-take n s)

module _ (file : Bytes) where
  -- The byte is the file's.
  abbrev pub RightAt : Bytes → ℕ → Type 0
  RightAt output k = get_elem? output k ≡ get_elem? file k

  -- The bytes of a piece are the file's.
  abbrev pub Right : Bytes → ℕ → Type 0
  Right output i = (k : ℕ) → k < length file → k / piece_size ≡ i → RightAt output k

module _ (evp : Evp) (file : Bytes) where
  -- A payload with the announced hash is the piece.
  abbrev pub IsPiece : ℕ → Bytes → Type 0
  IsPiece i payload =
      sha1_hex evp payload ≡ sha1_hex evp (piece_at piece_size i file)
      → payload ≡ piece_at piece_size i file

  hash_of-some :
      (p : Bytes) (h : Bytes) → hash_of evp p ≡ some h → (is_empty p ≡ false) × (h ≡ sha1_hex evp p)
  hash_of-some [] h e = cc
  hash_of-some (c ∷ p) h e = (refl, sym (some-injective _ _ e))

  matches-some : (o : Option Bytes) (h : Bytes) → matches o h ≡ true → o ≡ some h
  unfolding matches
  matches-some none h e = cc
  matches-some (some x) h e = ap some (sym ((==_iff h x).0 e))

  -- Only the piece itself passes the check, and only if there is one.
  pub matches-piece :
      (i : ℕ) (payload : Bytes)
      → IsPiece i payload
      → matches (get_elem? (sha1_file_pieces evp (some file)).0 i) (sha1_hex evp payload) ≡ true
      → (payload ≡ piece_at piece_size i file) × (is_empty (piece_at piece_size i file) ≡ false)
  matches-piece i payload unique e =
      let r = hash_of-some (piece_at piece_size i file) (sha1_hex evp payload) (
        sym (sha1_file_pieces-get evp file i)
        ∙ matches-some (get_elem? (sha1_file_pieces evp (some file)).0 i) _ e) in
      (unique r.1, r.0)

nonempty-length : (s : Bytes) → is_empty s ≡ false → 0 < length s
nonempty-length [] h = cc
nonempty-length (c ∷ s) h = omega arith

length-take-le : (n : ℕ) (s : Bytes) → (length (take n s) ≤ n) × (length (take n s) ≤ length s)
length-take-le n s = ground (arith, length-take n s)

-- A piece of `m` bytes at an offset, or the beginning of one, written where it stands in the file.
module _ (m off l : ℕ) (file output : Bytes) (there : is_empty (take m (drop off file)) ≡ false)
    (sized : length output ≡ length file) where
  abbrev part : Bytes
  part = take l (take m (drop off file))

  piece-bounds :
      (off < length file)
      × (length (take m (drop off file)) ≤ length file - off)
      × (length (take m (drop off file)) ≤ m)
  piece-bounds = omega (
    arith,
    length-take-le m (drop off file),
    length-drop off file,
    nonempty-length (take m (drop off file)) there,
  )

  part-bounds : (length part ≤ length (take m (drop off file))) × (length part ≤ l)
  part-bounds = omega (arith, length-take-le l (take m (drop off file)))

  -- The size of the file stays,
  pub write-sized : length (write_at off part output) ≡ length file
  write-sized = ground (arith, length-write_at off part output, piece-bounds, part-bounds)

  -- what is written is the file's,
  byte-within :
      (k : ℕ) → off ≤ k → k < off + length part → RightAt file (write_at off part output) k
  byte-within k h b =
      write_at-within off part output k h b
      ∙ get_elem?-take l (k - off) (take m (drop off file)) (omega (arith, part-bounds))
      ∙ get_elem?-take m (k - off) (drop off file) (omega (arith, part-bounds, piece-bounds))
      ∙ get_elem?-drop off (k - off) file
      ∙ ap (get_elem? file) (let e : off + (k - off) ≡ k = omega arith in e)

  -- and no byte that was the file's changes.
  pub write-keeps :
      (k : ℕ) → k < length file → RightAt file output k → RightAt file (write_at off part output) k
  write-keeps k h r = elim (dec_lt k off) [
    | yes before ↦ write_at-before off part output k before (omega arith) ∙ r
    | no late ↦ elim (dec_lt k (off + length part)) [
      | yes within ↦ byte-within k (omega arith) within
      | no past ↦ write_at-behind off part output k (omega arith) ∙ r
    ]
  ]

module _ (m off : ℕ) (file output : Bytes) (there : is_empty (take m (drop off file)) ≡ false)
    (sized : length output ≡ length file) where
  take-all : (n : ℕ) (s : Bytes) → length s ≤ n → take n s ≡ s
  take-all zero [] h = refl
  take-all zero (c ∷ s) h = ground (arith, h)
  take-all (suc n) [] h = refl
  take-all (suc n) (c ∷ s) h = ap (◌∷◌ c) (take-all n s (omega (arith, h)))

  pub whole : take m (take m (drop off file)) ≡ take m (drop off file)
  whole = take-all m (take m (drop off file)) (omega (arith, length-take-le m (drop off file)))

  -- A whole piece puts all its bytes in place.
  pub write-whole :
      (k : ℕ)
      → k < length file
      → off ≤ k
      → k < off + m
      → RightAt file (write_at off (take m (drop off file)) output) k
  write-whole k h a b = rw (← whole) (
      byte-within m off m file output there sized k a (
        ground
          (arith, whole, ap length whole, length-take m (drop off file), length-drop off file)))
