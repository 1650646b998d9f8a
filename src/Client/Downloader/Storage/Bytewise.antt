-- ===== src/Client/Downloader/Storage/Bytewise.antt =====
-- `write_at` byte by byte, for the writes of src/client/downloader.cpp.
use peer_to_peer_file_sharin.Prelude.{
  ℕ, zero, suc, ◌+◌, ◌-◌, ◌≤◌, ◌<◌, ◌≡◌, refl, ap, ◌∙◌, [], ◌∷◌, ◌++◌, length, length-append, leb,
  if◌then◌else◌, take, drop, get_elem?, arith,
}
use peer_to_peer_file_sharin.Bytes.{Bytes}
use peer_to_peer_file_sharin.Common.Hash.Pieces.{length-drop}
use peer_to_peer_file_sharin.Client.Downloader.Storage.{pad, write_at}

pub length-pad : (n : ℕ) (s : Bytes) → length (pad n s) ≡ n
unfolding pad
length-pad zero s = refl
length-pad (suc n) [] = ap suc (length-pad n [])
length-pad (suc n) (c ∷ s) = ap suc (length-pad n s)

get_elem?-pad : (n k : ℕ) (s : Bytes) → k < n → k < length s → get_elem? (pad n s) k ≡ get_elem? s k
unfolding pad
get_elem?-pad zero k s h l = ground (arith, h)
get_elem?-pad (suc n) k [] h l = ground (arith, l)
get_elem?-pad (suc n) zero (c ∷ s) h l = refl
get_elem?-pad (suc n) (suc k) (c ∷ s) h l =
    get_elem?-pad n k s (omega (arith, h)) (omega (arith, l))

get_elem?-append_left :
    (xs ys : Bytes) (k : ℕ) → k < length xs → get_elem? (xs ++ ys) k ≡ get_elem? xs k
get_elem?-append_left [] ys k h = ground (arith, h)
get_elem?-append_left (x ∷ xs) ys zero h = refl
get_elem?-append_left (x ∷ xs) ys (suc k) h = get_elem?-append_left xs ys k (omega (arith, h))

get_elem?-append_right :
    (xs ys : Bytes) (k : ℕ) → length xs ≤ k → get_elem? (xs ++ ys) k ≡ get_elem? ys (k - length xs)
get_elem?-append_right [] ys k h = ap (get_elem? ys) (let e : k ≡ k - 0 = omega arith in e)
get_elem?-append_right (x ∷ xs) ys zero h = ground (arith, h)
get_elem?-append_right (x ∷ xs) ys (suc k) h =
    get_elem?-append_right xs ys k (omega (arith, h))
    ∙ ap (get_elem? ys) (let e : k - length xs ≡ suc k - suc (length xs) = omega arith in e)

pub get_elem?-drop : (n k : ℕ) (s : Bytes) → get_elem? (drop n s) k ≡ get_elem? s (n + k)
get_elem?-drop zero k s = ap (get_elem? s) (let e : k ≡ 0 + k = omega arith in e)
get_elem?-drop (suc n) k [] = refl
get_elem?-drop (suc n) k (c ∷ s) =
    get_elem?-drop n k s
    ∙ ap (get_elem? (c ∷ s)) (let e : suc (n + k) ≡ suc n + k = omega arith in e)

pub get_elem?-take : (n k : ℕ) (s : Bytes) → k < n → get_elem? (take n s) k ≡ get_elem? s k
get_elem?-take zero k s h = ground (arith, h)
get_elem?-take (suc n) k [] h = refl
get_elem?-take (suc n) zero (c ∷ s) h = refl
get_elem?-take (suc n) (suc k) (c ∷ s) h = get_elem?-take n k s (omega (arith, h))

module _ (off : ℕ) (buf s : Bytes) where
  -- A byte before the write is as before, if the file had it.
  pub write_at-before :
      (k : ℕ) → k < off → k < length s → get_elem? (write_at off buf s) k ≡ get_elem? s k
  unfolding write_at
  write_at-before k h l =
      get_elem?-append_left (pad off s) _ k (omega (arith, length-pad off s))
      ∙ get_elem?-pad off k s h l

  -- A byte of the write.
  pub write_at-within :
      (k : ℕ)
      → off ≤ k
      → k < off + length buf
      → get_elem? (write_at off buf s) k ≡ get_elem? buf (k - off)
  unfolding write_at
  write_at-within k h l =
      get_elem?-append_right (pad off s) _ k (omega (arith, length-pad off s))
      ∙ ap (get_elem? (buf ++ drop (off + length buf) s))
          (let e : k - length (pad off s) ≡ k - off = omega (arith, length-pad off s) in e)
      ∙ get_elem?-append_left buf _ (k - off) (omega arith)

  -- A byte behind the write is as before.
  pub write_at-behind :
      (k : ℕ) → off + length buf ≤ k → get_elem? (write_at off buf s) k ≡ get_elem? s k
  unfolding write_at
  write_at-behind k h =
      get_elem?-append_right (pad off s) _ k (omega (arith, length-pad off s))
      ∙ get_elem?-append_right buf _ (k - length (pad off s)) (omega (arith, length-pad off s))
      ∙ get_elem?-drop (off + length buf) (k - length (pad off s) - length buf) s
      ∙ ap (get_elem? s) (
          let e : off + length buf + (k - length (pad off s) - length buf) ≡ k =
            omega (arith, length-pad off s) in
          e)

  pub length-write_at :
      length (write_at off buf s)
      ≡ (if leb (length s) (off + length buf) then off + length buf else length s)
  unfolding write_at
  length-write_at = ground (
    arith,
    length-append (pad off s) (buf ++ drop (off + length buf) s),
    length-append buf (drop (off + length buf) s),
    length-pad off s,
    length-drop (off + length buf) s,
  )
