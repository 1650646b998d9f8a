-- ===== src/Client/Downloader/Reply/Streams.antt =====
-- How the stringstream of src/client/downloader.cpp takes words and numbers off a text, and where a
-- line is found in it.
use peer_to_peer_file_sharin.Prelude.{
  ℕ, ◌+◌, ◌-◌, ◌*◌, ◌<◌, ◌≡◌, refl, ap, ◌∙◌, Bool, true, false, not, ◌||◌, List, [], ◌∷◌, ◌++◌,
  append_assoc, some, nat_eq, lt→ltb, length, drop-append, All, pos, arith,
}
use peer_to_peer_file_sharin.Bytes.{Bytes, is_space, is_empty, has_byte, starts_with}
use peer_to_peer_file_sharin.Bytes.Decimal.{to_string}
use peer_to_peer_file_sharin.Common.Message.{IsWord, is_digit, ll_limit, read_digits}
use peer_to_peer_file_sharin.Common.Message.RoundTrip.{
  IsNumeral, to_string-IsNumeral, to_string-IsWord, read_digits-to_string,
}
use peer_to_peer_file_sharin.Tracker.State.{spaced}
use peer_to_peer_file_sharin.Client.Downloader.Reply.{
  skip_space, span_word, found_word, get_word, scan_digits, to_positive, scan_signed, get_number,
  get_hashes, find_after,
}

skip_space-space : (c : ℕ) (s : Bytes) → is_space c ≡ true → skip_space (c ∷ s) ≡ skip_space s
unfolding skip_space
skip_space-space c s e = rw e refl

skip_space-solid : (c : ℕ) (s : Bytes) → is_space c ≡ false → skip_space (c ∷ s) ≡ c ∷ s
unfolding skip_space
skip_space-solid c s e = rw e refl

-- White space in front of a word is skipped.
pub get_word-space :
    (c : ℕ) (s : Bytes) → is_space c ≡ true → get_word (some (c ∷ s)) ≡ get_word (some s)
unfolding get_word
get_word-space c s e = ap found_word (skip_space-space c s e)

span_word-solid :
    (w : Bytes) (c : ℕ) (s : Bytes)
    → All (λ d. is_space d ≡ false) w
    → is_space c ≡ true
    → span_word (w ++ c ∷ s) ≡ (w, c ∷ s)
unfolding span_word
span_word-solid [] c s h e = rw e refl
span_word-solid (d ∷ w) c s h e = rw (h.0, span_word-solid w c s h.1 e) refl

-- A word before white space is taken off.
pub get_word-word :
    (w : Bytes) (c : ℕ) (s : Bytes)
    → IsWord w
    → is_space c ≡ true
    → get_word (some (w ++ c ∷ s)) ≡ some (w, c ∷ s)
unfolding get_word found_word
get_word-word [] c s h e = cc (h.nonempty)
get_word-word (d ∷ w) c s h e =
    rw (skip_space-solid d (w ++ c ∷ s) h.solid.0, found_word)
      (ap some (span_word-solid (d ∷ w) c s h.solid e))

-- The numbers that `strtoll` reads from digits alone are those that the stream takes off.
scan_digits-read_digits :
    (n m : ℕ) (any : Bool) (ds : Bytes) (c : ℕ) (s : Bytes)
    → All (λ d. is_digit d ≡ true) ds
    → is_digit c ≡ false
    → read_digits n ds ≡ some m
    → scan_digits n any (ds ++ c ∷ s) ≡ (m, any || not (is_empty ds), c ∷ s)
unfolding scan_digits read_digits
scan_digits-read_digits n m any [] c s h e r = rw e (ground (arith, r))
scan_digits-read_digits n m any (d ∷ ds) c s h e r = rw h.0 (
    scan_digits-read_digits (n * 10 + (d - 48)) m true ds c s h.1 e (ground (arith, r, h.0))
    ∙ ground arith)

scan_signed-digits :
    (n : ℕ) (ds : Bytes) (c : ℕ) (s : Bytes)
    → IsNumeral ds
    → read_digits 0 ds ≡ some n
    → is_digit c ≡ false
    → scan_signed (ds ++ c ∷ s) ≡ to_positive (n, true, c ∷ s)
unfolding scan_signed is_digit
scan_signed-digits n [] c s h r e = cc (h.nonempty)
scan_signed-digits n (d ∷ ds) c s h r e =
    let scanned = scan_digits-read_digits 0 n false (d ∷ ds) c s h.numeric e r in
    rw (no_minus, no_plus, scanned) refl
  where
    no_minus : nat_eq d b'-' ≡ false
    no_minus = ground (arith, h.numeric.0)

    no_plus : nat_eq d b'+' ≡ false
    no_plus = ground (arith, h.numeric.0)

space-not_digit : (c : ℕ) → is_space c ≡ true → is_digit c ≡ false
unfolding is_space is_digit
space-not_digit c e = ground (arith, e)

skip_space-numeral : (ds s : Bytes) → IsWord ds → skip_space (ds ++ s) ≡ ds ++ s
skip_space-numeral [] s h = cc (h.nonempty)
skip_space-numeral (d ∷ ds) s h = skip_space-solid d (ds ++ s) h.solid.0

-- A number that was written with a space in front of it and white space behind it is taken off.
pub get_number-to_string :
    (n : ℕ) (c : ℕ) (s : Bytes)
    → n < ll_limit
    → is_space c ≡ true
    → get_number (b' ' ∷ (to_string n ++ c ∷ s)) ≡ (pos n, some (c ∷ s))
unfolding get_number
get_number-to_string n c s l e =
    rw
      (
        skip_space-space b' ' (to_string n ++ c ∷ s) (unfold is_space in refl),
        skip_space-numeral (to_string n) (c ∷ s) (to_string-IsWord n),
        scan_signed-digits n (to_string n) c s (to_string-IsNumeral n) (read_digits-to_string n)
            (space-not_digit c e),
      )
      (in_range n (c ∷ s) l)
  where
    in_range : (k : ℕ) (t : Bytes) → k < ll_limit → to_positive (k, true, t) ≡ (pos k, some t)
    in_range k t h = unfold to_positive in rw (lt→ltb k ll_limit h) refl

-- A text that begins with white space.
abbrev pub SpacedText : Bytes → Type 0
SpacedText [] = ⊥
SpacedText (c ∷ s) = is_space c ≡ true

pub get_word-before :
    (w t : Bytes) → IsWord w → SpacedText t → get_word (some (w ++ t)) ≡ some (w, t)
get_word-before w [] h e = absurd e
get_word-before w (c ∷ s) h e = get_word-word w c s h e

-- What does not hold the first byte of a line is passed over in the search for it.
pub find_after-skip :
    (p : ℕ) (ps s t : Bytes)
    → has_byte p s ≡ false
    → find_after (p ∷ ps) (s ++ t) ≡ find_after (p ∷ ps) t
unfolding find_after has_byte starts_with
find_after-skip p ps [] t h = refl
find_after-skip p ps (d ∷ s) t h = ground (arith, h, find_after-skip p ps s t)

starts_with-append : (p t : Bytes) → starts_with p (p ++ t) ≡ true
unfolding starts_with
starts_with-append [] t = refl
starts_with-append (c ∷ p) t = ground (arith, starts_with-append p t)

pub find_after-here : (p : ℕ) (ps t : Bytes) → find_after (p ∷ ps) ((p ∷ ps) ++ t) ≡ some t
unfolding find_after
find_after-here p ps t = rw (starts_with-append (p ∷ ps) t) (ap some (drop-append (p ∷ ps) t))

pub SpacedText-append : (ws : List Bytes) (t : Bytes) → SpacedText t → SpacedText (spaced ws ++ t)
unfolding spaced is_space
SpacedText-append [] t e = e
SpacedText-append (v ∷ ws) t e = refl

-- The hashes behind the header, however many there are.
pub get_hashes-spaced :
    (hs : List Bytes) (t : Bytes)
    → All IsWord hs
    → SpacedText t
    → get_hashes (length hs) (some (spaced hs ++ t)) ≡ hs
unfolding get_hashes
get_hashes-spaced [] t h e = refl
get_hashes-spaced (w ∷ hs) t h e =
    rw (first, get_hashes) (ap (◌∷◌ w) (get_hashes-spaced hs t h.1 e))
  where
    first : get_word (some (spaced (w ∷ hs) ++ t)) ≡ some (w, spaced hs ++ t)
    first =
        unfold spaced is_space in
        get_word-space b' ' ((w ++ spaced hs) ++ t) refl
        ∙ ap (λ s. get_word (some s)) (append_assoc w (spaced hs) t)
        ∙ get_word-before w (spaced hs ++ t) h.0 (SpacedText-append hs t e)
