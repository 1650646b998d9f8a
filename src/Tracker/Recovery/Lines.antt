-- ===== src/Tracker/Recovery/Lines.antt =====
-- The lines and words of what `serialize_locked` wrote, and the lists that `take_list` reads
-- (src/tracker/persistence.cpp).
use peer_to_peer_file_sharin.Prelude.{
  ◌<◌, ◌≡◌, refl, ap, sym, ◌∙◌, false, List, [], ◌∷◌, ◌++◌, append-nil, append_assoc, some, nat_eq,
  arith, All, length, length-append, take-append, drop-append,
}
use peer_to_peer_file_sharin.Bytes.Lines.{lines, lines-append, no_break, All-append}
use peer_to_peer_file_sharin.Bytes.{Bytes}
use peer_to_peer_file_sharin.Common.Message.{
  split_args, IsWord, split_args-cons, split_args-single, ll_limit,
}
use peer_to_peer_file_sharin.Common.Message.RoundTrip.{parse_ll-to_string, to_string-IsWord}
use peer_to_peer_file_sharin.Tracker.State.{spaced}
use peer_to_peer_file_sharin.Tracker.Persistence.{record_line, counted, take_list, take_counted}

abbrev pub Words : List Bytes → Type 0
Words = All IsWord

no_break-spaced : (ws : List Bytes) → Words ws → All (λ c. nat_eq c b'\n' ≡ false) (spaced ws)
unfolding spaced
no_break-spaced [] h = tt
no_break-spaced (w ∷ ws) h =
    (refl, All-append _ w (spaced ws) (no_break w h.0.solid) (no_break-spaced ws h.1))

-- One record, and the text behind it.
pub lines-record_line :
    (verb : Bytes) (ws : List Bytes) (s : Bytes)
    → IsWord verb
    → Words ws
    → lines (record_line verb ws ++ s) ≡ (verb ++ spaced ws) ∷ lines s
unfolding record_line
lines-record_line verb ws s v h =
    ap lines (
      append_assoc verb (spaced ws ++ b'\n' ∷ []) s
      ∙ ap (◌++◌ verb) (append_assoc (spaced ws) (b'\n' ∷ []) s)
      ∙ sym (append_assoc verb (spaced ws) (b'\n' ∷ s)))
    ∙ lines-append (verb ++ spaced ws) s
        (All-append _ verb (spaced ws) (no_break verb v.solid) (no_break-spaced ws h))

-- The words of a record's line.
pub split_args-spaced :
    (verb : Bytes) (ws : List Bytes)
    → IsWord verb
    → Words ws
    → split_args (verb ++ spaced ws) ≡ verb ∷ ws
unfolding spaced
split_args-spaced verb [] v h = rw append-nil (split_args-single verb v)
split_args-spaced verb (w ∷ ws) v h =
    split_args-cons verb (w ++ spaced ws) v ∙ ap (◌∷◌ verb) (split_args-spaced w ws h.0 h.1)

-- `take_list` reads the list that was counted, and leaves what stands behind it.
pub take_list-counted :
    (xs ys : List Bytes) → length xs < ll_limit → take_list (counted xs ++ ys) ≡ some (xs, ys)
unfolding take_list counted
take_list-counted xs ys h =
    rw (parse_ll-to_string (length xs) h, take_counted)
      (ground (arith, take-append xs ys, drop-append xs ys, length-append xs ys))

-- A counted list of words is words.
pub counted-Words : (xs : List Bytes) → Words xs → Words (counted xs)
unfolding counted
counted-Words xs h = (to_string-IsWord (length xs), h)

pub Words-append : (xs ys : List Bytes) → Words xs → Words ys → Words (xs ++ ys)
Words-append xs ys = All-append IsWord xs ys

pub take_list-counted_end :
    (xs : List Bytes) → length xs < ll_limit → take_list (counted xs) ≡ some (xs, [])
take_list-counted_end xs h =
    ap take_list (sym (append-nil (counted xs))) ∙ take_list-counted xs [] h
