-- ===== src/Client/WebUi/Request.antt =====
-- The body that the page of src/client/web_assets.h posts for a command, and what `parse_args` of
-- src/client/web_ui.cpp makes of it.
use peer_to_peer_file_sharin.Prelude.{
  ℕ, zero, suc, ◌+◌, ◌≤◌, ◌<◌, ◌≡◌, ap, ◌∙◌, List, [], ◌∷◌, ◌++◌, append_assoc, some, length, All,
  arith,
}
use peer_to_peer_file_sharin.Bytes.{Bytes, lit, starts_with}
use peer_to_peer_file_sharin.Client.Downloader.Reply.{find_after}
use peer_to_peer_file_sharin.Client.WebUi.{quoted, quoted_all, more_items, items}
use peer_to_peer_file_sharin.Client.WebUi.Arguments.{
  behind_byte, scan_args, scan_list, scan_open, scan_key, parse_args,
}
use peer_to_peer_file_sharin.Client.WebUi.RoundTrip.{
  IsPlain, tail_text, items-bracket, behind_byte-first, length-tail_text, behind_byte-quoted,
  more_items-cons, scan_args-string, length-quoted, scan_args-end, scan_args-more,
}

abbrev closing : Bytes
closing = b'}' ∷ []

-- JSON.stringify({args: words})
abbrev pub args_body : List Bytes → Bytes
args_body ws = lit "{\"args\":[" ++ (items (quoted_all ws) ++ b']' ∷ closing)

items-cons :
    (w : Bytes) (ws : List Bytes)
    → items (quoted_all (w ∷ ws)) ++ b']' ∷ closing ≡ quoted w ++ tail_text ws closing
unfolding items quoted_all
items-cons w ws = append_assoc (quoted w) (more_items (quoted_all ws)) (b']' ∷ closing)

length-le-tail : (ws : List Bytes) → length ws ≤ length (tail_text ws closing)
length-le-tail [] = omega arith
length-le-tail (w ∷ ws) = omega (
  arith,
  ap length (more_items-cons w ws closing),
  length-quoted w (tail_text ws closing),
  length-le-tail ws,
)

scan_args-first :
    (fuel : ℕ) (w : Bytes) (ws : List Bytes)
    → length ws < fuel
    → All IsPlain (w ∷ ws)
    → scan_args fuel (length closing + 1) (quoted w ++ tail_text ws closing) ≡ w ∷ ws
scan_args-first zero w ws l h = ground (arith, l)
scan_args-first (suc fuel) w ws l h =
    scan_args-string fuel (length closing + 1) (quoted w ++ tail_text ws closing) w
      (tail_text ws closing) (behind_byte-quoted w (tail_text ws closing)) h.0
      (length-tail_text ws closing) (length-quoted w (tail_text ws closing))
    ∙ ap (◌∷◌ w) (scan_args-more fuel ws closing (omega (arith, l)) h.1)

scan_args-items :
    (ws : List Bytes)
    → All IsPlain ws
    → scan_args
        (length (items (quoted_all ws) ++ b']' ∷ closing))
        (length closing + 1)
        (items (quoted_all ws) ++ b']' ∷ closing)
      ≡ ws
scan_args-items [] h = unfold items quoted_all in scan_args-end 2 closing
scan_args-items (w ∷ ws) h =
    ap (λ t. scan_args (length t) (length closing + 1) t) (items-cons w ws)
    ∙ scan_args-first (length (quoted w ++ tail_text ws closing)) w ws
        (omega (arith, length-quoted w (tail_text ws closing), length-le-tail ws)) h

scan_open-items :
    (ws : List Bytes)
    → All IsPlain ws
    → scan_open (some (items (quoted_all ws) ++ b']' ∷ closing)) ≡ ws
unfolding scan_open
scan_open-items ws h =
    rw (behind_byte-first b']' (items (quoted_all ws)) closing (items-bracket ws h), scan_list)
      (scan_args-items ws h)

-- Arguments without a closing bracket and without control characters other than tab, line feed and
-- return are read as they were sent.
pub parse_args-args_body : (ws : List Bytes) → All IsPlain ws → parse_args (args_body ws) ≡ ws
unfolding parse_args scan_key find_after starts_with lit behind_byte
parse_args-args_body ws h = scan_open-items ws h
