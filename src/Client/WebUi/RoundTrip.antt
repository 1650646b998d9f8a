-- ===== src/Client/WebUi/RoundTrip.antt =====
-- The arguments that the page of src/client/web_assets.h sends are the arguments that `parse_args`
-- of src/client/web_ui.cpp reads.
use peer_to_peer_file_sharin.Prelude.{
  ℕ, zero, suc, ◌+◌, ◌≤◌, ◌<◌, ◌≡◌, refl, ap, ◌∙◌, Bool, true, false, not, ◌&&◌, ◌||◌, List, [],
  ◌∷◌, ◌++◌, append_assoc, some, nat_eq, ltb, leb, if_elim, length, length-append, All, arith,
}
use peer_to_peer_file_sharin.Bytes.{Bytes, has_byte, has_byte-append}
use peer_to_peer_file_sharin.Client.Http.Json.{escape_byte, json_escape}
use peer_to_peer_file_sharin.Client.WebUi.{quoted, quoted_all, more_items, items}
use peer_to_peer_file_sharin.Client.WebUi.Arguments.{
  behind_byte, unescape, prefixed, read_string, scan_args,
}

-- A byte that is no control character but a tab, a line feed or a return, and no closing bracket.
abbrev pub is_plain : ℕ → Bool
is_plain c = (not (ltb c 32) || nat_eq c 9 || nat_eq c 10 || nat_eq c 13) && not (nat_eq c b']')

abbrev pub IsPlain : Bytes → Type 0
IsPlain = All (λ c. is_plain c ≡ true)

read_string-plain :
    (c : ℕ) (s : Bytes)
    → nat_eq c b'"' ≡ false
    → nat_eq c b'\\' ≡ false
    → read_string (c ∷ s) ≡ prefixed c (read_string s)
unfolding read_string
read_string-plain c [] q b = rw q refl
read_string-plain c (d ∷ s) q b = rw (q, b) refl

read_string-quote : (s : Bytes) → read_string (b'"' ∷ s) ≡ ([], s)
unfolding read_string
read_string-quote [] = refl
read_string-quote (d ∷ s) = refl

read_string-backslash :
    (d : ℕ) (s : Bytes) → read_string (b'\\' ∷ d ∷ s) ≡ prefixed (unescape d) (read_string s)
unfolding read_string
read_string-backslash d s = refl

-- An escaped byte is read back.
read_string-escape_byte :
    (c : ℕ) (s : Bytes)
    → is_plain c ≡ true
    → read_string (escape_byte c ++ s) ≡ prefixed c (read_string s)
unfolding escape_byte unescape
read_string-escape_byte c s h =
    if_elim Reads (nat_eq c b'"') _ _
      (λ e. read_string-backslash b'"' s ∙ named (ground (arith, e)))
      (λ q.
        if_elim Reads (nat_eq c b'\\') _ _
          (λ e. read_string-backslash b'\\' s ∙ named (ground (arith, e)))
          (λ b.
            if_elim Reads (nat_eq c 10) _ _
              (λ e. read_string-backslash b'n' s ∙ named (ground (arith, e)))
              (λ n.
                if_elim Reads (nat_eq c 13) _ _
                  (λ e. read_string-backslash b'r' s ∙ named (ground (arith, e)))
                  (λ r.
                    if_elim Reads (nat_eq c 9) _ _
                      (λ e. read_string-backslash b't' s ∙ named (ground (arith, e)))
                      (λ t.
                        if_elim Reads (ltb c 32) _ _ (λ l. absurd (ground (arith, h, l, n, r, t)))
                          (λ l. read_string-plain c s q b))))))
  where
    Reads : Bytes → Type 0
    Reads w = read_string (w ++ s) ≡ prefixed c (read_string s)

    named : {d : ℕ} → d ≡ c → prefixed d (read_string s) ≡ prefixed c (read_string s)
    named e = ap (λ k. prefixed k (read_string s)) e

read_string-json_escape :
    (s rest : Bytes) → IsPlain s → read_string (json_escape s ++ b'"' ∷ rest) ≡ (s, rest)
unfolding json_escape
read_string-json_escape [] rest h = read_string-quote rest
read_string-json_escape (c ∷ s) rest h =
    ap read_string (append_assoc (escape_byte c) (json_escape s) (b'"' ∷ rest))
    ∙ read_string-escape_byte c (json_escape s ++ b'"' ∷ rest) h.0
    ∙ ap (prefixed c) (read_string-json_escape s rest h.1)

-- No closing bracket stands in an escaped text, in a quoted one, or between quoted ones.
escape_byte-bracket : (c : ℕ) → is_plain c ≡ true → has_byte b']' (escape_byte c) ≡ false
unfolding escape_byte has_byte
escape_byte-bracket c h = ground (arith, h)

json_escape-bracket : (s : Bytes) → IsPlain s → has_byte b']' (json_escape s) ≡ false
unfolding json_escape has_byte
json_escape-bracket [] h = refl
json_escape-bracket (c ∷ s) h =
    rw (has_byte-append b']' (escape_byte c) (json_escape s), escape_byte-bracket c h.0)
      (json_escape-bracket s h.1)

quoted-bracket : (s : Bytes) → IsPlain s → has_byte b']' (quoted s) ≡ false
unfolding quoted has_byte
quoted-bracket s h =
    has_byte-append b']' (json_escape s) (b'"' ∷ []) ∙ rw (json_escape-bracket s h) refl

more_items-bracket :
    (ws : List Bytes) → All IsPlain ws → has_byte b']' (more_items (quoted_all ws)) ≡ false
unfolding more_items quoted_all has_byte
more_items-bracket [] h = refl
more_items-bracket (w ∷ ws) h =
    has_byte-append b']' (quoted w) (more_items (quoted_all ws))
    ∙ rw (quoted-bracket w h.0) (more_items-bracket ws h.1)

pub items-bracket :
    (ws : List Bytes) → All IsPlain ws → has_byte b']' (items (quoted_all ws)) ≡ false
unfolding items quoted_all has_byte
items-bracket [] h = refl
items-bracket (w ∷ ws) h =
    has_byte-append b']' (quoted w) (more_items (quoted_all ws))
    ∙ rw (quoted-bracket w h.0) (more_items-bracket ws h.1)

pub behind_byte-first :
    (c : ℕ) (s t : Bytes) → has_byte c s ≡ false → behind_byte c (s ++ c ∷ t) ≡ some t
unfolding behind_byte has_byte
behind_byte-first c [] t h = ground arith
behind_byte-first c (d ∷ s) t h = ground (arith, h, behind_byte-first c s t)

-- What stands in front of the closing bracket after the first string.
abbrev pub tail_text : List Bytes → Bytes → Bytes
tail_text ws tail = more_items (quoted_all ws) ++ b']' ∷ tail

pub length-tail_text :
    (ws : List Bytes) (tail : Bytes) → length tail + 1 ≤ length (tail_text ws tail)
length-tail_text ws tail = omega (arith, length-append (more_items (quoted_all ws)) (b']' ∷ tail))

pub quoted-append : (w s : Bytes) → quoted w ++ s ≡ b'"' ∷ (json_escape w ++ b'"' ∷ s)
unfolding quoted
quoted-append w s = ap (◌∷◌ b'"') (append_assoc (json_escape w) (b'"' ∷ []) s)

pub behind_byte-quoted :
    (w s : Bytes) → behind_byte b'"' (quoted w ++ s) ≡ some (json_escape w ++ b'"' ∷ s)
unfolding behind_byte
behind_byte-quoted w s = ap (behind_byte b'"') (quoted-append w s)

pub more_items-cons :
    (w : Bytes) (ws : List Bytes) (tail : Bytes)
    → tail_text (w ∷ ws) tail ≡ b',' ∷ (quoted w ++ tail_text ws tail)
unfolding more_items quoted_all
more_items-cons w ws tail =
    ap (◌∷◌ b',') (append_assoc (quoted w) (more_items (quoted_all ws)) (b']' ∷ tail))

-- One round, at a text whose first quote begins a string.
pub scan_args-string :
    (fuel stop : ℕ) (text w s : Bytes)
    → behind_byte b'"' text ≡ some (json_escape w ++ b'"' ∷ s)
    → IsPlain w
    → stop ≤ length s
    → length s < length text
    → scan_args (suc fuel) stop text ≡ w ∷ scan_args fuel stop s
unfolding scan_args
scan_args-string fuel stop text w s e h a b =
    rw (e, read_string-json_escape w s h, first, second) refl
  where
    first : leb (length text) stop ≡ false
    first = ground (arith, a, b)

    second : leb (length (json_escape w ++ b'"' ∷ s) + 1) stop ≡ false
    second = ground (arith, a, length-append (json_escape w) (b'"' ∷ s))

pub length-quoted : (w s : Bytes) → length s < length (quoted w ++ s)
length-quoted w s =
    omega (arith, ap length (quoted-append w s), length-append (json_escape w) (b'"' ∷ s))

pub scan_args-end : (fuel : ℕ) (tail : Bytes) → scan_args fuel (length tail + 1) (b']' ∷ tail) ≡ []
unfolding scan_args
scan_args-end zero tail = refl
scan_args-end (suc fuel) tail = rw at_end refl
  where
    at_end : leb (suc (length tail)) (length tail + 1) ≡ true
    at_end = ground arith

behind_byte-comma :
    (w s : Bytes) → behind_byte b'"' (b',' ∷ (quoted w ++ s)) ≡ some (json_escape w ++ b'"' ∷ s)
unfolding behind_byte
behind_byte-comma w s = behind_byte-quoted w s

-- The strings behind the first.
pub scan_args-more :
    (fuel : ℕ) (ws : List Bytes) (tail : Bytes)
    → length ws ≤ fuel
    → All IsPlain ws
    → scan_args fuel (length tail + 1) (tail_text ws tail) ≡ ws
scan_args-more fuel [] tail l h = unfold more_items quoted_all in scan_args-end fuel tail
scan_args-more zero (w ∷ ws) tail l h = ground (arith, l)
scan_args-more (suc fuel) (w ∷ ws) tail l h =
    ap (scan_args (suc fuel) (length tail + 1)) (more_items-cons w ws tail)
    ∙ scan_args-string fuel (length tail + 1) (b',' ∷ (quoted w ++ tail_text ws tail)) w
        (tail_text ws tail) (behind_byte-comma w (tail_text ws tail)) h.0 (length-tail_text ws tail)
        (omega (arith, length-quoted w (tail_text ws tail)))
    ∙ ap (◌∷◌ w) (scan_args-more fuel ws tail (omega (arith, l)) h.1)
