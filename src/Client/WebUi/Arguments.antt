-- ===== src/Client/WebUi/Arguments.antt =====
-- `parse_args` of src/client/web_ui.cpp: the strings of {"args":["a","b"]}. A position in the body
-- is kept as the text from there on, and the place of the closing bracket as the length of the text
-- from there on.
use peer_to_peer_file_sharin.Prelude.{
  ℕ, zero, suc, ◌+◌, List, [], ◌∷◌, Option, none, some, nat_eq, leb, if◌then◌else◌, length,
}
use peer_to_peer_file_sharin.Bytes.{Bytes, lit}
use peer_to_peer_file_sharin.Client.Downloader.Reply.{find_after}

-- The text behind the first `c`.
unfoldable pub behind_byte : ℕ → Bytes → Option Bytes
behind_byte c [] = none
behind_byte c (d ∷ s) = let rest = behind_byte c s in if nat_eq d c then some s else rest

-- The escapes that are understood; any other stands for itself.
unfoldable pub unescape : ℕ → ℕ
unescape c =
    if nat_eq c b'n' then 10 else if nat_eq c b't' then 9 else if nat_eq c b'r' then 13 else c

abbrev pub prefixed : ℕ → Bytes × Bytes → Bytes × Bytes
prefixed c (val, rest) = (c ∷ val, rest)

-- A string up to its closing quote, or to the end of the body, and what is left.
unfoldable pub read_string : Bytes → Bytes × Bytes
unfolding unescape
read_string [] = ([], [])
read_string (c ∷ []) = if nat_eq c b'"' then ([], []) else (c ∷ [], [])
read_string (c ∷ d ∷ s) =
    let plain = prefixed c (read_string (d ∷ s)) in
    let escaped = prefixed (unescape d) (read_string s) in
    if nat_eq c b'"' then ([], d ∷ s) else if nat_eq c b'\\' then escaped else plain

-- Each round reads one byte at least, so the length of the text is fuel enough.
unfoldable pub scan_args : ℕ → ℕ → Bytes → List Bytes
unfolding behind_byte read_string
scan_args zero stop text = []
scan_args (suc fuel) stop text =
    if leb (length text) stop then [] else elim (behind_byte b'"' text) [
      | none ↦ []
      | some s ↦
          let r = read_string s in
          let more = r.0 ∷ scan_args fuel stop r.1 in if leb (length s + 1) stop then [] else more
    ]

-- Where the list closes.
unfoldable pub scan_list : Bytes → Option Bytes → List Bytes
unfolding scan_args
scan_list text none = []
scan_list text (some rest) = scan_args (length text) (length rest + 1) text

unfoldable pub scan_open : Option Bytes → List Bytes
unfolding scan_list behind_byte
scan_open none = []
scan_open (some text) = scan_list text (behind_byte b']' text)

unfoldable pub scan_key : Option Bytes → List Bytes
unfolding scan_open behind_byte
scan_key none = []
scan_key (some text) = scan_open (behind_byte b'[' text)

unfoldable pub parse_args : Bytes → List Bytes
unfolding scan_key find_after lit
parse_args body = scan_key (find_after (lit "\"args\"") body)
