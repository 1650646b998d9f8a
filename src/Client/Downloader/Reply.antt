-- ===== src/Client/Downloader/Reply.antt =====
-- How `run` of src/client/downloader.cpp reads the tracker's answer to download_file: the part
-- that extracts words and numbers from a stringstream, and the block of peers.
pub mod Streams
pub mod Rounds
pub mod Seeders
pub mod RoundTrip
use peer_to_peer_file_sharin.Prelude.{
  ℕ, zero, suc, ◌+◌, ◌-◌, ◌*◌, Bool, true, false, not, List, [], ◌∷◌, ◌++◌, Option, none, some, ltb,
  leb, nat_eq, if◌then◌else◌, length, drop, ℤ, pos, negsuc, negate,
}
use peer_to_peer_file_sharin.Bytes.{Bytes, lit, ◌==◌, is_space, starts_with}
use peer_to_peer_file_sharin.Common.Message.{split_args, is_digit, ll_limit}

-- A stringstream: what is left to read, or `none` once it has failed.
abbrev pub Stream : Type 0
Stream = Option Bytes

unfoldable pub skip_space : Bytes → Bytes
unfolding is_space
skip_space [] = []
skip_space (c ∷ s) = let rest = skip_space s in if is_space c then rest else c ∷ s

-- The bytes up to white space, and what is left.
unfoldable pub span_word : Bytes → Bytes × Bytes
unfolding is_space
span_word [] = ([], [])
span_word (c ∷ s) = let r = span_word s in if is_space c then ([], c ∷ s) else (c ∷ r.0, r.1)

unfoldable pub found_word : Bytes → Option (Bytes × Bytes)
unfolding span_word
found_word [] = none
found_word (c ∷ s) = some (span_word (c ∷ s))

-- s >> word
unfoldable pub get_word : Stream → Option (Bytes × Bytes)
unfolding skip_space found_word
get_word none = none
get_word (some s) = found_word (skip_space s)

-- The number that the digits make, whether there were any, and what is left.
unfoldable pub scan_digits : ℕ → Bool → Bytes → ℕ × Bool × Bytes
unfolding is_digit
scan_digits n any [] = (n, any, [])
scan_digits n any (c ∷ s) =
    let rest = scan_digits (n * 10 + (c - 48)) true s in
    if is_digit c then rest else (n, any, c ∷ s)

-- Out of range, the variable gets the nearest number and the stream fails; with no digits, zero.
unfoldable pub to_positive : ℕ × Bool × Bytes → ℤ × Stream
to_positive (n, any, rest) =
    if not any
    then (pos 0, none)
    else if ltb n ll_limit
    then (pos n, some rest)
    else (pos (ll_limit - 1), none)

unfoldable pub to_negative : ℕ × Bool × Bytes → ℤ × Stream
unfolding negate
to_negative (n, any, rest) =
    if not any
    then (pos 0, none)
    else if leb n ll_limit
    then (negate n, some rest)
    else (negate ll_limit, none)

unfoldable pub scan_signed : Bytes → ℤ × Stream
unfolding scan_digits to_positive to_negative
scan_signed [] = (pos 0, none)
scan_signed (c ∷ s) =
    if nat_eq c b'-'
    then to_negative (scan_digits 0 false s)
    else if nat_eq c b'+'
    then to_positive (scan_digits 0 false s)
    else to_positive (scan_digits 0 false (c ∷ s))

-- s >> n, for a long long, on a stream that has not failed
unfoldable pub get_number : Bytes → ℤ × Stream
unfolding skip_space scan_signed
get_number s = scan_signed (skip_space s)

pub record Header : Type 0 where
  pub size : ℤ
  pub fullhash : Bytes
  pub num_pieces : ℤ

-- s >> fullhash; a failed extraction leaves the variable as it was.
unfoldable pub store_hash : Option (Bytes × Bytes) → Header → Header × Stream
store_hash none h = (h, none)
store_hash (some (w, rest)) h = (record h { fullhash = w }, some rest)

-- What one word of the loop makes the loop read.
unfoldable pub read_field : Bytes → Bytes → Header → Header × Stream
unfolding store_hash lit
read_field word s h =
    if word == lit "SIZE"
    then (let r = get_number s in (record h { size = r.0 }, r.1))
    else if word == lit "HASH"
    then store_hash (get_word (some s)) h
    else if word == lit "PIECES"
    then (let r = get_number s in (record h { num_pieces = r.0 }, r.1))
    else (h, some s)

-- The loop over words; each round reads one at least, so the length of the text is fuel enough.
unfoldable pub read_header : ℕ → Header → Stream → Header × Stream
unfolding read_field lit
read_header zero h s = (h, s)
read_header (suc fuel) h s = elim (get_word s) [
  | none ↦ (h, none)
  | some (word, rest) ↦ elim (word == lit "PIECE_HASHES") [
    | true ↦ (h, some rest)
    | false ↦ let r = read_field word rest h in read_header fuel r.0 r.1
  ]
]

-- s >> piece_hashes[i] for each; once the stream has failed, the rest stay empty.
unfoldable pub get_hashes : ℕ → Stream → List Bytes
get_hashes zero s = []
get_hashes (suc n) s = elim (get_word s) [
  | none ↦ [] ∷ get_hashes n none
  | some (w, rest) ↦ w ∷ get_hashes n (some rest)
]

-- What stands behind the first occurrence of a text.
unfoldable pub find_after : Bytes → Bytes → Option Bytes
unfolding starts_with
find_after pat [] = if starts_with pat [] then some [] else none
find_after pat (c ∷ s) =
    let rest = find_after pat s in
    if starts_with pat (c ∷ s) then some (drop (length pat) (c ∷ s)) else rest

pub record Seeder : Type 0 where
  pub name : Bytes
  pub ip : Bytes
  pub port : Bytes

-- while (sp >> pname >> pip >> pport)
unfoldable pub triples : List Bytes → List Seeder
triples (name ∷ ip ∷ port ∷ ws) = record { name = name; ip = ip; port = port } ∷ triples ws
triples _ = []

unfoldable pub read_peers : Option Bytes → List Seeder
unfolding triples split_args
read_peers none = []
read_peers (some block) = triples (split_args block)

pub record Reply : Type 0 where
  pub size : ℤ
  pub fullhash : Bytes
  pub num_pieces : ℕ
  pub piece_hashes : List Bytes
  pub peerlist : List Seeder

-- No description of a file; a negative number of pieces, on which `resize` throws and the process
-- ends; or what was read.
pub data Parsed : Type 0 where
  no_file crash : Parsed
  parsed : Reply → Parsed

unfoldable pub resized : Header → ℤ → Stream → List Seeder → Parsed
unfolding get_hashes
resized h (negsuc n) s peers = crash
resized h (pos n) s peers = parsed (record {
  size = h.size;
  fullhash = h.fullhash;
  num_pieces = n;
  piece_hashes = get_hashes n s;
  peerlist = peers;
})

unfoldable pub parse_reply : Bytes → Parsed
unfolding read_header get_word get_number resized find_after read_peers lit starts_with
parse_reply r =
    if not (starts_with (lit "FILE ") r)
    then no_file
    else (let h =
          read_header (length r + 1) (record { size = pos 0; fullhash = []; num_pieces = pos 0 })
            (some r) in
        resized h.0 h.0.num_pieces h.1 (read_peers (find_after (lit "\nPEERS\n") r)))
