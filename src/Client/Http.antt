-- ===== src/Client/Http.antt =====
-- src/client/http_server.cpp: the server behind the local web interface, from the bytes of a
-- request to the bytes of the response. What arrives is the list of chunks that reads return, of
-- which an empty one is the end or an error; a read of a few bytes leaves the rest of its chunk.
pub mod Json
use peer_to_peer_file_sharin.Prelude.{
  ℕ, zero, suc, ◌+◌, ◌-◌, ◌*◌, ◌^◌, Bool, true, false, not, ◌&&◌, ◌||◌, List, [], ◌∷◌, ◌++◌, Option,
  none, some, nat_eq, ltb, leb, if◌then◌else◌, length, take, drop,
}
use mathlib.Core.List.{reverse, map}
use peer_to_peer_file_sharin.Bytes.{Bytes, lit, ◌==◌, is_empty, starts_with}
use peer_to_peer_file_sharin.Bytes.Decimal.{to_string}
use peer_to_peer_file_sharin.Bytes.Lines.{lines}
use peer_to_peer_file_sharin.Container.Map.{Map, find}
use peer_to_peer_file_sharin.Common.Socket.{Incoming}
use peer_to_peer_file_sharin.Client.Downloader.Reply.{
  Stream, get_word, skip_space, scan_digits, find_after,
}

abbrev pub max_header : ℕ
max_header = 16 * 1024

abbrev pub max_body : ℕ
max_body = 1 * 1024 * 1024

pub record HttpRequest : Type 0 where
  pub method : Bytes
  pub path : Bytes
  pub body : Bytes

pub record HttpResponse : Type 0 where
  pub status : ℕ
  pub content_type : Bytes
  pub body : Bytes

unfoldable pub status_text : ℕ → Bytes
unfolding lit
status_text code =
    if nat_eq code 200
    then lit "OK"
    else if nat_eq code 400
    then lit "Bad Request"
    else if nat_eq code 404
    then lit "Not Found"
    else if nat_eq code 413
    then lit "Payload Too Large"
    else lit "Error"

-- read(fd, &c, 1)
unfoldable pub next_byte : Incoming → Option (ℕ × Incoming)
next_byte [] = none
next_byte ([] ∷ cs) = none
next_byte ((c ∷ []) ∷ cs) = some (c, cs)
next_byte ((c ∷ d ∷ s) ∷ cs) = some (c, (d ∷ s) ∷ cs)

-- The blank line that ends the headers, read backwards: the text is collected with its last byte
-- in front.
abbrev pub blank_line : Bytes
blank_line = 10 ∷ 13 ∷ 10 ∷ 13 ∷ []

-- Byte by byte until the blank line, as long as there is room.
unfoldable pub read_headers : ℕ → Bytes → Incoming → Option (Bytes × Incoming)
unfolding next_byte starts_with
read_headers zero out cs = none
read_headers (suc room) out cs = elim (next_byte cs) [
  | none ↦ none
  | some (c, rest) ↦ elim (starts_with blank_line (c ∷ out)) [
    | true ↦ some (reverse (c ∷ out), rest)
    | false ↦ read_headers room (c ∷ out) rest
  ]
]

-- std::tolower in the "C" locale
unfoldable pub tolower : ℕ → ℕ
tolower c = if leb 65 c && leb c 90 then c + 32 else c

-- The value of an unsigned long: the nearest in range, and a minus sign negates modulo 2^64.
unfoldable pub saturate : ℕ → ℕ
saturate n = if ltb n (2 ^ 64) then n else 2 ^ 64 - 1

unfoldable pub negated : ℕ → ℕ
negated n = if nat_eq n 0 then 0 else if ltb n (2 ^ 64) then 2 ^ 64 - n else 2 ^ 64 - 1

unfoldable pub signed_ulong : Bytes → ℕ
unfolding saturate negated scan_digits
signed_ulong [] = 0
signed_ulong (c ∷ s) =
    if nat_eq c b'-'
    then negated (scan_digits 0 false s).0
    else if nat_eq c b'+'
    then saturate (scan_digits 0 false s).0
    else saturate (scan_digits 0 false (c ∷ s)).0

-- strtoul(s, nullptr, 10)
unfoldable pub strtoul : Bytes → ℕ
unfolding skip_space signed_ulong
strtoul s = signed_ulong (skip_space s)

-- What one header line says of the length of the body.
unfoldable pub header_line : Bytes → ℕ → ℕ
unfolding strtoul tolower lit
header_line line content_length =
    if ltb 15 (length line) && (map tolower (take 15 line) == lit "content-length:")
    then strtoul (drop 15 line)
    else content_length

-- The lines up to the blank one; the last that gives a length counts.
unfoldable pub content_length_of : ℕ → List Bytes → ℕ
unfolding header_line
content_length_of n [] = n
content_length_of n (line ∷ ls) =
    if line == 13 ∷ [] then n else content_length_of (header_line line n) ls

-- Everything before the first `c`.
unfoldable pub before_byte : ℕ → Bytes → Bytes
before_byte c [] = []
before_byte c (d ∷ s) = if nat_eq d c then [] else d ∷ before_byte c s

-- The reads of the body, until it is complete or nothing comes.
unfoldable pub read_body : ℕ → Incoming → Bytes
read_body missing [] = []
read_body missing (c ∷ cs) =
    let rest = read_body (missing - length c) cs in
    if nat_eq missing 0 || is_empty c
    then []
    else if leb (length c) missing
    then c ++ rest
    else take missing c

unfoldable pub text_or_empty : Option Bytes → Bytes
text_or_empty none = []
text_or_empty (some s) = s

-- The bytes behind the headers that have already been read, and the reads.
unfoldable pub request_body : ℕ → Bytes → Incoming → Bytes
unfolding read_body find_after text_or_empty
request_body content_length raw cs =
    if nat_eq content_length 0
    then []
    else (let already : Bytes = text_or_empty (find_after (13 ∷ 10 ∷ 13 ∷ 10 ∷ []) raw) in
        already ++ read_body (content_length - length already) cs)

unfoldable pub render : HttpResponse → Bytes
unfolding status_text to_string lit
render res =
    lit "HTTP/1.1 "
    ++ (to_string res.status
        ++ (b' ' ∷ status_text res.status
            ++ (lit "\r\nContent-Type: "
                ++ (res.content_type
                    ++ (lit "\r\nContent-Length: "
                        ++ (to_string (length res.body)
                            ++ (lit "\r\nCache-Control: no-store\r\nConnection: close\r\n\r\n"
                                ++ res.body)))))))

-- One word of the request line; a failed extraction leaves the text empty.
unfoldable pub word_or_empty : Option (Bytes × Bytes) → Bytes × Stream
word_or_empty none = ([], none)
word_or_empty (some (w, rest)) = (w, some rest)

unfoldable pub next_word : Stream → Bytes × Stream
unfolding word_or_empty get_word
next_word s = word_or_empty (get_word s)

-- The lines behind the request line.
unfoldable pub tail_lines : List Bytes → List Bytes
tail_lines [] = []
tail_lines (l ∷ ls) = ls

unfoldable pub header_lines : Stream → List Bytes
unfolding tail_lines lines
header_lines none = []
header_lines (some s) = tail_lines (lines s)

abbrev pub Handler : Type 0 → Type 0
Handler S = HttpRequest → S → S × HttpResponse

module _ {S : Type 0} where
  unfoldable pub routed : Option (Handler S) → HttpRequest → S → S × HttpResponse
  unfolding lit
  routed none req s =
      (s, record { status = 404; content_type = lit "text/plain"; body = lit "not found" })
  routed (some handler) req s = handler req s

  -- What is answered to a method, a path, a length and what follows.
  unfoldable pub respond :
      Map (Handler S) → Bytes → Bytes → ℕ → Bytes → Incoming → S → S × HttpResponse
  unfolding routed before_byte request_body lit
  respond routes method path content_length raw cs s =
      if ltb max_body content_length
      then (
        s,
        record {
          status = 413;
          content_type = lit "text/plain";
          body = lit "request body too large";
        },
      )
      else routed (find (method ++ b' ' ∷ before_byte b'?' path) routes)
          (record {
            method = method;
            path = before_byte b'?' path;
            body = request_body content_length raw cs;
          })
          s

  unfoldable pub answered : S × HttpResponse → S × Option Bytes
  unfolding render
  answered (s, res) = (s, some (render res))

  -- A request whose headers were read; without a method or a path there is no response.
  unfoldable pub serve_raw : Map (Handler S) → Bytes → Incoming → S → S × Option Bytes
  unfolding next_word header_lines content_length_of respond answered
  serve_raw routes raw cs s =
      let m = next_word (some raw) in
      let p = next_word m.1 in
      let v = next_word p.1 in
      if is_empty m.0 || is_empty p.0
      then (s, none)
      else answered (respond routes m.0 p.0 (content_length_of 0 (header_lines v.1)) raw cs s)

  unfoldable pub serve_read : Map (Handler S) → Option (Bytes × Incoming) → S → S × Option Bytes
  unfolding serve_raw
  serve_read routes none s = (s, none)
  serve_read routes (some (raw, cs)) s = serve_raw routes raw cs s

  unfoldable pub serve : Map (Handler S) → Incoming → S → S × Option Bytes
  unfolding serve_read read_headers
  serve routes cs s = serve_read routes (read_headers max_header [] cs) s
