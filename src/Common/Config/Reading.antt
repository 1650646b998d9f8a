-- ===== src/Common/Config/Reading.antt =====
-- What `load_endpoints` of src/common/config.cpp reads.
use peer_to_peer_file_sharin.Prelude.{
  ◌≡◌, refl, Bool, false, ◌&&◌, ltb, leb, ℤ, pos, negsuc, Option, none, List, [], ◌∷◌, ◌++◌,
  append_assoc, some, if◌then◌else◌, All, arith,
}
use peer_to_peer_file_sharin.Bytes.{Bytes}
use peer_to_peer_file_sharin.Bytes.Lines.{lines, lines-append, no_break, All-append}
use peer_to_peer_file_sharin.Common.Message.{IsWord, parse_int, split_args-cons, split_args-single}
use peer_to_peer_file_sharin.Common.Config.{
  Endpoint, is_port, add_endpoint, endpoints, load_endpoints,
}

-- One line "<ip> <port>" for each endpoint.
abbrev pub endpoint_lines : List Endpoint → Bytes
endpoint_lines [] = []
endpoint_lines (e ∷ es) = (e.ip ++ b' ' ∷ e.port) ++ b'\n' ∷ endpoint_lines es

-- The number that a port's text stands for is between 1 and 65535.
abbrev pub within_ports : Option ℤ → Bool
within_ports (some (pos n)) = leb 1 n && ltb n 65536
within_ports _ = false

is_port-within_ports : (o : Option ℤ) → is_port o ≡ within_ports o
unfolding is_port
is_port-within_ports none = refl
is_port-within_ports (some (negsuc n)) = refl
is_port-within_ports (some (pos n)) = ground arith

-- The endpoints whose port is one.
abbrev pub with_port : List Endpoint → List Endpoint
with_port [] = []
with_port (e ∷ es) = if within_ports (parse_int e.port) then e ∷ with_port es else with_port es

-- An endpoint of two words.
abbrev pub IsSolid : Endpoint → Type 0
IsSolid e = IsWord e.ip × IsWord e.port

line_read :
    (e : Endpoint) (t : Bytes)
    → IsSolid e
    → endpoints (lines ((e.ip ++ b' ' ∷ e.port) ++ b'\n' ∷ t))
      ≡ (if is_port (parse_int e.port) then e ∷ endpoints (lines t) else endpoints (lines t))
unfolding endpoints add_endpoint
line_read e t h =
    rw
      (
        lines-append (e.ip ++ b' ' ∷ e.port) t (
            All-append _ e.ip (b' ' ∷ e.port) (no_break e.ip h.0.solid)
              (refl, no_break e.port h.1.solid)),
        split_args-cons e.ip e.port h.0,
        split_args-single e.port h.1,
      )
      refl

-- A file with one line of address and port, both words, for each endpoint is read as those
-- endpoints whose port is between 1 and 65535, in order, followed by what the rest of the file is
-- read as.
pub load_endpoints-endpoint_lines :
    (es : List Endpoint) (rest : Bytes)
    → All IsSolid es
    → load_endpoints (some (endpoint_lines es ++ rest)) ≡ with_port es ++ load_endpoints (some rest)
unfolding load_endpoints
load_endpoints-endpoint_lines [] rest h = refl
load_endpoints-endpoint_lines (e ∷ es) rest h =
    rw
      (
        append_assoc (e.ip ++ b' ' ∷ e.port) (b'\n' ∷ endpoint_lines es) rest,
        line_read e (endpoint_lines es ++ rest) h.0,
        load_endpoints-endpoint_lines es rest h.1,
      )
      (ground (arith, is_port-within_ports (parse_int e.port)))
