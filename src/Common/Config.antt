-- ===== src/Common/Config.antt =====
-- src/common/config.cpp: the file that lists the trackers.
pub mod Reading
use peer_to_peer_file_sharin.Prelude.{
  ℕ, Bool, true, false, not, ◌&&◌, List, [], ◌∷◌, Option, none, some, ltb, leb, if◌then◌else◌, ℤ,
  pos, negsuc,
}
use peer_to_peer_file_sharin.Bytes.{Bytes}
use peer_to_peer_file_sharin.Bytes.Lines.{lines}
use peer_to_peer_file_sharin.Common.Message.{split_args, parse_int}

pub record Endpoint : Type 0 where
  pub ip : Bytes
  pub port : Bytes

-- `parse_int` succeeds with a port.
unfoldable pub is_port : Option ℤ → Bool
is_port none = false
is_port (some (negsuc n)) = false
is_port (some (pos n)) = ltb 0 n && leb n 65535

-- What one line adds.
unfoldable pub add_endpoint : List Bytes → List Endpoint → List Endpoint
unfolding is_port parse_int
add_endpoint (ip ∷ port ∷ _) out =
    if is_port (parse_int port) then record { ip = ip; port = port } ∷ out else out
add_endpoint _ out = out

unfoldable pub endpoints : List Bytes → List Endpoint
unfolding add_endpoint split_args
endpoints [] = []
endpoints (l ∷ ls) = add_endpoint (split_args l) (endpoints ls)

-- The contents of the file, if it can be read.
unfoldable pub load_endpoints : Option Bytes → List Endpoint
unfolding endpoints lines
load_endpoints none = []
load_endpoints (some text) = endpoints (lines text)
