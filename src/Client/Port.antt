-- ===== src/Client/Port.antt =====
-- The test of a port that src/client/tracker_client.cpp, src/client/downloader.cpp and
-- src/client/peer_server.cpp make before they use it.
use peer_to_peer_file_sharin.Prelude.{
  Bool, false, ◌&&◌, Option, none, some, ltb, leb, ℤ, pos, negsuc,
}
use peer_to_peer_file_sharin.Bytes.{Bytes}
use peer_to_peer_file_sharin.Common.Message.{parse_int}

unfoldable pub in_port_range : Option ℤ → Bool
in_port_range none = false
in_port_range (some (negsuc n)) = false
in_port_range (some (pos n)) = ltb 0 n && leb n 65535

-- parse_int(port, p) && p > 0 && p <= 65535
unfoldable pub is_port : Bytes → Bool
unfolding in_port_range parse_int
is_port port = in_port_range (parse_int port)
