-- ===== src/Client/PeerServer.antt =====
-- `serve_one` of src/client/peer_server.cpp: the answer to one request for a piece. The disk maps
-- the paths of the files that can be opened to their contents.
pub mod Serving
pub mod Exchange
pub mod Queue
use peer_to_peer_file_sharin.Prelude.{
  ℕ, ◌*◌, Bool, true, false, not, List, [], ◌∷◌, Option, none, some, if◌then◌else◌, ℤ, pos, negsuc,
  take, drop,
}
use peer_to_peer_file_sharin.Bytes.{Bytes, lit, ◌==◌, is_empty}
use peer_to_peer_file_sharin.Container.Map.{Map, find}
use peer_to_peer_file_sharin.Common.Message.{split_args, parse_int}
use peer_to_peer_file_sharin.Common.Hash.{piece_size}
use peer_to_peer_file_sharin.Common.Socket.{
  Incoming, Sent, recv_framed, send_framed, max_frame_size,
}
use peer_to_peer_file_sharin.Client.UploadRegistry.{UploadRegistry, path_for}

abbrev pub Disk : Type 0
Disk = Map Bytes

-- `pread` of one piece; at or behind the end it returns nothing, and nothing is sent.
unfoldable pub read_piece : ℕ → Option Bytes → Option Bytes
read_piece index none = none
read_piece index (some content) =
    let buf : Bytes = take piece_size (drop (index * piece_size) content) in
    if is_empty buf then none else some buf

unfoldable pub open_path : ℕ → Disk → Option Bytes → Option Bytes
unfolding read_piece
open_path index disk none = none
open_path index disk (some fullpath) = read_piece index (find fullpath disk)

unfoldable pub find_piece : Bytes → Option ℤ → UploadRegistry → Disk → Option Bytes
unfolding open_path path_for
find_piece fname none registry disk = none
find_piece fname (some (negsuc n)) registry disk = none
find_piece fname (some (pos index)) registry disk = open_path index disk (path_for fname registry)

-- The piece that the request asks for, if any.
unfoldable pub requested : List Bytes → UploadRegistry → Disk → Option Bytes
unfolding find_piece parse_int
requested (verb ∷ fname ∷ index ∷ _) registry disk =
    if verb == lit "GET_PIECE" then find_piece fname (parse_int index) registry disk else none
requested _ registry disk = none

unfoldable pub answer : Option Bytes → UploadRegistry → Disk → Option Bytes
unfolding requested split_args
answer none registry disk = none
answer (some request) registry disk = requested (split_args request) registry disk

-- What goes out before the connection is closed.
unfoldable pub reply : List ℕ → Option Bytes → Sent
unfolding send_framed
reply ks none = record { ok = true; wire = []; later = ks }
reply ks (some piece) = send_framed ks piece

unfoldable pub serve_one : UploadRegistry → Disk → List ℕ → Incoming → Sent
unfolding answer reply recv_framed
serve_one registry disk ks cs = reply ks (answer (recv_framed max_frame_size cs).0 registry disk)
