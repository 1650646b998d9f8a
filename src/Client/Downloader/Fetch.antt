-- ===== src/Client/Downloader/Fetch.antt =====
-- One peer's turn in the loop of a worker of src/client/downloader.cpp: a piece is asked for, its
-- hash compared, and the piece written to the output file. What the network and the disk do in
-- that turn is an argument.
use peer_to_peer_file_sharin.Prelude.{
  ℕ, ◌*◌, Bool, false, not, ◌&&◌, ◌||◌, List, Option, none, some, if◌then◌else◌, take, get_elem?,
}
use peer_to_peer_file_sharin.Bytes.{Bytes, ◌==◌}
use peer_to_peer_file_sharin.Common.Hash.{Evp, sha1_hex, piece_size}
use peer_to_peer_file_sharin.Common.Socket.{Incoming, send_framed, recv_framed}
use peer_to_peer_file_sharin.Client.Port.{is_port}
use peer_to_peer_file_sharin.Client.PeerServer.Serving.{piece_request}
use peer_to_peer_file_sharin.Client.Downloader.Reply.{Seeder}
use peer_to_peer_file_sharin.Client.Downloader.Storage.{write_at}

-- What happens in one turn: whether the socket is made, the address read and the connection
-- established; what the writes of the request take and what arrives; whether the file is opened,
-- sought and completely written and flushed, and if not, how many bytes of the piece reach it; and
-- whether the sidecar can be opened.
pub record Turn : Type 0 where
  pub socket : Bool
  pub address : Bool
  pub connects : Bool
  pub asks : List ℕ
  pub answers : Incoming
  pub opens : Bool
  pub seeks : Bool
  pub writes : Bool
  pub flushes : Bool
  pub landed : ℕ
  pub saves : Bool

-- The payload that the peer sends, if it gets that far.
unfoldable pub fetch : Bytes → ℕ → Seeder → Turn → Option Bytes
unfolding is_port send_framed recv_framed
fetch fname index p t =
    if not t.socket || not (is_port p.port) || not t.address || not t.connects
    then none
    else if not (send_framed t.asks (piece_request fname index)).ok
    then none
    else (recv_framed piece_size t.answers).0

-- The next peer without an attempt counted, or with one counted and this as the output file, or
-- success with this as the output file.
pub data Outcome : Type 0 where
  skipped : Outcome
  refused stored : Bytes → Outcome

-- fopen, fseeko, fwrite and fflush at the piece's offset.
unfoldable pub store : ℕ → Bytes → Turn → Bytes → Outcome
unfolding write_at
store index payload t output =
    if not (t.opens && t.seeks)
    then refused output
    else if not (t.writes && t.flushes)
    then refused (write_at (index * piece_size) (take t.landed payload) output)
    else stored (write_at (index * piece_size) payload output)

-- recv_hex == piece_hashes[piece_idx]; every index in the queue is one of the vector's.
unfoldable pub matches : Option Bytes → Bytes → Bool
matches none recv_hex = false
matches (some expected) recv_hex = recv_hex == expected

module _ (evp : Evp) where
  unfoldable pub check : List Bytes → ℕ → Option Bytes → Turn → Bytes → Outcome
  unfolding store matches sha1_hex
  check piece_hashes index none t output = skipped
  check piece_hashes index (some payload) t output =
      if not (matches (get_elem? piece_hashes index) (sha1_hex evp payload))
      then refused output
      else store index payload t output

  unfoldable pub visit : Bytes → List Bytes → ℕ → Seeder → Turn → Bytes → Outcome
  unfolding check fetch
  visit fname piece_hashes index p t output =
      check piece_hashes index (fetch fname index p t) t output
