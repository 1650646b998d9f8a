-- ===== src/Tests/Client.antt =====
-- The theorems about framing, the list of trackers and the exchange of pieces (src/common,
-- src/client) at concrete inputs.
use peer_to_peer_file_sharin.Prelude.{
  ◌≡◌, refl, true, false, List, [], ◌∷◌, ◌++◌, none, some, arith, get_elem?, ℕ,
}
use peer_to_peer_file_sharin.Bytes.{Bytes, lit, ◌==◌, is_space}
use peer_to_peer_file_sharin.Bytes.Decimal.{to_string}
use peer_to_peer_file_sharin.Container.Map.{find}
use peer_to_peer_file_sharin.Common.Message.{IsWord}
use peer_to_peer_file_sharin.Common.Hash.{Evp, piece_size, sha1_file_pieces}
use peer_to_peer_file_sharin.Common.Hash.Pieces.{piece_at}
use peer_to_peer_file_sharin.Common.Socket.{send_framed, recv_framed}
use peer_to_peer_file_sharin.Common.Socket.Delivery.{stream, IsLive}
use peer_to_peer_file_sharin.Common.Socket.Framing.{recv_framed-send_framed, recv_framed-too_long}
use peer_to_peer_file_sharin.Common.Config.{Endpoint, load_endpoints}
use peer_to_peer_file_sharin.Common.Config.Reading.{
  endpoint_lines, with_port, load_endpoints-endpoint_lines,
}
use peer_to_peer_file_sharin.Client.UploadRegistry.{UploadRegistry, path_for}
use peer_to_peer_file_sharin.Client.PeerServer.{Disk, answer, serve_one}
use peer_to_peer_file_sharin.Client.PeerServer.Serving.{
  piece_request, hash_of_answer, answer-sha1_file_pieces,
}
use peer_to_peer_file_sharin.Client.PeerServer.Queue.{
  Listening, Event, accept_gave, worker_woke, stop_called, steps, queued, steps-line,
}
use peer_to_peer_file_sharin.Client.PeerServer.Exchange.{recv_framed-serve_one}

abbrev payload : Bytes
payload = b'h' ∷ b'i' ∷ b'!' ∷ []

-- A writer that gets three bytes out at a time.
abbrev slow : List ℕ
slow = 3 ∷ 3 ∷ 3 ∷ []

recv_framed-send_framed_example :
    ((recv_framed 9 ((0 ∷ 0 ∷ []) ∷ (0 ∷ 3 ∷ b'h' ∷ []) ∷ (b'i' ∷ b'!' ∷ 7 ∷ []) ∷ [])).0
      ≡ some payload)
    × ((stream (recv_framed 9 ((0 ∷ 0 ∷ []) ∷ (0 ∷ 3 ∷ b'h' ∷ []) ∷ (b'i' ∷ b'!' ∷ 7 ∷ []) ∷ [])).1
          ≡ 7 ∷ [])
        × IsLive
            (recv_framed 9 ((0 ∷ 0 ∷ []) ∷ (0 ∷ 3 ∷ b'h' ∷ []) ∷ (b'i' ∷ b'!' ∷ 7 ∷ []) ∷ [])).1)
unfolding send_framed
recv_framed-send_framed_example =
    recv_framed-send_framed 9 slow payload (7 ∷ [])
      ((0 ∷ 0 ∷ []) ∷ (0 ∷ 3 ∷ b'h' ∷ []) ∷ (b'i' ∷ b'!' ∷ 7 ∷ []) ∷ []) (omega arith) (omega arith)
      refl (refl, (refl, (refl, tt))) refl

recv_framed-too_long_example :
    ((recv_framed 2 ((0 ∷ 0 ∷ 0 ∷ 3 ∷ b'h' ∷ b'i' ∷ b'!' ∷ []) ∷ [])).0 ≡ none)
    × (stream (recv_framed 2 ((0 ∷ 0 ∷ 0 ∷ 3 ∷ b'h' ∷ b'i' ∷ b'!' ∷ []) ∷ [])).1 ≡ payload ++ [])
unfolding send_framed
recv_framed-too_long_example =
    recv_framed-too_long 2 slow payload [] ((0 ∷ 0 ∷ 0 ∷ 3 ∷ b'h' ∷ b'i' ∷ b'!' ∷ []) ∷ [])
      (omega arith) (omega arith) refl (refl, tt) refl

abbrev tracker_one : Endpoint
tracker_one = record { ip = b'h' ∷ []; port = b'8' ∷ b'0' ∷ [] }

load_endpoints-endpoint_lines_example :
    load_endpoints (some (endpoint_lines (tracker_one ∷ []) ++ payload))
    ≡ with_port (tracker_one ∷ []) ++ load_endpoints (some payload)
unfolding is_space
load_endpoints-endpoint_lines_example = load_endpoints-endpoint_lines (tracker_one ∷ []) payload (
  (
    record { nonempty = refl; solid = (refl, tt) },
    record { nonempty = refl; solid = (refl, (refl, tt)) },
  ),
  tt,
)

abbrev name : Bytes
name = b'n' ∷ []

abbrev registry : UploadRegistry
registry = (name, payload) ∷ []

abbrev disk : Disk
disk = (payload, b'a' ∷ b'b' ∷ []) ∷ []

-- A digest that always succeeds.
abbrev echo : Evp
echo md s = some s

name-IsWord : IsWord name
unfolding is_space
name-IsWord = record { nonempty = refl; solid = (refl, tt) }

answer-sha1_file_pieces_example :
    hash_of_answer echo (answer (some (piece_request name 0)) registry disk)
    ≡ get_elem? (sha1_file_pieces echo (some (b'a' ∷ b'b' ∷ []))).0 0
unfolding path_for find ◌==◌
answer-sha1_file_pieces_example =
    answer-sha1_file_pieces echo name payload (b'a' ∷ b'b' ∷ []) 0 registry disk name-IsWord
      (omega arith) refl refl

-- The request, and the answer, in one chunk each.
abbrev request_wire : Bytes
request_wire = (send_framed (64 ∷ 64 ∷ []) (piece_request name 0)).wire

recv_framed-serve_one_example :
    (recv_framed piece_size ((0 ∷ 0 ∷ 0 ∷ 2 ∷ b'a' ∷ b'b' ∷ []) ∷ [])).0
    ≡ some (piece_at piece_size 0 (b'a' ∷ b'b' ∷ []))
unfolding path_for find ◌==◌ lit send_framed serve_one to_string
recv_framed-serve_one_example =
    recv_framed-serve_one name payload (b'a' ∷ b'b' ∷ []) 0 registry disk (64 ∷ 64 ∷ []) slow
      (request_wire ∷ []) ((0 ∷ 0 ∷ 0 ∷ 2 ∷ b'a' ∷ b'b' ∷ []) ∷ []) name-IsWord (omega arith) refl
      refl (omega arith) (omega arith) refl (refl, tt) refl refl (refl, tt) refl

-- Two connections are queued, one is taken, and the one that comes after the stop is closed.
abbrev listening : Listening
listening = record {
  pending = [];
  stopping = false;
  accepting = true;
  workers = 1;
  taken = [];
  closed = [];
}

abbrev events : List Event
events = accept_gave 4 ∷ accept_gave 5 ∷ worker_woke ∷ stop_called ∷ accept_gave 6 ∷ []

steps-line_example :
    (steps events listening).taken ++ (steps events listening).pending
    ≡ ([] ++ []) ++ queued events listening
steps-line_example = steps-line events listening
