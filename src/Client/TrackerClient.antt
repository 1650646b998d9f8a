-- ===== src/Client/TrackerClient.antt =====
-- src/client/tracker_client.cpp: the client's connection to the tracker and the session token. The
-- mutex makes `send` one step; what the network does in it is an argument.
use peer_to_peer_file_sharin.Prelude.{
  ℕ, Bool, true, false, not, ◌||◌, List, [], Option, none, some, if◌then◌else◌,
}
use peer_to_peer_file_sharin.Bytes.{Bytes}
use peer_to_peer_file_sharin.Common.Socket.{Incoming, send_framed, recv_framed, max_frame_size}
use peer_to_peer_file_sharin.Client.Port.{is_port}

-- Whether sock_ is open, and token_.
pub record TrackerClient : Type 0 where
  pub is_open : Bool
  pub token : Bytes

-- Whether a socket is made, the address is read and the connection established.
pub record Dialing : Type 0 where
  pub socket : Bool
  pub address : Bool
  pub connects : Bool

unfoldable pub connect_to : Dialing → Bytes → TrackerClient → TrackerClient × Bool
unfolding is_port
connect_to d port c =
    if not d.socket || not (is_port port) || not d.address || not d.connects
    then (c, false)
    else (record c { is_open = true }, true)

unfoldable pub disconnect : TrackerClient → TrackerClient
disconnect c = record c { is_open = false }

unfoldable pub set_token : Bytes → TrackerClient → TrackerClient
set_token t c = record c { token = t }

unfoldable pub clear_token : TrackerClient → TrackerClient
clear_token c = record c { token = [] }

-- What the writes of a request take, and what arrives after it.
pub record Exchange : Type 0 where
  pub asks : List ℕ
  pub answers : Incoming

unfoldable pub or_empty : Option Bytes → Bytes
or_empty none = []
or_empty (some resp) = resp

-- The reply; empty after a failure.
unfoldable pub send : Exchange → Bytes → TrackerClient → Bytes
unfolding send_framed recv_framed or_empty
send x cmd c =
    if not c.is_open
    then []
    else if not (send_framed x.asks cmd).ok
    then []
    else or_empty (recv_framed max_frame_size x.answers).0
