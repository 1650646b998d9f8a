-- ===== src/Tracker/Connection.antt =====
-- `managepeer` of src/tracker/main.cpp: the loop over one client's connection. A connection is
-- driven by the frames that arrive on it and ends with its drop.
pub mod Drop
use peer_to_peer_file_sharin.Prelude.{◌&&◌, List, [], ◌∷◌, if◌then◌else◌, drop}
use peer_to_peer_file_sharin.Bytes.{Bytes, ◌==◌, lit, is_empty, starts_with}
use peer_to_peer_file_sharin.Common.Message.{split_args}
use peer_to_peer_file_sharin.Common.Hash.{Evp}
use peer_to_peer_file_sharin.Tracker.Session.{destroy}
use peer_to_peer_file_sharin.Tracker.State.{handle_disconnect}
use peer_to_peer_file_sharin.Tracker.Dispatch.{Server, Ambient, dispatch}

-- Whom the connection authenticated as, and the token to revoke.
pub record Connection : Type 0 where
  pub session_user : Bytes
  pub session_token : Bytes

abbrev pub fresh : Connection
fresh = record { session_user = []; session_token = [] }

abbrev pub first_word : List Bytes → Bytes
first_word [] = []
first_word (w ∷ ws) = w

-- After the reply: a login that was accepted is remembered, and any logout is forgotten.
unfoldable pub remember : Bytes → List Bytes → Bytes → Connection → Connection
remember cmd args reply conn =
    if cmd == lit "login" && starts_with (lit "OK ") reply
    then record { session_user = first_word args; session_token = drop 3 reply }
    else if cmd == lit "logout"
    then fresh
    else conn

pub record Turn : Type 0 where
  pub reply : Bytes
  pub server : Server
  pub connection : Connection

module _ (evp : Evp) where
  unfoldable pub handle_words : Ambient → Bytes → List Bytes → Server → Connection → Turn
  unfolding dispatch remember
  handle_words amb raw [] srv conn = record {
    reply = lit "Invalid command";
    server = srv;
    connection = conn;
  }
  handle_words amb raw (cmd ∷ args) srv conn =
      let r = dispatch evp amb cmd args raw srv in
      record { reply = r.0; server = r.1; connection = remember cmd args r.0 conn }

  -- One frame.
  unfoldable pub handle_frame : Ambient → Bytes → Server → Connection → Turn
  unfolding handle_words
  handle_frame amb raw srv conn = handle_words amb raw (split_args raw) srv conn

-- The connection dropped or failed.
unfoldable pub handle_drop : Server → Connection → Server
handle_drop srv conn = record {
  state = handle_disconnect conn.session_user srv.state;
  sessions =
      if is_empty conn.session_token
      then srv.sessions
      else (destroy conn.session_token srv.sessions).1;
}
