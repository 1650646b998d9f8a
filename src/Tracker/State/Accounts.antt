-- ===== src/Tracker/State/Accounts.antt =====
-- Accounts and connections of src/tracker/tracker_state.cpp.
use peer_to_peer_file_sharin.Prelude.{Bool, false, not, ◌||◌, [], Option, none, some, if◌then◌else◌}
use peer_to_peer_file_sharin.Bytes.{Bytes, lit, is_empty}
use peer_to_peer_file_sharin.Container.Map.{find, assign, contains}
use peer_to_peer_file_sharin.Common.Hash.{Evp}
use peer_to_peer_file_sharin.Common.Auth.{Drawn, PasswordHash, hash_password, verify_password}
use peer_to_peer_file_sharin.Tracker.State.Types.{
  Result, accept, reject, around, Peer, peer_login, peer_logout, TrackerState, bump,
}

unfoldable pub user_exists_locked : Bytes → TrackerState → Bool
user_exists_locked name s = contains name s.peers

abbrev pub new_peer : Bytes → PasswordHash → Peer
new_peer username ph = record {
  hostip = [];
  hostport = [];
  peername = username;
  password = ph;
  connected = false;
}

module _ (evp : Evp) where
  unfoldable pub create_user : Drawn → Bytes → Bytes → TrackerState → TrackerState × Result
  unfolding user_exists_locked
  create_user drawn username passcode s =
      if user_exists_locked username s
      then (s, reject (lit "-----Cannot create user: ID already in use.-----"))
      else (let ph : PasswordHash = hash_password evp drawn passcode in
          if is_empty ph.salt || is_empty ph.hash
          then (s, reject (lit "-----Cannot create user: server entropy unavailable-----"))
          else (
            record s {
              peers = assign username (new_peer username ph) s.peers;
              version = bump s.version;
            },
            accept (around "***** ID number " username " registered successfully! ******"),
          ))

  unfoldable pub login_peer :
      Option Peer → Bytes → Bytes → Bytes → Bytes → TrackerState → TrackerState × Result
  unfolding peer_login
  login_peer none username passcode ip port s =
      (s, reject (around "------ User ID " username " is not registered ------"))
  login_peer (some p) username passcode ip port s =
      if not (verify_password evp passcode p.password)
      then (
        s,
        reject
            (around "------ Authentication failed: incorrect passcode for ID " username " ------"),
      )
      else (
        record s {
          peers = assign username (peer_login ip port p) s.peers;
          version = bump s.version;
        },
        accept (around "Successful Login for User ID " username "! ******\n"),
      )

  unfoldable pub login : Bytes → Bytes → Bytes → Bytes → TrackerState → TrackerState × Result
  unfolding login_peer
  login username passcode ip port s = login_peer (find username s.peers) username passcode ip port s

unfoldable pub logout_peer : Option Peer → Bytes → TrackerState → TrackerState × Result
unfolding peer_logout
logout_peer none username s = (s, reject (around "------- No such User ID: " username " ------"))
logout_peer (some p) username s = (
  record s { peers = assign username (peer_logout p) s.peers; version = bump s.version },
  accept (around "***** User ID " username " logged out successfully ******"),
)

unfoldable pub logout : Bytes → TrackerState → TrackerState × Result
unfolding logout_peer
logout username s = logout_peer (find username s.peers) username s

unfoldable pub disconnect_peer : Option Peer → Bytes → TrackerState → TrackerState
unfolding peer_logout
disconnect_peer none username s = s
disconnect_peer (some p) username s = record s {
  peers = assign username (peer_logout p) s.peers;
  version = bump s.version;
}

unfoldable pub handle_disconnect : Bytes → TrackerState → TrackerState
unfolding disconnect_peer
handle_disconnect username s =
    if is_empty username then s else disconnect_peer (find username s.peers) username s
