-- ===== src/Tests/Link.antt =====
-- The theorems about the link between the trackers (src/tracker/peer_link.cpp), the version and a
-- dropped connection (src/tracker/main.cpp) at concrete inputs.
use peer_to_peer_file_sharin.Prelude.{
  ◌≡◌, refl, false, true, not, ◌&&◌, List, [], ◌∷◌, some, none, arith, if◌then◌else◌, length,
}
use peer_to_peer_file_sharin.Bytes.{Bytes, ◌==◌}
use peer_to_peer_file_sharin.Container.Map.{find, assign}
use peer_to_peer_file_sharin.Common.Hash.{Evp}
use peer_to_peer_file_sharin.Tracker.State
use peer_to_peer_file_sharin.Tracker.State.{TrackerState, Peer, bump}
use peer_to_peer_file_sharin.Common.Hash.{sha1_file_pieces}
use peer_to_peer_file_sharin.Common.Hash.Pieces.{sha1_file_pieces-length}
use peer_to_peer_file_sharin.Tracker.Session.Expiry.{resolves}
use peer_to_peer_file_sharin.Tracker.Dispatch.{Server}
use peer_to_peer_file_sharin.Tracker.Connection.{Connection, handle_drop}
use peer_to_peer_file_sharin.Tracker.Connection.Drop.{is_online, handle_drop_lem}
use peer_to_peer_file_sharin.Tracker.Operation.{logout, run, apply}
use peer_to_peer_file_sharin.Tracker.Operation.Version.{Counted, apply-Counted}
use peer_to_peer_file_sharin.Tracker.Persistence.{merge_from}
use peer_to_peer_file_sharin.Tracker.PeerLink.{Link, Round, state_message, push_round, linked}
use peer_to_peer_file_sharin.Tracker.PeerLink.Pushing.{quiet_round, push_round-linked}

-- A digest that always succeeds.
abbrev echo : Evp
echo md s = some s

abbrev user : Bytes
user = b'u' ∷ []

abbrev account : Peer
account = record {
  peername = user;
  password = record { salt = user; hash = user };
  hostip = user;
  hostport = user;
  connected = true;
}

abbrev idle : Link
idle = record {
  state = record {
    peers = (user, account) ∷ [];
    groups = [];
    group_files = [];
    files = [];
    version = 4;
  };
  connected = false;
  last_pushed_version = 0;
  acknowledged = none;
}

-- The user logs out between the reads of the version and of the state.
abbrev overtaken : List Round
overtaken = record { before = []; between = logout user ∷ []; sends = true; answers = true } ∷ []

push_round-linked_example :
    (push_round echo
      (quiet_round (logout user ∷ []))
      (linked echo (some []) overtaken idle).1).1.acknowledged
    ≡ some
        (state_message (run echo (logout user ∷ []) (linked echo (some []) overtaken idle).1.state))
unfolding linked run State.logout merge_from bump find assign ◌==◌
push_round-linked_example =
    push_round-linked echo [] overtaken (logout user ∷ []) idle (omega arith) (omega arith)
      (omega arith)

apply-Counted_example : Counted idle.state (apply echo (logout user) idle.state).0
apply-Counted_example = apply-Counted echo idle.state (logout user)

abbrev online : Connection
online = record { session_user = user; session_token = user }

abbrev no_sessions : Server
no_sessions = record { state = idle.state; sessions = [] }

handle_drop_lem_example :
    (resolves 0 user (handle_drop no_sessions online).sessions
      ≡ (if user == user then none else resolves 0 user []))
    × (is_online (find user (handle_drop no_sessions online).state.peers)
        ≡ (is_online (find user idle.state.peers) && not (user == user)))
handle_drop_lem_example = handle_drop_lem 0 user user no_sessions online refl

sha1_file_pieces-length_example :
    length (sha1_file_pieces echo (some user)).0 ≡ (sha1_file_pieces echo (some user)).1
sha1_file_pieces-length_example = sha1_file_pieces-length echo user
