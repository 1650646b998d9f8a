-- ===== src/Tracker/Connection/Drop.antt =====
-- What remains of a session after its connection dropped (`managepeer` of src/tracker/main.cpp).
use peer_to_peer_file_sharin.Prelude.{
  ℕ, ◌≡◌, refl, Bool, false, not, ◌&&◌, Option, none, some, if◌then◌else◌, arith,
}
use peer_to_peer_file_sharin.Bytes.{Bytes, ◌==◌, ==_iff, is_empty}
use peer_to_peer_file_sharin.Container.Map.{find, find-assign}
use peer_to_peer_file_sharin.Tracker.Session.{username_for}
use peer_to_peer_file_sharin.Tracker.Session.Expiry.{resolves, username_for-destroy}
use peer_to_peer_file_sharin.Tracker.State.{
  TrackerState, Peer, peer_logout, handle_disconnect, disconnect_peer,
}
use peer_to_peer_file_sharin.Tracker.Dispatch.{Server}
use peer_to_peer_file_sharin.Tracker.Connection.{Connection, handle_drop}

abbrev pub is_online : Option Peer → Bool
is_online none = false
is_online (some p) = p.connected

drop-sessions :
    (now : ℕ) (token : Bytes) (srv : Server) (conn : Connection)
    → resolves now token (handle_drop srv conn).sessions
      ≡ (if conn.session_token == token then none else resolves now token srv.sessions)
unfolding handle_drop username_for
drop-sessions now token srv conn = ground (
  arith,
  ==_iff conn.session_token token,
  username_for-destroy now conn.session_token token srv.sessions,
)

disconnect_peer-online :
    (name user : Bytes) (s : TrackerState) (o : Option Peer)
    → find user s.peers ≡ o
    → is_online (find name (disconnect_peer o user s).peers)
      ≡ (is_online (find name s.peers) && not (user == name))
unfolding disconnect_peer peer_logout
disconnect_peer-online name user s none e = ground (arith, ==_iff user name, e)
disconnect_peer-online name user s (some p) e =
    ground (arith, ==_iff user name, e, find-assign user name (peer_logout p) s.peers)

drop-online :
    (name : Bytes) (srv : Server) (conn : Connection)
    → is_empty conn.session_user ≡ false
    → is_online (find name (handle_drop srv conn).state.peers)
      ≡ (is_online (find name srv.state.peers) && not (conn.session_user == name))
unfolding handle_drop handle_disconnect
drop-online name srv conn h = rw h (
    disconnect_peer-online name conn.session_user srv.state (find conn.session_user srv.state.peers)
      refl)

-- After the drop of a connection that has a session user, its token resolves to nothing and that
-- user is offline, every other token resolves as before, and every other user is online or not as
-- before.
pub handle_drop_lem :
    (now : ℕ) (token name : Bytes) (srv : Server) (conn : Connection)
    → is_empty conn.session_user ≡ false
    → (resolves now token (handle_drop srv conn).sessions
        ≡ (if conn.session_token == token then none else resolves now token srv.sessions))
      × (is_online (find name (handle_drop srv conn).state.peers)
          ≡ (is_online (find name srv.state.peers) && not (conn.session_user == name)))
handle_drop_lem now token name srv conn h =
    (drop-sessions now token srv conn, drop-online name srv conn h)
