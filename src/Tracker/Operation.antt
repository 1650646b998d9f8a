-- ===== src/Tracker/Operation.antt =====
-- The methods of TrackerState that the commands and the disconnection of clients reach and that
-- change it (src/tracker/tracker_state.h), as data. Each holds the lock throughout, so what
-- concurrent clients do to the state is a sequence of these. The two methods that take over a text,
-- `merge_from` for the frames of another tracker and `load_snapshot` at the start, are not among
-- them: they are in Tracker/Persistence.
pub mod Frame
pub mod Membership
pub mod Ownership
pub mod Soundness
pub mod Version
use peer_to_peer_file_sharin.Prelude.{ℕ, List, [], ◌∷◌, Bool, true, false}
use peer_to_peer_file_sharin.Bytes.{Bytes}
use peer_to_peer_file_sharin.Common.Hash.{Evp}
use peer_to_peer_file_sharin.Common.Auth.{Drawn}
use peer_to_peer_file_sharin.Tracker.State
use peer_to_peer_file_sharin.Tracker.State.{TrackerState, Result, accept}

pub data Operation : Type 0 where
  create_user : Drawn → Bytes → Bytes → Operation
  login : Bytes → Bytes → Bytes → Bytes → Operation
  logout : Bytes → Operation
  create_group : Bytes → Bytes → Operation
  join_group : Bytes → Bytes → Operation
  leave_group : Bytes → Bytes → Operation
  accept_request : Bytes → Bytes → Bytes → Operation
  reject_request : Bytes → Bytes → Bytes → Operation
  upload_file : Bytes → Bytes → Bytes → ℕ → Bytes → ℕ → List Bytes → Operation
  file_downloaded : Bytes → Bytes → Bytes → Operation
  stop_share : Bytes → Bytes → Bytes → Operation
  handle_disconnect : Bytes → Operation

module _ (evp : Evp) where
  unfoldable pub apply : Operation → TrackerState → TrackerState × Result
  apply (create_user drawn name pass) s = State.create_user evp drawn name pass s
  apply (login name pass ip port) s = State.login evp name pass ip port s
  apply (logout name) s = State.logout name s
  apply (create_group gid owner) s = State.create_group gid owner s
  apply (join_group gid user) s = State.join_group gid user s
  apply (leave_group gid user) s = State.leave_group gid user s
  apply (accept_request gid user owner) s = State.accept_request gid user owner s
  apply (reject_request gid user owner) s = State.reject_request gid user owner s
  apply (upload_file gid fname user size hash n hashes) s =
      State.upload_file gid fname user size hash n hashes s
  apply (file_downloaded gid fname user) s = State.file_downloaded gid fname user s
  apply (stop_share gid fname user) s = State.stop_share gid fname user s
  apply (handle_disconnect name) s = (State.handle_disconnect name s, accept [])

  -- The state after a sequence of operations, whatever their outcomes.
  unfoldable pub run : List Operation → TrackerState → TrackerState
  unfolding apply
  run [] s = s
  run (op ∷ ops) s = run ops (apply op s).0
