-- ===== src/Tracker/Operation/Version.antt =====
-- The version counter of the state (src/tracker/tracker_state.h) under the methods that clients reach.
use peer_to_peer_file_sharin.Prelude.{◌≡◌, ◌⊎◌, arith}
use peer_to_peer_file_sharin.Common.Hash.{Evp}
use peer_to_peer_file_sharin.Tracker.State
use peer_to_peer_file_sharin.Tracker.State.{TrackerState, bump}
use peer_to_peer_file_sharin.Tracker.Operation.{
  Operation, create_user, login, logout, create_group, join_group, leave_group, accept_request,
  reject_request, upload_file, file_downloaded, stop_share, handle_disconnect, apply,
}

-- `t` is `s`, or its counter is one further.
abbrev pub Counted : TrackerState → TrackerState → Type 0
Counted s t = (t ≡ s) ⊎ (t.version ≡ bump s.version)

module _ (evp : Evp) (s : TrackerState) where
  -- Every method by which a client's command or disconnection changes the state leaves all of it as
  -- it was or counts the version up by one, with the wrap at 2^64; merges and the loading of a
  -- snapshot are left aside.
  pub apply-Counted : (op : Operation) → Counted s (apply evp op s).0
  unfolding apply State.create_user State.login State.logout State.create_group State.join_group
      State.leave_group State.accept_request State.reject_request State.upload_file
      State.file_downloaded State.stop_share State.handle_disconnect
  apply-Counted (create_user drawn name pass) = ground arith
  apply-Counted (login name pass ip port) = ground arith
  apply-Counted (logout name) = ground arith
  apply-Counted (create_group gid owner) = ground arith
  apply-Counted (join_group gid user) = ground arith
  apply-Counted (leave_group gid user) = ground arith
  apply-Counted (accept_request gid user owner) = ground arith
  apply-Counted (reject_request gid user owner) = ground arith
  apply-Counted (upload_file gid fname user size hash n hashes) = ground arith
  apply-Counted (file_downloaded gid fname user) = ground arith
  apply-Counted (stop_share gid fname user) = ground arith
  apply-Counted (handle_disconnect name) = ground arith
