-- ===== src/Tracker/Operation/Frame.antt =====
-- What the operations of src/tracker/tracker_state.cpp leave alone: accounts and files do not touch
-- the groups, and groups do not touch the accounts or the files.
use peer_to_peer_file_sharin.Prelude.{ℕ, ◌≡◌, List, arith}
use peer_to_peer_file_sharin.Bytes.{Bytes}
use peer_to_peer_file_sharin.Common.Hash.{Evp}
use peer_to_peer_file_sharin.Common.Auth.{Drawn}
use peer_to_peer_file_sharin.Tracker.State
use peer_to_peer_file_sharin.Tracker.State.{TrackerState, file_key}

module _ (evp : Evp) (name pass : Bytes) where
  pub groups-create_user :
      (drawn : Drawn) (s : TrackerState)
      → (State.create_user evp drawn name pass s).0.groups ≡ s.groups
  unfolding State.create_user
  groups-create_user drawn s = ground arith

  pub groups-login :
      (ip port : Bytes) (s : TrackerState)
      → (State.login evp name pass ip port s).0.groups ≡ s.groups
  unfolding State.login
  groups-login ip port s = ground arith

module _ (name : Bytes) (s : TrackerState) where
  pub groups-logout : (State.logout name s).0.groups ≡ s.groups
  unfolding State.logout
  groups-logout = ground arith

  pub groups-handle_disconnect : (State.handle_disconnect name s).groups ≡ s.groups
  unfolding State.handle_disconnect
  groups-handle_disconnect = ground arith

module _ (gid fname user : Bytes) (size : ℕ) (hash : Bytes) (n : ℕ) (hashes : List Bytes)
    (s : TrackerState) where
  pub groups-upload_file :
      (State.upload_file gid fname user size hash n hashes s).0.groups ≡ s.groups
  unfolding State.upload_file
  groups-upload_file = ground arith

  pub peers-upload_file : (State.upload_file gid fname user size hash n hashes s).0.peers ≡ s.peers
  unfolding State.upload_file
  peers-upload_file = ground arith

module _ (gid fname user : Bytes) (s : TrackerState) where
  pub groups-file_downloaded : (State.file_downloaded gid fname user s).0.groups ≡ s.groups
  unfolding State.file_downloaded
  groups-file_downloaded = ground arith

  pub groups-stop_share : (State.stop_share gid fname user s).0.groups ≡ s.groups
  unfolding State.stop_share
  groups-stop_share = ground arith

  pub peers-file_downloaded : (State.file_downloaded gid fname user s).0.peers ≡ s.peers
  unfolding State.file_downloaded
  peers-file_downloaded = ground arith

  pub peers-stop_share : (State.stop_share gid fname user s).0.peers ≡ s.peers
  unfolding State.stop_share
  peers-stop_share = ground arith

-- All but the groups and the version counter is as it was.
pub record GroupsOnly (s t : TrackerState) : Type 0 where
  pub peers : t.peers ≡ s.peers
  pub files : t.files ≡ s.files
  pub group_files : t.group_files ≡ s.group_files

module _ (gid user : Bytes) (s : TrackerState) where
  pub create_group-GroupsOnly : GroupsOnly s (State.create_group gid user s).0
  unfolding State.create_group
  create_group-GroupsOnly = ground arith

  pub join_group-GroupsOnly : GroupsOnly s (State.join_group gid user s).0
  unfolding State.join_group
  join_group-GroupsOnly = ground arith

  pub leave_group-GroupsOnly : GroupsOnly s (State.leave_group gid user s).0
  unfolding State.leave_group
  leave_group-GroupsOnly = ground arith

module _ (gid user owner : Bytes) (s : TrackerState) where
  pub accept_request-GroupsOnly : GroupsOnly s (State.accept_request gid user owner s).0
  unfolding State.accept_request
  accept_request-GroupsOnly = ground arith

  pub reject_request-GroupsOnly : GroupsOnly s (State.reject_request gid user owner s).0
  unfolding State.reject_request
  reject_request-GroupsOnly = ground arith
