-- ===== src/Tracker/Operation/Soundness.antt =====
-- The invariant of the tracker's state (src/tracker/tracker_state.cpp) and its preservation by
-- every operation, whatever its outcome.
mod Groups
pub mod Files
mod Peers
use Groups.{
  GroupsAreSound, create_group-GroupsAreSound, join_group-GroupsAreSound,
  leave_group-GroupsAreSound, accept_request-GroupsAreSound, reject_request-GroupsAreSound,
  GroupsAreSound-grow,
}
use Files.{
  FilesAreSound, upload_file-FilesAreSound, file_downloaded-FilesAreSound, stop_share-FilesAreSound,
  FilesAreSound-same,
}
use Peers.{
  PeersAreSound, PeersOnly, Good, create_user-Good, login-Good, logout-Good, handle_disconnect-Good,
}
use peer_to_peer_file_sharin.Prelude.{
  ℕ, ◌≡◌, refl, false, List, [], ◌∷◌, Option, none, some, All, arith, ap, ◌∙◌, sym,
}
use mathlib.Core.Path.{subst}
use peer_to_peer_file_sharin.Bytes.{Bytes, is_empty}
use peer_to_peer_file_sharin.Container.Map.{find}
use peer_to_peer_file_sharin.Common.Hash.{Evp}
use peer_to_peer_file_sharin.Tracker.State
use peer_to_peer_file_sharin.Tracker.State.{TrackerState, empty_state}
use peer_to_peer_file_sharin.Tracker.Operation.{
  Operation, create_user, login, logout, create_group, join_group, leave_group, accept_request,
  reject_request, upload_file, file_downloaded, stop_share, handle_disconnect, apply, run,
}
use peer_to_peer_file_sharin.Tracker.Operation.Frame.{
  GroupsOnly, create_group-GroupsOnly, join_group-GroupsOnly, leave_group-GroupsOnly,
  accept_request-GroupsOnly, reject_request-GroupsOnly, groups-upload_file, groups-file_downloaded,
  groups-stop_share, peers-upload_file, peers-file_downloaded, peers-stop_share,
}

-- Groups, files and accounts are each as the parts of the invariant say.
pub record IsSound (s : TrackerState) : Type 0 where
  pub groups : GroupsAreSound s
  pub files : FilesAreSound s
  pub peers : PeersAreSound s

-- A request is accepted by somebody with a name; `dispatch` takes it from a session.
abbrev pub HasCaller : Operation → Type 0
HasCaller (accept_request gid user owner) = is_empty owner ≡ false
HasCaller _ = Unit {0}

PeersAreSound-same : (s t : TrackerState) → PeersAreSound s → t.peers ≡ s.peers → PeersAreSound t
PeersAreSound-same s t v same = record { each = λ name p e. v.each name p (rw same at e) }

by_groups : (s t : TrackerState) → IsSound s → GroupsOnly s t → GroupsAreSound t → IsSound t
by_groups s t v frame g = record {
  groups = g;
  files = FilesAreSound-same s t v.files frame.files frame.group_files;
  peers = PeersAreSound-same s t v.peers frame.peers;
}

by_files :
    (s t : TrackerState)
    → IsSound s
    → t.groups ≡ s.groups
    → t.peers ≡ s.peers
    → FilesAreSound t
    → IsSound t
by_files s t v same_groups same_peers f = record {
  groups = GroupsAreSound-grow s v.groups t same_groups (λ x e. rw same_peers e);
  files = f;
  peers = PeersAreSound-same s t v.peers same_peers;
}

by_peers : (s t : TrackerState) → IsSound s → Good s t → IsSound t
by_peers s t v (frame, keeps) = record {
  groups = GroupsAreSound-grow s v.groups t frame.groups frame.grows;
  files = FilesAreSound-same s t v.files frame.files frame.group_files;
  peers = keeps v.peers;
}

module _ (evp : Evp) where
  -- Every operation keeps the invariant, carried out or refused.
  pub apply-IsSound :
      (op : Operation) (s : TrackerState) → HasCaller op → IsSound s → IsSound (apply evp op s).0
  unfolding apply
  apply-IsSound (create_user drawn name pass) s h v =
      by_peers s _ v (create_user-Good s evp name pass drawn)
  apply-IsSound (login name pass ip port) s h v =
      by_peers s _ v (login-Good s evp name pass ip port)
  apply-IsSound (logout name) s h v = by_peers s _ v (logout-Good s name)
  apply-IsSound (create_group gid owner) s h v =
      by_groups s _ v (create_group-GroupsOnly gid owner s)
        (create_group-GroupsAreSound s v.groups gid owner)
  apply-IsSound (join_group gid user) s h v =
      by_groups s _ v (join_group-GroupsOnly gid user s)
        (join_group-GroupsAreSound s v.groups gid user)
  apply-IsSound (leave_group gid user) s h v =
      by_groups s _ v (leave_group-GroupsOnly gid user s)
        (leave_group-GroupsAreSound s v.groups gid user)
  apply-IsSound (accept_request gid user owner) s h v =
      by_groups s _ v (accept_request-GroupsOnly gid user owner s)
        (accept_request-GroupsAreSound s v.groups gid user owner h)
  apply-IsSound (reject_request gid user owner) s h v =
      by_groups s _ v (reject_request-GroupsOnly gid user owner s)
        (reject_request-GroupsAreSound s v.groups gid user owner)
  apply-IsSound (upload_file gid fname user size hash n hashes) s h v =
      by_files s _ v (groups-upload_file gid fname user size hash n hashes s)
        (peers-upload_file gid fname user size hash n hashes s)
        (upload_file-FilesAreSound s v.files gid fname user size hash n hashes)
  apply-IsSound (file_downloaded gid fname user) s h v =
      by_files s _ v (groups-file_downloaded gid fname user s)
        (peers-file_downloaded gid fname user s)
        (file_downloaded-FilesAreSound s v.files gid fname user)
  apply-IsSound (stop_share gid fname user) s h v =
      by_files s _ v (groups-stop_share gid fname user s) (peers-stop_share gid fname user s)
        (stop_share-FilesAreSound s v.files gid fname user)
  apply-IsSound (handle_disconnect name) s h v = by_peers s _ v (handle_disconnect-Good s name)

  run-IsSound :
      (ops : List Operation) (s : TrackerState)
      → All HasCaller ops
      → IsSound s
      → IsSound (run evp ops s)
  unfolding run
  run-IsSound [] s h v = v
  run-IsSound (op ∷ ops) s h v = run-IsSound ops (apply evp op s).0 h.1 (apply-IsSound op s h.0 v)

empty_state-IsSound : IsSound empty_state
unfolding find
empty_state-IsSound = record {
  groups = record { each = λ gid h e. cc };
  files = record {
    described = λ gid fname l. cc;
    safe = λ gid fname l. cc;
    hashed = λ key f e. cc;
  };
  peers = record { each = λ name p e. cc };
}

-- From the empty state, after any sequence of the methods by which clients' commands and
-- disconnections change it, in which requests are accepted by callers with a name, and without merges
-- and loaded snapshots: every group is stored under its id, is owned by a member unless it is empty,
-- and has only members and applicants with accounts; every listed file has a valid name and metadata;
-- hashes and piece counts agree; offline peers have no address.
pub run-empty_state-IsSound :
    (evp : Evp) (ops : List Operation) → All HasCaller ops → IsSound (run evp ops empty_state)
run-empty_state-IsSound evp ops h = run-IsSound evp ops empty_state h empty_state-IsSound
