-- ===== src/Tracker/Replication/Keeping.antt =====
-- What one state of the tracker has kept of another (src/tracker/tracker_state.h).
use peer_to_peer_file_sharin.Tracker.Replication.Union.{DescribedBy, seeded_by}
use peer_to_peer_file_sharin.Prelude.{ℕ, ◌≡◌, true, false, some}
use peer_to_peer_file_sharin.Bytes.{Bytes, is_empty}
use peer_to_peer_file_sharin.Container.Map.{Map, find}
use peer_to_peer_file_sharin.Container.NameSet.{NameSet}
use peer_to_peer_file_sharin.Tracker.State.{Peer, Group, FileMeta, TrackerState, in_names}
use peer_to_peer_file_sharin.Tracker.Operation.Membership.{
  member_of, applied_to, owned_by, in_group,
}
use peer_to_peer_file_sharin.Tracker.Operation.Soundness.Files.{lists}

-- What `t` has kept of `s`.
pub record Keeps (s t : TrackerState) : Type 0 where
  pub accounts : (n : Bytes) (p : Peer) → find n s.peers ≡ some p → find n t.peers ≡ some p
  pub members : (gid x : Bytes) → in_group gid x s ≡ true → in_group gid x t ≡ true
  pub applicants :
      (gid x : Bytes)
      → applied_to x (find gid s.groups) ≡ true
      → applied_to x (find gid t.groups) ≡ true
  pub owners :
      (gid x : Bytes)
      → is_empty x ≡ false
      → owned_by x (find gid s.groups) ≡ true
      → owned_by x (find gid t.groups) ≡ true
  pub listed : (gid n : Bytes) → lists gid n s ≡ true → lists gid n t ≡ true
  pub described :
      (key : Bytes) (f : FileMeta)
      → DescribedBy f (find key s.files)
      → DescribedBy f (find key t.files)
  pub seeders :
      (key x : Bytes)
      → seeded_by x (find key s.files) ≡ true
      → seeded_by x (find key t.files) ≡ true

pub Keeps-refl : (s : TrackerState) → Keeps s s
Keeps-refl s = record {
  accounts = λ n p e. e;
  members = λ gid x e. e;
  applicants = λ gid x e. e;
  owners = λ gid x r e. e;
  listed = λ gid n e. e;
  described = λ key f e. e;
  seeders = λ key x e. e;
}

pub Keeps-trans : {s t u : TrackerState} → Keeps s t → Keeps t u → Keeps s u
Keeps-trans a b = record {
  accounts = λ n p e. b.accounts n p (a.accounts n p e);
  members = λ gid x e. b.members gid x (a.members gid x e);
  applicants = λ gid x e. b.applicants gid x (a.applicants gid x e);
  owners = λ gid x r e. b.owners gid x r (a.owners gid x r e);
  listed = λ gid n e. b.listed gid n (a.listed gid n e);
  described = λ key f e. b.described key f (a.described key f e);
  seeders = λ key x e. b.seeders key x (a.seeders key x e);
}

-- The version counter is none of what is kept.
pub Keeps-version :
    (s t : TrackerState) (version : ℕ) → Keeps s t → Keeps s (record t { version = version })
Keeps-version s t version k = record {
  accounts = k.accounts;
  members = k.members;
  applicants = k.applicants;
  owners = k.owners;
  listed = k.listed;
  described = k.described;
  seeders = k.seeders;
}

-- A change of one part of the state that keeps what that part holds.
module _ (s : TrackerState) where
  pub peers-Keeps :
      (peers : Map Peer)
      → ((n : Bytes) (p : Peer) → find n s.peers ≡ some p → find n peers ≡ some p)
      → Keeps s (record s { peers = peers })
  peers-Keeps peers h = record {
    accounts = h;
    members = λ gid x e. e;
    applicants = λ gid x e. e;
    owners = λ gid x r e. e;
    listed = λ gid n e. e;
    described = λ key f e. e;
    seeders = λ key x e. e;
  }

  pub groups-Keeps :
      (groups : Map Group)
      → ((gid x : Bytes) → in_group gid x s ≡ true → member_of x (find gid groups) ≡ true)
      → ((gid x : Bytes)
          → applied_to x (find gid s.groups) ≡ true
          → applied_to x (find gid groups) ≡ true)
      → ((gid x : Bytes)
          → is_empty x ≡ false
          → owned_by x (find gid s.groups) ≡ true
          → owned_by x (find gid groups) ≡ true)
      → Keeps s (record s { groups = groups })
  groups-Keeps groups m a o = record {
    accounts = λ n p e. e;
    members = m;
    applicants = a;
    owners = o;
    listed = λ gid n e. e;
    described = λ key f e. e;
    seeders = λ key x e. e;
  }

  pub files-Keeps :
      (files : Map FileMeta)
      → ((key : Bytes) (f : FileMeta)
          → DescribedBy f (find key s.files)
          → DescribedBy f (find key files))
      → ((key x : Bytes)
          → seeded_by x (find key s.files) ≡ true
          → seeded_by x (find key files) ≡ true)
      → Keeps s (record s { files = files })
  files-Keeps files d h = record {
    accounts = λ n p e. e;
    members = λ gid x e. e;
    applicants = λ gid x e. e;
    owners = λ gid x r e. e;
    listed = λ gid n e. e;
    described = d;
    seeders = h;
  }

  pub lists-Keeps :
      (names : Map NameSet)
      → ((gid n : Bytes) → lists gid n s ≡ true → in_names (find gid names) n ≡ true)
      → Keeps s (record s { group_files = names })
  lists-Keeps names l = record {
    accounts = λ n p e. e;
    members = λ gid x e. e;
    applicants = λ gid x e. e;
    owners = λ gid x r e. e;
    listed = l;
    described = λ key f e. e;
    seeders = λ key x e. e;
  }
