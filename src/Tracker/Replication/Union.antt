-- ===== src/Tracker/Replication/Union.antt =====
-- The union of one group's or one file's record with what is known (src/tracker/persistence.cpp).
use peer_to_peer_file_sharin.Prelude.{◌≡◌, Bool, true, false, List, Option, none, some, arith}
use peer_to_peer_file_sharin.Bytes.{Bytes, ◌==◌, ==_iff, is_empty}
use peer_to_peer_file_sharin.Container.NameSet.{member, member-insert_all}
use peer_to_peer_file_sharin.Tracker.State.{Group, FileMeta}
use peer_to_peer_file_sharin.Tracker.Operation.Membership.{member_of, applied_to, owned_by}
use peer_to_peer_file_sharin.Tracker.Persistence.{union_group, union_file}

module _ (gid master : Bytes) (parts apps : List Bytes) (x : Bytes) where
  pub union_group-member :
      (o : Option Group)
      → member_of x o ≡ true
      → member x (union_group o gid master parts apps).0.participants ≡ true
  unfolding union_group
  union_group-member none h = cc
  union_group-member (some g) h = ground (arith, member-insert_all parts x g.participants)

  pub union_group-applied :
      (o : Option Group)
      → applied_to x o ≡ true
      → member x (union_group o gid master parts apps).0.applicants ≡ true
  unfolding union_group
  union_group-applied none h = cc
  union_group-applied (some g) h = ground (arith, member-insert_all apps x g.applicants)

  pub union_group-owner :
      (o : Option Group)
      → is_empty x ≡ false
      → owned_by x o ≡ true
      → ((union_group o gid master parts apps).0.groupmaster == x) ≡ true
  unfolding union_group
  union_group-owner none r h = cc
  union_group-owner (some g) r h = ground (arith, ==_iff g.groupmaster x)

-- The size, the hashes and the number of pieces of a file that is known.
abbrev pub DescribedBy : FileMeta → Option FileMeta → Type 0
DescribedBy f none = ⊥
DescribedBy f (some g) =
    (g.size ≡ f.size)
    × (g.fullhash ≡ f.fullhash)
    × (g.num_pieces ≡ f.num_pieces)
    × (g.piece_hashes ≡ f.piece_hashes)

abbrev pub seeded_by : Bytes → Option FileMeta → Bool
seeded_by x none = false
seeded_by x (some f) = member x f.peers

module _ (f : FileMeta) (names : List Bytes) where
  pub union_file-described :
      (o : Option FileMeta) (g : FileMeta)
      → DescribedBy g o
      → DescribedBy g (some (union_file o f names).0)
  unfolding union_file
  union_file-described none g h = absurd h
  union_file-described (some mine) g h = h

  pub union_file-seeder :
      (o : Option FileMeta) (x : Bytes)
      → seeded_by x o ≡ true
      → member x (union_file o f names).0.peers ≡ true
  unfolding union_file
  union_file-seeder none x h = cc
  union_file-seeder (some mine) x h = ground (arith, member-insert_all names x mine.peers)
