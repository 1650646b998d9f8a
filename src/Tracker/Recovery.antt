-- ===== src/Tracker/Recovery.antt =====
-- A snapshot that was written is read back as the state that it was taken of, and writing one is
-- all or nothing (src/tracker/persistence.cpp).
pub mod Lines
mod Wire
mod Accounts
mod Groups
mod Files
pub mod Atomic
use Wire.{outcome, AllEntries, restored, section_read, apply_lines-cons}
use Accounts.{AccountIsGood, disconnected, account_kind}
use Groups.{GroupIsGood, group_kind}
use Atomic.{save_snapshot-atomic}
use Files.{FileIsGood, NamesAreGood, file_kind, names_kind}
use peer_to_peer_file_sharin.Prelude.{
  ℕ, suc, ◌+◌, ◌≡◌, refl, ap, ap₂, sym, ◌∙◌, Bool, true, false, not, ◌&&◌, List, [], ◌∷◌, ◌++◌,
  append-nil, Option, none, some, length, length-append, arith, if◌then◌else◌, Bool-cases, inl, inr,
}
use peer_to_peer_file_sharin.Bytes.Lines.{lines}
use peer_to_peer_file_sharin.Bytes.{Bytes, lit, ◌==◌, ==_iff, ==_refl, is_space}
use peer_to_peer_file_sharin.Container.Map.{Map, find, assign, erase, find-assign, find-erase}
use peer_to_peer_file_sharin.Container.Distinct.{Distinct, keys}
use peer_to_peer_file_sharin.Common.Message.{split_args}
use peer_to_peer_file_sharin.Tracker.State.{TrackerState, Peer, Group, FileMeta}
use peer_to_peer_file_sharin.Tracker.Persistence.{
  serialize, user_lines, group_records, file_records, group_file_records, Progress, apply_record,
  apply_lines, apply_records_locked, cleared, Outcome, FileSystem, tmp_path, save_snapshot,
  load_contents, load_snapshot,
}

-- A state that a snapshot can carry: no key twice, and every entry good.
pub record IsWritable (s : TrackerState) : Type 0 where
  pub peers-Distinct : Distinct (keys s.peers)
  pub groups-Distinct : Distinct (keys s.groups)
  pub files-Distinct : Distinct (keys s.files)
  pub names-Distinct : Distinct (keys s.group_files)
  pub accounts : AllEntries AccountIsGood s.peers
  pub groups : AllEntries GroupIsGood s.groups
  pub files : AllEntries FileIsGood s.files
  pub names : AllEntries NamesAreGood s.group_files

-- Every account without its connection.
abbrev pub offline : Map Peer → Map Peer
offline [] = []
offline ((name, p) ∷ m) = (name, disconnected p) ∷ offline m

restored-accounts : (s : TrackerState) (m : Map Peer) → restored (account_kind s) m ≡ offline m
unfolding account_kind
restored-accounts s [] = refl
restored-accounts s ((name, p) ∷ m) = ap (◌∷◌ (name, disconnected p)) (restored-accounts s m)

restored-groups : (s : TrackerState) (m : Map Group) → restored (group_kind s) m ≡ m
unfolding group_kind
restored-groups s [] = refl
restored-groups s ((k, g) ∷ m) = ap (◌∷◌ (k, g)) (restored-groups s m)

restored-files : (s : TrackerState) (m : Map FileMeta) → restored (file_kind s) m ≡ m
unfolding file_kind
restored-files s [] = refl
restored-files s ((k, f) ∷ m) = ap (◌∷◌ (k, f)) (restored-files s m)

-- The state that a snapshot of `s` leaves in a tracker whose state was `t`.
abbrev pub recovered : TrackerState → TrackerState → TrackerState
recovered s t = record {
  peers = offline s.peers;
  groups = s.groups;
  group_files = s.group_files;
  files = s.files;
  version = t.version;
}

restored-names : (s : TrackerState) (m : Map (List Bytes)) → restored (names_kind s) m ≡ m
unfolding names_kind
restored-names s [] = refl
restored-names s ((k, xs) ∷ m) = ap (◌∷◌ (k, xs)) (restored-names s m)

-- The sections of a snapshot.
abbrev sections : TrackerState → Bytes
sections s =
    user_lines s.peers
    ++ (group_records s.groups
        ++ (file_records s.files ++ (group_file_records s.group_files ++ [])))

sections_read :
    (s t : TrackerState) (q : Progress)
    → IsWritable s
    → q.state ≡ cleared t
    → outcome (apply_lines true (lines (sections s)) q) ≡ (true, recovered s t)
unfolding account_kind group_kind file_kind names_kind lines apply_lines
sections_read s t q w =
    section_read (account_kind s0) s.peers [] _ _ w.peers-Distinct w.accounts
      (section_read (group_kind s1) s.groups [] _ _ w.groups-Distinct w.groups (
        section_read (file_kind s2) s.files [] _ _ w.files-Distinct w.files (
          section_read (names_kind s3) s.group_files [] [] _ w.names-Distinct w.names
            (λ p e. ap (λ u. (true, u)) (e ∙ all)))))
      q
  where
    s0 : TrackerState
    s0 = cleared t

    s1 : TrackerState
    s1 = record s0 { peers = restored (account_kind s0) s.peers }

    s2 : TrackerState
    s2 = record s1 { groups = restored (group_kind s1) s.groups }

    s3 : TrackerState
    s3 = record s2 { files = restored (file_kind s2) s.files }

    all : record s3 { group_files = restored (names_kind s3) s.group_files } ≡ recovered s t
    all =
        rw
          (
            restored-accounts s0 s.peers,
            restored-groups s1 s.groups,
            restored-files s2 s.files,
            restored-names s3 s.group_files,
          )
          refl

-- The first line of a snapshot.
lines-serialize : (s : TrackerState) → lines (serialize s) ≡ lit "V 1" ∷ lines (sections s)
unfolding serialize lines lit
lines-serialize s = rw append-nil refl

version_line : (p : Progress) → apply_record true (split_args (lit "V 1")) p ≡ some p
unfolding apply_record split_args lit ◌==◌ is_space
version_line p = refl

-- A snapshot of a writable state, loaded: every account without its connection, every group, file
-- and listing as it was; the version stays the loading tracker's.
pub apply_records_locked-serialize :
    (s t : TrackerState)
    → IsWritable s
    → outcome (apply_records_locked (serialize s) true t) ≡ (true, recovered s t)
unfolding apply_records_locked
apply_records_locked-serialize s t w = rw (lines-serialize s) (
    ap outcome (apply_lines-cons (lit "V 1") (lines (sections s)) start start (version_line start))
    ∙ sections_read s t start w refl)
  where
    start : Progress
    start = record { state = cleared t; changed = false }

-- For a state whose keys are distinct and whose names, digests and lists are words within the
-- format's limits, and in which no group is owned by a user called -: if save_snapshot reports
-- success, load_snapshot of that file succeeds in any tracker and restores every group, file and
-- listing and every account without its connection, and leaves the loading tracker's version.
pub load_snapshot-save_snapshot :
    (o : Outcome) (path : Bytes) (s t : TrackerState) (fs : FileSystem)
    → IsWritable s
    → (save_snapshot o path s fs).0 ≡ true
    → load_snapshot path (save_snapshot o path s fs).1 t ≡ (true, recovered s t)
unfolding load_snapshot
load_snapshot-save_snapshot o path s t fs w e =
    rw (save_snapshot-atomic o path s fs, e) (apply_records_locked-serialize s t w)
