-- ===== src/Tracker/Persistence/Snapshot.antt =====
-- `save_snapshot` and `load_snapshot` of src/tracker/persistence.cpp over a file system that maps
-- a path to the bytes stored there. Which of the calls succeed is an argument.
use peer_to_peer_file_sharin.Prelude.{
  Bool, true, false, not, ◌++◌, Option, none, some, if◌then◌else◌,
}
use peer_to_peer_file_sharin.Bytes.{Bytes, lit}
use peer_to_peer_file_sharin.Container.Map.{Map, find, assign, erase}
use peer_to_peer_file_sharin.Tracker.State.{TrackerState}
use peer_to_peer_file_sharin.Tracker.Persistence.Serialize.{serialize}
use peer_to_peer_file_sharin.Tracker.Persistence.Records.{apply_records_locked}

abbrev pub FileSystem : Type 0
FileSystem = Map Bytes

-- Whether the temporary file opens, takes all bytes, and is renamed; what it holds when a write
-- breaks off.
pub record Outcome : Type 0 where
  pub opens : Bool
  pub writes : Bool
  pub renames : Bool
  pub partial : Bytes

unfoldable pub tmp_path : Bytes → Bytes
unfolding lit
tmp_path path = path ++ lit ".tmp"

unfoldable pub save_snapshot : Outcome → Bytes → TrackerState → FileSystem → Bool × FileSystem
unfolding tmp_path serialize
save_snapshot o path s fs =
    if not o.opens
    then (false, fs)
    else if not o.writes
    then (false, erase (tmp_path path) (assign (tmp_path path) o.partial fs))
    else if not o.renames
    then (false, erase (tmp_path path) (assign (tmp_path path) (serialize s) fs))
    else (
      true,
      assign path (serialize s) (erase (tmp_path path) (assign (tmp_path path) (serialize s) fs)),
    )

unfoldable pub load_contents : Option Bytes → TrackerState → Bool × TrackerState
unfolding apply_records_locked
load_contents none s = (false, s)
load_contents (some text) s = let r = apply_records_locked text true s in (r.0, r.1.state)

unfoldable pub load_snapshot : Bytes → FileSystem → TrackerState → Bool × TrackerState
unfolding load_contents
load_snapshot path fs s = load_contents (find path fs) s
