-- ===== src/Tracker/Recovery/Atomic.antt =====
-- `save_snapshot` of src/tracker/persistence.cpp is all or nothing.
use peer_to_peer_file_sharin.Prelude.{
  ◌≡◌, ap, false, some, length, length-append, arith, if◌then◌else◌,
}
use peer_to_peer_file_sharin.Bytes.{Bytes, lit, ◌==◌, ==_iff}
use peer_to_peer_file_sharin.Container.Map.{find, assign, erase, find-assign, find-erase}
use peer_to_peer_file_sharin.Tracker.State.{TrackerState}
use peer_to_peer_file_sharin.Tracker.Persistence.{
  serialize, Outcome, FileSystem, tmp_path, save_snapshot,
}

-- The temporary file is another file.
tmp_path-other : (path : Bytes) → (tmp_path path == path) ≡ false
unfolding tmp_path lit
tmp_path-other path =
    ground (arith, ==_iff (tmp_path path) path, length-append path (lit ".tmp"), same_length)
  where
    same_length : tmp_path path ≡ path → length (tmp_path path) ≡ length path
    same_length e = ap length e

-- Whichever of the calls of save_snapshot fail, the snapshot file is the new text if the result
-- is true and what it was before if the result is false.
pub save_snapshot-atomic :
    (o : Outcome) (path : Bytes) (s : TrackerState) (fs : FileSystem)
    → find path (save_snapshot o path s fs).1
      ≡ (if (save_snapshot o path s fs).0 then some (serialize s) else find path fs)
unfolding save_snapshot
save_snapshot-atomic o path s fs = ground (
  arith,
  tmp_path-other path,
  ==_iff (tmp_path path) path,
  find-assign (tmp_path path) path o.partial fs,
  find-assign (tmp_path path) path (serialize s) fs,
  find-erase (tmp_path path) path (assign (tmp_path path) o.partial fs),
  find-erase (tmp_path path) path (assign (tmp_path path) (serialize s) fs),
  find-assign path path (serialize s)
      (erase (tmp_path path) (assign (tmp_path path) (serialize s) fs)),
  ==_iff path path,
)
