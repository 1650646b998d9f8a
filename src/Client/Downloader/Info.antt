-- ===== src/Client/Downloader/Info.antt =====
-- `DownloadInfo` and the table of downloads of src/client/downloader.h, with `start`,
-- `mark_inactive`, `snapshot` and `wait_all` of src/client/downloader.cpp. A thread that `start`
-- launches is the arguments that it runs `run` with.
use peer_to_peer_file_sharin.Prelude.{
  ℕ, Bool, true, false, List, [], ◌∷◌, ◌++◌, Option, none, some, if◌then◌else◌, ℤ, pos,
}
use peer_to_peer_file_sharin.Bytes.{Bytes}
use peer_to_peer_file_sharin.Container.Map.{Map, find, assign}

-- A piece's status is an int: 0 pending, 1 downloading, 2 completed, 3 failed; a sidecar may hold
-- any other. It is kept as the 32 bits of the int.
pub record DownloadInfo : Type 0 where
  pub group_id : Bytes
  pub filename : Bytes
  pub dest_path : Bytes
  pub total_size : ℤ
  pub total_pieces : ℕ
  pub completed_pieces : ℕ
  pub piece_status : List ℕ
  pub piece_hashes : List Bytes
  pub full_hash : Bytes
  pub is_active : Bool

-- The slot that `start` claims.
abbrev pub placeholder : Bytes → Bytes → DownloadInfo
placeholder gid fname = record {
  group_id = gid;
  filename = fname;
  dest_path = [];
  total_size = pos 0;
  total_pieces = 0;
  completed_pieces = 0;
  piece_status = [];
  piece_hashes = [];
  full_hash = [];
  is_active = true;
}

-- The arguments of a thread that runs `run`.
pub record Job : Type 0 where
  pub gid : Bytes
  pub fname : Bytes
  pub destpath : Bytes

pub record Downloader : Type 0 where
  pub downloads : Map DownloadInfo
  pub threads : List Job

-- auto it = downloads_.find(fname); if (it != downloads_.end()) it->second = f(it->second)
unfoldable pub update_found :
    Option DownloadInfo
    → Bytes
    → (DownloadInfo → DownloadInfo)
    → Map DownloadInfo
    → Map DownloadInfo
update_found none fname f m = m
update_found (some info) fname f m = assign fname (f info) m

unfoldable pub update : Bytes → (DownloadInfo → DownloadInfo) → Map DownloadInfo → Map DownloadInfo
unfolding update_found
update fname f m = update_found (find fname m) fname f m

abbrev pub deactivate : DownloadInfo → DownloadInfo
deactivate info = record info { is_active = false }

unfoldable pub mark_inactive : Bytes → Map DownloadInfo → Map DownloadInfo
unfolding update
mark_inactive fname m = update fname deactivate m

-- it != downloads_.end() && it->second.is_active
unfoldable pub is_running : Option DownloadInfo → Bool
is_running none = false
is_running (some info) = info.is_active

unfoldable pub start : Bytes → Bytes → Bytes → Downloader → Downloader × Bool
unfolding is_running
start gid fname destpath d = if is_running (find fname d.downloads) then (d, false) else (
  record {
    downloads = assign fname (placeholder gid fname) d.downloads;
    threads = d.threads ++ record { gid = gid; fname = fname; destpath = destpath } ∷ [];
  },
  true,
)

-- The threads to join, and none left.
unfoldable pub wait_all : Downloader → Downloader × List Job
wait_all d = (record d { threads = [] }, d.threads)

unfoldable pub values : Map DownloadInfo → List DownloadInfo
values [] = []
values ((k, info) ∷ m) = info ∷ values m

unfoldable pub snapshot : Downloader → List DownloadInfo
unfolding values
snapshot d = values d.downloads
