-- ===== src/Client/Downloader/Run.antt =====
-- `run` of src/client/downloader.cpp as a whole: from the tracker's answer over the files and the
-- workers to the final check. `none` stands for the end of the process by an uncaught exception.
pub mod Assembly
pub mod Completion
pub mod Download
pub mod Retry
use peer_to_peer_file_sharin.Prelude.{
  ℕ, Bool, true, false, not, ◌&&◌, List, [], ◌∷◌, ◌++◌, Option, none, some, nat_eq, if◌then◌else◌,
  length, take,
}
use peer_to_peer_file_sharin.Bytes.{Bytes, lit, ◌==◌}
use peer_to_peer_file_sharin.Container.Map.{Map, find, assign, erase}
use peer_to_peer_file_sharin.Common.Hash.{Evp, sha1_file_hex}
use peer_to_peer_file_sharin.Client.UploadRegistry.{UploadRegistry, add}
use peer_to_peer_file_sharin.Client.PeerServer.{Disk}
use peer_to_peer_file_sharin.Client.TrackerClient.{or_empty}
use peer_to_peer_file_sharin.Client.Downloader.Info.{
  DownloadInfo, update, deactivate, mark_inactive,
}
use peer_to_peer_file_sharin.Client.Downloader.Reply.{
  Reply, Parsed, no_file, crash, parsed, parse_reply,
}
use peer_to_peer_file_sharin.Client.Downloader.Storage.{
  Preparing, open_output, preallocate, load_state,
}
use peer_to_peer_file_sharin.Client.Downloader.Fetch.{Turn}
use peer_to_peer_file_sharin.Client.Downloader.Pool.{
  Pool, save_state, spawn, num_workers, unfinished, turns,
}

-- What a download reads and changes of the client: the shared files, the table of downloads, the
-- disk, and the requests that the tracker has answered.
pub record Client : Type 0 where
  pub registry : UploadRegistry
  pub downloads : Map DownloadInfo
  pub disk : Disk
  pub sent : List Bytes

-- What the surroundings do in a run: the tracker's answer, if the request went out and one came; the
-- calls on the output file, whether the sidecar can be read, the turns of the workers; and at the
-- end whether the output file can be read and the sidecar written, which token the client has by
-- then, whether the notice goes out and is answered, and whether the sidecar can be removed.
pub record Course : Type 0 where
  pub answer : Option Bytes
  pub preparing : Preparing
  pub resumes : Bool
  pub schedule : List (ℕ × Turn)
  pub reads : Bool
  pub saves : Bool
  pub last_token : Bytes
  pub tells : Bool
  pub removes : Bool

-- destpath.back() != '/'
unfoldable pub ends_with_slash : Bytes → Bool
ends_with_slash [] = false
ends_with_slash (c ∷ []) = nat_eq c b'/'
ends_with_slash (c ∷ d ∷ s) = ends_with_slash (d ∷ s)

unfoldable pub fullout : Bytes → Bytes → Bytes
unfolding ends_with_slash
fullout destpath fname =
    (if ends_with_slash destpath then destpath else destpath ++ b'/' ∷ []) ++ fname

unfoldable pub statefile : Bytes → Bytes
unfolding lit
statefile path = path ++ lit ".downloading"

unfoldable pub download_request : Bytes → Bytes → Bytes → Bytes
unfolding lit
download_request token gid fname = lit "download_file " ++ (token ++ b' ' ∷ (gid ++ b' ' ∷ fname))

unfoldable pub downloaded_notice : Bytes → Bytes → Bytes → Bytes
unfolding lit
downloaded_notice token gid fname =
    lit "file_downloaded " ++ (token ++ b' ' ∷ (gid ++ b' ' ∷ fname))

unfoldable pub all_two : List ℕ → Bool
all_two [] = true
all_two (st ∷ sts) = nat_eq st 2 && all_two sts

unfoldable pub all_completed : ℕ → Option DownloadInfo → Bool
unfolding all_two
all_completed n none = true
all_completed n (some info) = all_two (take n info.piece_status)

-- The entry that the run registers.
abbrev pub tracked : Bytes → Bytes → Bytes → Reply → List ℕ → DownloadInfo
tracked gid fname path r statuses = record {
  group_id = gid;
  filename = fname;
  dest_path = path;
  total_size = r.size;
  total_pieces = r.num_pieces;
  completed_pieces = 0;
  piece_status = statuses;
  piece_hashes = r.piece_hashes;
  full_hash = r.fullhash;
  is_active = true;
}

-- What the workers start from.
abbrev pub first_pool : Bytes → List ℕ → Map DownloadInfo → Bytes → Option Bytes → Pool
first_pool fname statuses downloads output sidecar = record {
  pending = unfinished 0 statuses;
  piece_status = statuses;
  completed_count = 0;
  downloads = downloads;
  output = output;
  sidecar = sidecar;
}

-- The file under a path is the text, or is not there.
unfoldable pub put_file : Bytes → Option Bytes → Disk → Disk
put_file path none disk = erase path disk
put_file path (some s) disk = assign path s disk

abbrev pub readable : Bool → Option Bytes → Option Bytes
readable true s = s
readable false s = none

abbrev pub store_files : Bytes → Pool → Disk → Disk
store_files path q disk = put_file (statefile path) q.sidecar (assign path q.output disk)

abbrev pub is_some : Option Bytes → Bool
is_some none = false
is_some (some s) = true

-- A request, if it went out and was answered.
abbrev pub sent_if : Bool → Bytes → List Bytes
sent_if true msg = msg ∷ []
sent_if false msg = []

abbrev pub asked : Course → Bytes → List Bytes
asked course msg = sent_if (is_some course.answer) msg

module _ (evp : Evp) (token gid fname : Bytes) where
  -- The return after an incomplete download or a mismatch: inactive, and the sidecar written.
  unfoldable pub give_up : Bool → Bytes → Pool → Client → Client
  unfolding save_state put_file update
  give_up saves path p c =
      let q = save_state saves p in
      record c { downloads = update fname deactivate q.downloads; disk = store_files path q c.disk }

  -- The file is shared, the tracker told with the token of that moment, and the sidecar removed, as
  -- far as these calls succeed.
  unfoldable pub succeed : Course → Bytes → Pool → Client → Client
  unfolding put_file update downloaded_notice add
  succeed course path p c =
      let files : Disk = store_files path p c.disk in
      record c {
        registry = add fname path c.registry;
        downloads = update fname deactivate p.downloads;
        disk = if course.removes then erase (statefile path) files else files;
        sent = c.sent ++ sent_if course.tells (downloaded_notice course.last_token gid fname);
      }

  -- The verification when all workers have returned.
  unfoldable pub verify : Course → Bytes → Reply → Pool → Client → Client
  unfolding give_up succeed all_completed sha1_file_hex
  verify course path r p c =
      if not (all_completed r.num_pieces (find fname p.downloads))
      then give_up course.saves path p c
      else if sha1_file_hex evp (readable course.reads (some p.output)) == r.fullhash
      then succeed course path p c
      else give_up course.saves path p c

  unfoldable pub transfer : Course → Bytes → Reply → List ℕ → Bytes → Client → Client
  unfolding verify turns spawn num_workers
  transfer course path r statuses output c =
      let p =
        (turns evp (record { fname = fname; piece_hashes = r.piece_hashes }) course.schedule
          (spawn 0 (num_workers r.num_pieces (length r.peerlist)) r.peerlist)
          (first_pool fname statuses (assign fname (tracked gid fname path r statuses) c.downloads)
            output (find (statefile path) c.disk))).1 in
      verify course path r p c

  -- The output file is brought to its size, and the download goes on if that worked.
  unfoldable pub prepared : Course → Bytes → Reply → Bytes × Bool → Client → Client
  unfolding transfer
  prepared course path r (output, proceeds) c =
      if not proceeds
      then record c { disk = assign path output c.disk }
      else transfer course path r
          (load_state r.num_pieces (readable course.resumes (find (statefile path) c.disk))) output
          c

  unfoldable pub opened : Course → Bytes → Reply → Option Bytes → Client → Client
  unfolding prepared
  opened course path r none c = c
  opened course path r (some output) c =
      prepared course path r (preallocate course.preparing r.size output) c

  unfoldable pub with_peers : Course → Bytes → Reply → Client → Client
  unfolding opened
  with_peers course path r c =
      if nat_eq (length r.peerlist) 0
      then c
      else opened course path r (open_output course.preparing (find path c.disk)) c

  unfoldable pub understood : Course → Bytes → Parsed → Client → Option Client
  unfolding with_peers
  understood course path no_file c = some c
  understood course path crash c = none
  understood course path (parsed r) c = some (with_peers course path r c)

  -- Each return clears the active flag.
  unfoldable pub guarded : Option Client → Option Client
  unfolding mark_inactive
  guarded none = none
  guarded (some c) = some (record c { downloads = mark_inactive fname c.downloads })

  unfoldable pub run : Bytes → Course → Client → Option Client
  unfolding guarded understood open_output preallocate load_state parse_reply or_empty fullout
      download_request
  run destpath course c = guarded (
      understood course (fullout destpath fname) (parse_reply (or_empty course.answer))
        (record c { sent = c.sent ++ asked course (download_request token gid fname) }))
