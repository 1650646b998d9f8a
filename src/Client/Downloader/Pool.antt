-- ===== src/Client/Downloader/Pool.antt =====
-- The worker threads of src/client/downloader.cpp. A worker's position in its loop is data, and
-- one turn of it is a step on what the workers share; a download is any sequence of turns of its
-- workers. A turn is one access to what the workers share: the queue, the table of downloads, the
-- run's own vector, the sidecar, the count, or a peer's visit with the output file.
pub mod Writes
pub mod Visits
pub mod Integrity
pub mod Statuses
pub mod Progress
pub mod Accounting
pub mod Settlement
pub mod Termination
use peer_to_peer_file_sharin.Prelude.{
  ℕ, zero, suc, ◌+◌, ◌%◌, Bool, List, [], ◌∷◌, ◌++◌, Option, some, ltb, nat_eq, if◌then◌else◌,
  length, take, drop, set,
}
use peer_to_peer_file_sharin.Bytes.{Bytes}
use peer_to_peer_file_sharin.Container.Map.{Map}
use peer_to_peer_file_sharin.Common.Hash.{Evp}
use peer_to_peer_file_sharin.Client.Downloader.Info.{DownloadInfo, update}
use peer_to_peer_file_sharin.Client.Downloader.Reply.{Seeder}
use peer_to_peer_file_sharin.Client.Downloader.Storage.{state_bytes}
use peer_to_peer_file_sharin.Client.Downloader.Fetch.{
  Turn, Outcome, skipped, refused, stored, visit,
}

-- The status that a worker gives its piece: 1, 2 or 3.
pub data Status : Type 0 where
  downloading completed failed : Status

abbrev pub code : Status → ℕ
code downloading = 1
code completed = 2
code failed = 3

-- Before a piece is taken; a piece with the attempts counted and the peers left of this pass; a
-- piece whose status is next to be put into the table of downloads, then into the run's own vector,
-- then saved; a piece that is next to be counted; and after the return.
pub data Position : Type 0 where
  idle finished : Position
  trying : ℕ → ℕ → List Seeder → Position
  listing writing saving : ℕ → Status → Position
  counting : ℕ → Position

-- peer_order, and where the worker is.
pub record Worker : Type 0 where
  pub order : List Seeder
  pub doing : Position

-- What the workers share: the queue, the statuses, the table of downloads, the output file and the
-- sidecar.
pub record Pool : Type 0 where
  pub pending : List ℕ
  pub piece_status : List ℕ
  pub completed_count : ℕ
  pub downloads : Map DownloadInfo
  pub output : Bytes
  pub sidecar : Option Bytes

-- What stays the same during a run.
pub record Plan : Type 0 where
  pub fname : Bytes
  pub piece_hashes : List Bytes

abbrev pub max_retries : ℕ
max_retries = 5

unfoldable pub save_state : Bool → Pool → Pool
unfolding state_bytes
save_state saves p = if saves then record p { sidecar = some (state_bytes p.piece_status) } else p

-- The update of the table's entry, under its mutex.
abbrev pub relisted : ℕ → Status → DownloadInfo → DownloadInfo
relisted index completed info = record info {
  piece_status = set info.piece_status index 2;
  completed_pieces = info.completed_pieces + 1;
}
relisted index st info = record info { piece_status = set info.piece_status index (code st) }

-- The piece at the front of the queue, or the return.
unfoldable pub take_piece : List ℕ → Pool → Position × Pool
take_piece [] p = (finished, p)
take_piece (i ∷ rest) p = (listing i downloading, record p { pending = rest })

-- The end of a pass: one more attempt, and the next pass or the end of the loop.
unfoldable pub end_pass : ℕ → ℕ → List Seeder → Position
end_pass index attempt order =
    if ltb (attempt + 1) max_retries then trying index (attempt + 1) order else listing index failed

unfoldable pub after_visit : ℕ → ℕ → List Seeder → Outcome → Pool → Position × Pool
after_visit index attempt rest skipped p = (trying index attempt rest, p)
after_visit index attempt rest (refused output) p =
    (trying index (attempt + 1) rest, record p { output = output })
after_visit index attempt rest (stored output) p =
    (listing index completed, record p { output = output })

-- Where the code goes on when the sidecar has been written.
unfoldable pub after_saving : List Seeder → ℕ → Status → Position
after_saving order index downloading = trying index 0 order
after_saving order index completed = counting index
after_saving order index failed = idle

module _ (evp : Evp) (plan : Plan) where
  unfoldable pub advance : List Seeder → Position → Turn → Pool → Position × Pool
  unfolding take_piece end_pass after_visit after_saving visit save_state update
  advance order idle t p = take_piece p.pending p
  advance order finished t p = (finished, p)
  advance order (trying i attempt []) t p = (end_pass i attempt order, p)
  advance order (trying i attempt (peer ∷ rest)) t p =
      after_visit i attempt rest (visit evp plan.fname plan.piece_hashes i peer t p.output) p
  advance order (listing i st) t p =
      (writing i st, record p { downloads = update plan.fname (relisted i st) p.downloads })
  advance order (writing i st) t p =
      (saving i st, record p { piece_status = set p.piece_status i (code st) })
  advance order (saving i st) t p = (after_saving order i st, save_state t.saves p)
  advance order (counting i) t p = (idle, record p { completed_count = p.completed_count + 1 })

  -- The turn of one worker.
  unfoldable pub turn : ℕ → Turn → List Worker → Pool → List Worker × Pool
  unfolding advance
  turn w t [] p = ([], p)
  turn zero t (worker ∷ workers) p =
      let r = advance worker.order worker.doing t p in
      (record worker { doing = r.0 } ∷ workers, r.1)
  turn (suc w) t (worker ∷ workers) p = let r = turn w t workers p in (worker ∷ r.0, r.1)

  -- Turns of the workers in some order.
  unfoldable pub turns : List (ℕ × Turn) → List Worker → Pool → List Worker × Pool
  unfolding turn
  turns [] workers p = (workers, p)
  turns ((w, t) ∷ schedule) workers p = let r = turn w t workers p in turns schedule r.0 r.1

-- rotate(begin, begin + worker_id % n, end)
unfoldable pub rotated : ℕ → List Seeder → List Seeder
rotated k peers = drop k peers ++ take k peers

unfoldable pub smaller : ℕ → ℕ → ℕ
smaller a b = if ltb b a then b else a

-- (num_pieces > 1000) ? min(4, n) : min(n, 8)
unfoldable pub num_workers : ℕ → ℕ → ℕ
unfolding smaller
num_workers num_pieces n = if ltb 1000 num_pieces then smaller 4 n else smaller n 8

-- `more` workers, the first with the number `id`.
unfoldable pub spawn : ℕ → ℕ → List Seeder → List Worker
unfolding rotated
spawn id zero peers = []
spawn id (suc more) peers =
    record { order = rotated (id % length peers) peers; doing = idle } ∷ spawn (id + 1) more peers

-- The pieces from `i` on that are not completed.
unfoldable pub unfinished : ℕ → List ℕ → List ℕ
unfinished i [] = []
unfinished i (st ∷ sts) =
    let rest = unfinished (i + 1) sts in if nat_eq st 2 then rest else i ∷ rest
