-- ===== src/Client/Downloader/Run/Completion.antt =====
-- What a download of src/client/downloader.cpp leaves behind when all its pieces are completed.
use peer_to_peer_file_sharin.Prelude.{
  ℕ, suc, ◌-◌, ◌<◌, ◌≡◌, ◌≢◌, refl, ap, sym, ◌∙◌, true, List, some, length, get_elem?, arith, All,
}
use mathlib.Core.Path.{subst}
use peer_to_peer_file_sharin.Bytes.{Bytes, ==_refl}
use peer_to_peer_file_sharin.Container.Map.{find, assign, find-assign}
use peer_to_peer_file_sharin.Common.Hash.{Evp}
use peer_to_peer_file_sharin.Client.Downloader.Reply.{Reply}
use peer_to_peer_file_sharin.Client.Downloader.Pool.{
  Pool, Plan, turns, spawn, num_workers, unfinished,
}
use peer_to_peer_file_sharin.Client.Downloader.Pool.Visits.{NoCollision}
use peer_to_peer_file_sharin.Client.Downloader.Pool.Integrity.{IsSound, turns-IsSound}
use peer_to_peer_file_sharin.Client.Downloader.Pool.Accounting.{settled, turns-Keeps}
use peer_to_peer_file_sharin.Client.Downloader.Pool.Settlement.{AllReturned, turns-settled_in}
use peer_to_peer_file_sharin.Client.Downloader.Pool.Statuses.{Place, own, table, statuses}
use peer_to_peer_file_sharin.Client.Downloader.Pool.Writes.{Right}
use peer_to_peer_file_sharin.Client.Downloader.Run.{
  Client, Course, statefile, tracked, first_pool, transfer,
}
use peer_to_peer_file_sharin.Client.Downloader.Run.Assembly.{
  Describes, Ready, Shares, num_workers-some, settled-two, verify-Shares, assembled,
  all_completed-table, spawn-idle, last_round,
}

module _ (evp : Evp) (token gid fname path : Bytes) (r : Reply) (file : Bytes) where
  module _ (course : Course) (sts : List ℕ) (output : Bytes) (c : Client)
      (d : Describes evp token gid fname path r file)
      (ready : Ready evp token gid fname path r file sts output) where
    abbrev workers : ℕ
    workers = num_workers r.num_pieces (length r.peerlist)

    workers-suc : workers ≡ suc (workers - 1)
    workers-suc = omega (arith, num_workers-some r.num_pieces (length r.peerlist) d.peers)

    abbrev start : Pool
    start =
        first_pool fname sts (assign fname (tracked gid fname path r sts) c.downloads) output
          (find (statefile path) c.disk)

    abbrev plan : Plan
    plan = record { fname = fname; piece_hashes = r.piece_hashes }

    listed-start : statuses fname table start ≡ sts
    listed-start = rw (find-assign, ==_refl fname) refl

    round-settled :
        AllReturned (last_round evp token gid fname path r file course sts output c).0
        → (i : ℕ) → i < r.num_pieces
        → settled (
            get_elem?
              (statuses fname table
                (last_round evp token gid fname path r file course sts output c).1)
              i)
          ≡ true
    round-settled returned i l = rw workers-suc (
        turns-settled_in evp plan table course.schedule (workers - 1) r.peerlist start
          (ap (unfinished 0) (sym listed-start)) (rw (← workers-suc) returned) i
          (omega (arith, l, ready.counted, ap length listed-start)))

    round-counted :
        length
          (statuses fname table (last_round evp token gid fname path r file course sts output c).1)
        ≡ r.num_pieces
    round-counted =
        (turns-Keeps evp plan 0 table course.schedule (spawn 0 workers r.peerlist) start).total
        ∙ ap length listed-start
        ∙ ready.counted

    Right-at :
        (v : Place) (i : ℕ) → get_elem? (statuses fname v start) i ≡ some 2 → Right file output i
    Right-at own i e = ready.right i e
    Right-at table i e = ready.right i (ap (λ xs. get_elem? xs i) (sym listed-start) ∙ e)

    round-IsSound :
        All (λ s. NoCollision file evp s.1) course.schedule
        → IsSound file evp fname
            (last_round evp token gid fname path r file course sts output c).0
            (last_round evp token gid fname path r file course sts output c).1
    round-IsSound unique =
        subst
          (λ hs.
            let q =
              turns evp (record { fname = fname; piece_hashes = hs }) course.schedule
                (spawn 0 workers r.peerlist) start in
            IsSound file evp fname q.0 q.1)
          (sym d.all_hashes)
          (turns-IsSound file evp fname course.schedule (spawn 0 workers r.peerlist) start unique
            (record {
              sized = ready.sized;
              right = Right-at;
              in_place = spawn-idle evp token gid fname path r file 0 workers output;
            }))

    -- A download of a file that was uploaded, from a state in which what counts as completed is in
    -- place: if no payload collides with a piece, all workers return, no piece is marked as failed in
    -- the table of downloads and the output file can be read, then the output file is that file and
    -- is shared under its name; the tracker is told with the token of that moment, if that request
    -- goes out and is answered, and the sidecar is gone, if it can be removed.
    pub transfer-Shares :
        All (λ s. NoCollision file evp s.1) course.schedule
        → course.reads ≡ true
        → AllReturned (last_round evp token gid fname path r file course sts output c).0
        → ((i : ℕ)
            → get_elem?
                (statuses fname table
                  (last_round evp token gid fname path r file course sts output c).1)
                i
              ≢ some 3)
        → Shares evp token gid fname path r file course
            (last_round evp token gid fname path r file course sts output c).1
            c
            (transfer evp token gid fname course path r sts output c)
    unfolding transfer
    transfer-Shares unique reads returned none_failed =
        let q = (last_round evp token gid fname path r file course sts output c).1 in
        verify-Shares evp token gid fname path r file course q c reads d.whole_hash
          (all_completed-table evp token gid fname path r file q round-counted
            (round-settled returned) none_failed)
          (assembled evp token gid fname path r file
            (last_round evp token gid fname path r file course sts output c).0 q d.count
            (round-IsSound unique)
            (λ i l.
              settled-two (get_elem? (statuses fname table q) i) (round-settled returned i l)
                (none_failed i)))
