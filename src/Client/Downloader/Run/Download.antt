-- ===== src/Client/Downloader/Run/Download.antt =====
-- `run` of src/client/downloader.cpp from the tracker's description of a file to the shared copy.
use peer_to_peer_file_sharin.Prelude.{
  ℕ, zero, suc, ◌-◌, ◌<◌, ◌≡◌, ◌≢◌, refl, ap, ◌∙◌, Bool, if◌then◌else◌, true, false, List, [], ◌∷◌,
  ◌++◌, none, some, nat_eq, lt→ltb, length, get_elem?, All, pos, arith,
}
use peer_to_peer_file_sharin.Bytes.{Bytes}
use peer_to_peer_file_sharin.Container.Map.{Map, find}
use peer_to_peer_file_sharin.Common.Hash.{Evp, sha1_hex, sha1_file_pieces}
use peer_to_peer_file_sharin.Tracker.State.{Peer, FileMeta, metadata}
use peer_to_peer_file_sharin.Client.Downloader.Info.{mark_inactive}
use peer_to_peer_file_sharin.Client.Downloader.Reply.{Reply, parsed, parse_reply}
use peer_to_peer_file_sharin.Client.Downloader.Reply.RoundTrip.{IsReadable, parse_reply-metadata}
use peer_to_peer_file_sharin.Client.Downloader.Reply.Seeders.{online_seeders}
use peer_to_peer_file_sharin.Client.Downloader.Storage.{
  Preparing, open_output, preallocate, load_state, read_states,
}
use peer_to_peer_file_sharin.Client.Downloader.Storage.Bytewise.{length-write_at}
use peer_to_peer_file_sharin.Client.Downloader.Pool.Visits.{NoCollision, hashes}
use peer_to_peer_file_sharin.Client.Downloader.Pool.{Worker, Pool}
use peer_to_peer_file_sharin.Client.Downloader.Pool.Settlement.{AllReturned}
use peer_to_peer_file_sharin.Client.TrackerClient.{or_empty}
use peer_to_peer_file_sharin.Client.Downloader.Pool.Statuses.{table, statuses}
use peer_to_peer_file_sharin.Client.Downloader.Run.{
  Client, Course, fullout, statefile, download_request, downloaded_notice, sent_if, is_some,
  transfer, opened, with_peers, understood, guarded, run, readable,
}
use peer_to_peer_file_sharin.Client.Downloader.Run.Assembly.{Describes, Ready, Shares, last_round}
use peer_to_peer_file_sharin.Client.Downloader.Run.Completion.{transfer-Shares}

-- With no sidecar every piece is pending.
length-read_states : (n : ℕ) → length (read_states n []) ≡ n
unfolding read_states
length-read_states zero = refl
length-read_states (suc n) = ap suc (length-read_states n)

read_states-pending : (n i : ℕ) → get_elem? (read_states n []) i ≢ some 2
unfolding read_states
read_states-pending zero i e = cc
read_states-pending (suc n) zero e = ground (arith, e)
read_states-pending (suc n) (suc i) e = read_states-pending n i e

-- Every call on the output file succeeds.
pub record Smooth (p : Preparing) : Type 0 where
  pub creates : p.creates ≡ true
  pub seeks : p.seeks ≡ true
  pub puts : p.puts ≡ true
  pub flushes : p.flushes ≡ true

length-preallocate :
    (p : Preparing) (size : ℕ)
    → Smooth p
    → 0 < size
    → (length (preallocate p (pos size) []).0 ≡ size) × ((preallocate p (pos size) []).1 ≡ true)
unfolding preallocate
length-preallocate p size s h =
    rw (lt→ltb 0 size h, s.seeks, s.puts, s.flushes)
      (ground (arith, h, length-write_at (size - 1) (0 ∷ []) []), refl)

-- The steps up to the transfer.
with_peers-parts :
    (evp : Evp) (token gid fname : Bytes) (course : Course) (path : Bytes) (r : Reply) (c : Client)
    (old output : Bytes)
    → nat_eq (length r.peerlist) 0 ≡ false
    → open_output course.preparing (find path c.disk) ≡ some old
    → preallocate course.preparing r.size old ≡ (output, true)
    → with_peers evp token gid fname course path r c
      ≡ transfer evp token gid fname course path r
          (load_state r.num_pieces (readable course.resumes (find (statefile path) c.disk)))
          output
          c
unfolding with_peers
with_peers-parts evp token gid fname course path r c old output e f g = rw (e, f, opened, g) refl

module _ (evp : Evp) (token gid fname destpath file : Bytes) (fm : FileMeta)
    (peers : Map Peer) where
  abbrev pub target : Bytes
  target = fullout destpath fname

  -- The tracker's entry is that of the file, and some seeder is online.
  pub record IsEntry : Type 0 where
    pub readable_text : IsReadable fname fm peers
    pub size : fm.size ≡ length file
    pub nonempty : 0 < length file
    pub all_hashes : fm.piece_hashes ≡ hashes file evp
    pub count : fm.num_pieces ≡ (sha1_file_pieces evp (some file)).1
    pub whole_hash : fm.fullhash ≡ sha1_hex evp file
    pub online : 0 < length (online_seeders fm.peers peers)

  abbrev pub reply : Reply
  reply = record {
    size = pos fm.size;
    fullhash = fm.fullhash;
    num_pieces = fm.num_pieces;
    piece_hashes = fm.piece_hashes;
    peerlist = online_seeders fm.peers peers;
  }

  abbrev pub first_statuses : List ℕ
  first_statuses = load_state fm.num_pieces none

  abbrev pub blank : Course → Bytes
  blank course = (preallocate course.preparing (pos fm.size) []).0

  -- The client when the request has been sent.
  abbrev pub asking : Client → Client
  asking c = record c { sent = c.sent ++ download_request token gid fname ∷ [] }

  -- The workers and the pool at the end of the course of a first download.
  abbrev pub ended : Course → Client → List Worker × Pool
  ended course c =
      last_round evp token gid fname target reply file course first_statuses (blank course)
        (asking c)

  fresh-Ready :
      (course : Course)
      → IsEntry
      → Smooth course.preparing
      → Ready evp token gid fname target reply file first_statuses (blank course)
  unfolding load_state
  fresh-Ready course e s = record {
    sized =
        (length-preallocate course.preparing fm.size s (omega (arith, e.nonempty, e.size))).0
        ∙ e.size;
    counted = length-read_states fm.num_pieces;
    right = λ i two. absurd (read_states-pending fm.num_pieces i two);
  }

  entry-Describes : IsEntry → Describes evp token gid fname target reply file
  entry-Describes e = record {
    all_hashes = e.all_hashes;
    count = e.count;
    whole_hash = e.whole_hash;
    peers = e.online;
  }

  -- From nothing on the disk, the run goes on to the transfer.
  with_peers-transfer :
      (course : Course) (c : Client)
      → IsEntry
      → Smooth course.preparing
      → find target c.disk ≡ none
      → find (statefile target) c.disk ≡ none
      → with_peers evp token gid fname course target reply c
        ≡ transfer evp token gid fname course target reply first_statuses (blank course) c
  with_peers-transfer course c e s no_file no_sidecar =
      with_peers-parts evp token gid fname course target reply c [] (blank course)
        (some_peer (length (online_seeders fm.peers peers)) e.online)
        (ap (open_output course.preparing) no_file ∙ created course.preparing s)
        (whole (preallocate course.preparing (pos fm.size) [])
          (length-preallocate course.preparing fm.size s (omega (arith, e.nonempty, e.size))).1)
      ∙ ap
          (λ o.
            transfer evp token gid fname course target reply (load_state fm.num_pieces o)
              (blank course) c)
          (ap (readable course.resumes) no_sidecar ∙ nothing course.resumes)
    where
      some_peer : (n : ℕ) → 0 < n → nat_eq n 0 ≡ false
      some_peer n h = ground (arith, h)

      created : (p : Preparing) → Smooth p → open_output p none ≡ some []
      created p h = unfold open_output in rw h.creates refl

      whole : (r : Bytes × Bool) → r.1 ≡ true → r ≡ (r.0, true)
      whole r h = ap (λ b. (r.0, b)) h

      nothing : (b : Bool) → readable b none ≡ none
      nothing true = refl
      nothing false = refl

  run-parsed :
      (course : Course) (c : Client) (text : Bytes) (r : Reply)
      → course.answer ≡ some text
      → parse_reply text ≡ parsed r
      → run evp token gid fname destpath course c
        ≡ guarded evp token gid fname
            (some (with_peers evp token gid fname course target r (asking c)))
  unfolding run or_empty
  run-parsed course c text r e parsed_as =
      ap
        (λ o. guarded evp token gid fname (
          understood evp token gid fname course target (parse_reply (or_empty o))
            (record c { sent = c.sent ++ sent_if (is_some o) (download_request token gid fname) })))
        e
      ∙ ap
          (λ pr.
            guarded evp token gid fname
              (understood evp token gid fname course target pr (asking c)))
          parsed_as

  -- What a successful download leaves of the client.
  pub record Downloads (course : Course) (before : Client) (after : Client) : Type 0 where
    pub content : find target after.disk ≡ some file
    pub shared : find fname after.registry ≡ some target
    pub told :
        after.sent
        ≡ (before.sent ++ download_request token gid fname ∷ [])
          ++ sent_if course.tells (downloaded_notice course.last_token gid fname)
    pub sidecar :
        find (statefile target) after.disk
        ≡ (if course.removes then none else (ended course before).1.sidecar)

  guarded-Downloads :
      (course : Course) (before c : Client)
      → Shares evp token gid fname target reply file course
          (ended course before).1
          (asking before)
          c
      → (after : Client) × (guarded evp token gid fname (some c) ≡ some after)
        × Downloads course before after
  unfolding guarded
  guarded-Downloads course before c s = (
    record c { downloads = mark_inactive fname c.downloads },
    refl,
    record { content = s.content; shared = s.shared; told = s.told; sidecar = s.sidecar },
  )

  run-transfer :
      (course : Course) (c : Client)
      → IsEntry
      → Smooth course.preparing
      → course.answer ≡ some (metadata fname fm peers)
      → find target c.disk ≡ none
      → find (statefile target) c.disk ≡ none
      → run evp token gid fname destpath course c
        ≡ guarded evp token gid fname (
            some (
              transfer evp token gid fname course target reply first_statuses
                (blank course)
                (asking c)))
  run-transfer course c e s answer no_file no_sidecar =
      run-parsed course c (metadata fname fm peers) reply answer
        (parse_reply-metadata fname fm peers e.readable_text)
      ∙ ap (λ k. guarded evp token gid fname (some k))
          (with_peers-transfer course (asking c) e s no_file no_sidecar)

  -- A download of a file that is not empty and of which nothing is on the disk yet, whose
  -- description, of words and numbers in range, the tracker gave and of which a seeder is online:
  -- if the calls that create the output file and the final reading of it succeed, no payload has
  -- the hash of a piece that it is not, all workers have returned and no piece is marked as failed
  -- in the table of downloads, then the run returns, the output file is that file and is shared
  -- under its name; the tracker has been asked, and told with the token of that moment if that
  -- request goes out and is answered, and there is no sidecar, if it can be removed.
  pub run-Downloads :
      (course : Course) (before : Client)
      → IsEntry
      → Smooth course.preparing
      → course.reads ≡ true
      → course.answer ≡ some (metadata fname fm peers)
      → find target before.disk ≡ none
      → find (statefile target) before.disk ≡ none
      → All (λ s. NoCollision file evp s.1) course.schedule
      → AllReturned (ended course before).0
      → ((i : ℕ) → get_elem? (statuses fname table (ended course before).1) i ≢ some 3)
      → (after : Client) × (run evp token gid fname destpath course before ≡ some after)
        × Downloads course before after
  run-Downloads course before e s reads answer no_file no_sidecar unique returned ok =
      let g =
        guarded-Downloads course before
          (transfer evp token gid fname course target reply first_statuses (blank course)
            (asking before))
          (transfer-Shares evp token gid fname target reply file course first_statuses
            (blank course) (asking before) (entry-Describes e) (fresh-Ready course e s) unique reads
            returned ok) in
      (g.0, run-transfer course before e s answer no_file no_sidecar ∙ g.1, g.2)
