-- ===== src/Client/Downloader/Run/Assembly.antt =====
-- The end of `run` in src/client/downloader.cpp: a download whose pieces are all completed has put
-- the file together, and it is shared.
use peer_to_peer_file_sharin.Prelude.{
  ℕ, zero, suc, ◌+◌, ◌/◌, ◌<◌, ◌≡◌, ◌≢◌, refl, ap, ap₂, sym, ◌∙◌, Bool, if◌then◌else◌, true, false,
  List, [], ◌∷◌, ◌++◌, Option, none, some, length, length-append, take, get_elem?, arith, All,
  Bool-cases, inl, inr,
}
use mathlib.Core.Path.{subst}
use mathlib.Core.Option.{some-injective}
use peer_to_peer_file_sharin.Bytes.{Bytes, lit, ◌==◌, ==_refl, ==_iff}
use peer_to_peer_file_sharin.Container.Map.{Map, find, assign, erase, find-assign, find-erase}
use peer_to_peer_file_sharin.Common.Hash.{
  Evp, sha1_hex, sha1_file_hex, sha1_file_pieces, piece_size,
}
use peer_to_peer_file_sharin.Client.UploadRegistry.{add}
use peer_to_peer_file_sharin.Client.Downloader.Reply.{Reply}
use peer_to_peer_file_sharin.Client.Downloader.Pool.{
  Pool, Worker, turns, spawn, num_workers, smaller,
}
use peer_to_peer_file_sharin.Client.Downloader.Pool.Writes.{Right}
use peer_to_peer_file_sharin.Client.Downloader.Pool.Visits.{hashes, Stored}
use peer_to_peer_file_sharin.Client.Downloader.Pool.Integrity.{IsSound}
use peer_to_peer_file_sharin.Client.Downloader.Pool.Accounting.{settled}
use peer_to_peer_file_sharin.Client.Downloader.Pool.Statuses.{table, listed, statuses}
use peer_to_peer_file_sharin.Client.Downloader.Info.{DownloadInfo}
use peer_to_peer_file_sharin.Client.PeerServer.{Disk}
use peer_to_peer_file_sharin.Client.Downloader.Run.{
  Client, Course, statefile, downloaded_notice, all_two, all_completed, tracked, first_pool,
  put_file, succeed, verify, sent_if, store_files,
}

-- Texts of one length with the same bytes are the same.
bytewise :
    (s t : Bytes)
    → length s ≡ length t
    → ((k : ℕ) → k < length t → get_elem? s k ≡ get_elem? t k)
    → s ≡ t
bytewise [] [] l h = refl
bytewise [] (y ∷ t) l h = ground (arith, l)
bytewise (x ∷ s) [] l h = ground (arith, l)
bytewise (x ∷ s) (y ∷ t) l h =
    ap₂ ◌∷◌ (some-injective x y (h 0 (omega arith)))
      (bytewise s t (omega (arith, l)) (λ k b. h (suc k) (omega (arith, b))))

-- Statuses that are all settled, none of them as failed, are all completed.
all_two-settled :
    (n : ℕ) (sts : List ℕ)
    → length sts ≡ n
    → ((i : ℕ) → i < n → settled (get_elem? sts i) ≡ true)
    → ((i : ℕ) → get_elem? sts i ≢ some 3)
    → all_two (take n sts) ≡ true
unfolding all_two
all_two-settled zero sts l s f = refl
all_two-settled (suc n) [] l s f = refl
all_two-settled (suc n) (st ∷ sts) l s f = ground (
  arith,
  s 0 (omega arith),
  λ (e : st ≡ 3). f 0 (ap some e),
  all_two-settled n sts (omega (arith, l)) (λ i b. s (suc i) (omega (arith, b))) (λ i. f (suc i)),
)

pub settled-two : (o : Option ℕ) → settled o ≡ true → o ≢ some 3 → o ≡ some 2
settled-two none s f = cc
settled-two (some st) s f = ap some (ground (arith, s, λ (e : st ≡ 3). f (ap some e)))

pub num_workers-some : (n k : ℕ) → 0 < k → 0 < num_workers n k
unfolding num_workers smaller
num_workers-some n k h = ground arith

-- The sidecar's path is another one.
path-other : (path : Bytes) → (statefile path == path) ≡ false
unfolding statefile lit
path-other path = elim (Bool-cases (statefile path == path)) [
  | inl e ↦ absurd (
      omega (
        arith,
        ap length ((==_iff (statefile path) path).0 e),
        length-append path (lit ".downloading"),
      ))
  | inr e ↦ e
]

put_file-other :
    (path : Bytes) (o : Option Bytes) (disk : Map Bytes)
    → find path (put_file (statefile path) o disk) ≡ find path disk
unfolding put_file
put_file-other path none disk = rw (find-erase, path-other path) refl
put_file-other path (some s) disk = rw (find-assign, path-other path) refl

module _ (evp : Evp) (token gid fname path : Bytes) (r : Reply) (file : Bytes) where
  -- The entry of a file that was uploaded.
  pub record Describes : Type 0 where
    pub all_hashes : r.piece_hashes ≡ hashes file evp
    pub count : r.num_pieces ≡ (sha1_file_pieces evp (some file)).1
    pub whole_hash : r.fullhash ≡ sha1_hex evp file
    pub peers : 0 < length r.peerlist

  -- What sharing a file leaves behind: the file, its share, the notice if it went out, and no sidecar
  -- but one that could not be removed.
  pub record Shares (course : Course) (last : Pool) (before after : Client) : Type 0 where
    pub content : find path after.disk ≡ some file
    pub shared : find fname after.registry ≡ some path
    pub told :
        after.sent
        ≡ before.sent ++ sent_if course.tells (downloaded_notice course.last_token gid fname)
    pub sidecar : find (statefile path) after.disk ≡ (if course.removes then none else last.sidecar)

  removed :
      (b : Bool) (files : Disk)
      → find path (if b then erase (statefile path) files else files) ≡ find path files
  removed true files = rw (find-erase, path-other path) refl
  removed false files = refl

  left_sidecar :
      (b : Bool) (o : Option Bytes) (files : Disk)
      → find (statefile path) files ≡ o
      → find (statefile path) (if b then erase (statefile path) files else files)
        ≡ (if b then none else o)
  left_sidecar true o files e = rw (find-erase, ==_refl (statefile path)) refl
  left_sidecar false o files e = e

  find-put_file :
      (o : Option Bytes) (files : Disk)
      → find (statefile path) (put_file (statefile path) o files) ≡ o
  unfolding put_file
  find-put_file none files = rw (find-erase, ==_refl (statefile path)) refl
  find-put_file (some s) files = rw (find-assign, ==_refl (statefile path)) refl

  succeed-Shares :
      (course : Course) (p : Pool) (c : Client)
      → p.output ≡ file
      → Shares course p c (succeed evp token gid fname course path p c)
  unfolding succeed add
  succeed-Shares course p c e = record {
    content =
        removed course.removes (store_files path p c.disk)
        ∙ put_file-other path p.sidecar (assign path p.output c.disk)
        ∙ rw (find-assign, ==_refl path) (ap some e);
    shared = rw (find-assign, ==_refl fname) refl;
    told = refl;
    sidecar =
        left_sidecar course.removes p.sidecar (store_files path p c.disk)
          (find-put_file p.sidecar (assign path p.output c.disk));
  }

  piece-count :
      (k : ℕ)
      → r.num_pieces ≡ (sha1_file_pieces evp (some file)).1
      → k < length file
      → k / piece_size < r.num_pieces
  unfolding sha1_file_pieces
  piece-count k e l = omega arith

  -- The pieces that are all completed make the file.
  pub assembled :
      (ws : List Worker) (p : Pool)
      → r.num_pieces ≡ (sha1_file_pieces evp (some file)).1
      → IsSound file evp fname ws p
      → ((i : ℕ) → i < r.num_pieces → get_elem? (statuses fname table p) i ≡ some 2)
      → p.output ≡ file
  assembled ws p e s all =
      bytewise p.output file s.sized
        (λ k l. s.right table (k / piece_size) (all (k / piece_size) (piece-count k e l)) k l refl)

  matched :
      (output : Bytes)
      → r.fullhash ≡ sha1_hex evp file
      → output ≡ file
      → (sha1_hex evp output == r.fullhash) ≡ true
  matched output w e = (==_iff (sha1_hex evp output) r.fullhash).1 (ap (sha1_hex evp) e ∙ sym w)

  verify-succeed :
      (course : Course) (p : Pool) (c : Client)
      → course.reads ≡ true
      → r.fullhash ≡ sha1_hex evp file
      → all_completed r.num_pieces (find fname p.downloads) ≡ true
      → p.output ≡ file
      → verify evp token gid fname course path r p c ≡ succeed evp token gid fname course path p c
  unfolding verify sha1_file_hex
  verify-succeed course p c reads w all e = simp (all, reads, matched p.output w e)

  pub verify-Shares :
      (course : Course) (p : Pool) (c : Client)
      → course.reads ≡ true
      → r.fullhash ≡ sha1_hex evp file
      → all_completed r.num_pieces (find fname p.downloads) ≡ true
      → p.output ≡ file
      → Shares course p c (verify evp token gid fname course path r p c)
  verify-Shares course p c reads w all e =
      subst (Shares course p c) (sym (verify-succeed course p c reads w all e))
        (succeed-Shares course p c e)

  -- Where every status in the table is completed, the verification finds it so.
  listed-completed :
      (n : ℕ) (o : Option DownloadInfo)
      → length (listed o) ≡ n
      → ((i : ℕ) → i < n → settled (get_elem? (listed o) i) ≡ true)
      → ((i : ℕ) → get_elem? (listed o) i ≢ some 3)
      → all_completed n o ≡ true
  unfolding all_completed
  listed-completed n none l s f = refl
  listed-completed n (some info) l s f = all_two-settled n info.piece_status l s f

  pub all_completed-table :
      (p : Pool)
      → length (statuses fname table p) ≡ r.num_pieces
      → ((i : ℕ) → i < r.num_pieces → settled (get_elem? (statuses fname table p) i) ≡ true)
      → ((i : ℕ) → get_elem? (statuses fname table p) i ≢ some 3)
      → all_completed r.num_pieces (find fname p.downloads) ≡ true
  all_completed-table p l s f = listed-completed r.num_pieces (find fname p.downloads) l s f

  -- The pool when the workers have returned.
  abbrev pub last_round : Course → List ℕ → Bytes → Client → List Worker × Pool
  last_round course sts output c =
      turns evp (record { fname = fname; piece_hashes = r.piece_hashes }) course.schedule
        (spawn 0 (num_workers r.num_pieces (length r.peerlist)) r.peerlist)
        (first_pool fname sts (assign fname (tracked gid fname path r sts) c.downloads) output
          (find (statefile path) c.disk))

  -- What a download starts from: a file of the right size, in which the pieces that the sidecar
  -- gives as completed are in place.
  pub record Ready (sts : List ℕ) (output : Bytes) : Type 0 where
    pub sized : length output ≡ length file
    pub counted : length sts ≡ r.num_pieces
    pub right : (i : ℕ) → get_elem? sts i ≡ some 2 → Right file output i

  pub spawn-idle :
      (id more : ℕ) (output : Bytes)
      → All (λ w. Stored file output w.doing) (spawn id more r.peerlist)
  unfolding spawn
  spawn-idle id zero output = tt
  spawn-idle id (suc more) output = (tt, spawn-idle (id + 1) more output)
