-- ===== src/Client/Downloader/Pool/Visits.antt =====
-- What one visit of a peer in src/client/downloader.cpp does to the output file: it keeps the size
-- and every byte that was the file's, and a stored piece is the file's.
use peer_to_peer_file_sharin.Prelude.{
  ℕ, ◌*◌, ◌<◌, ◌≡◌, refl, false, not, ◌&&◌, List, Option, none, some, length, take, get_elem?,
  arith, if_elim,
}
use peer_to_peer_file_sharin.Bytes.{Bytes, is_empty}
use peer_to_peer_file_sharin.Common.Hash.{Evp, sha1_hex, sha1_file_pieces, piece_size}
use peer_to_peer_file_sharin.Common.Hash.Pieces.{piece_at}
use peer_to_peer_file_sharin.Common.Socket.{recv_framed}
use peer_to_peer_file_sharin.Client.Downloader.Storage.{write_at}
use peer_to_peer_file_sharin.Client.Downloader.Reply.{Seeder}
use peer_to_peer_file_sharin.Client.Downloader.Fetch.{
  Turn, Outcome, skipped, refused, stored, fetch, store, matches, check, visit,
}
use peer_to_peer_file_sharin.Client.Downloader.Pool.{
  Position, downloading, completed, failed, idle, finished, trying, listing, writing, saving,
  counting,
}
use peer_to_peer_file_sharin.Client.Downloader.Pool.Writes.{
  RightAt, Right, IsPiece, matches-piece, write-sized, write-keeps, write-whole, whole,
}

module _ (file : Bytes) where
  -- The bytes of a piece that a worker has just stored are the file's.
  abbrev pub Stored : Bytes → Position → Type 0
  Stored output (listing i completed) = Right file output i
  Stored output (writing i completed) = Right file output i
  Stored output _ = Unit

  -- A change of the output file keeps its size and every byte that was the file's.
  pub record Improves (before after : Bytes) : Type 0 where
    pub sized : length after ≡ length file
    pub keeps : (k : ℕ) → k < length file → RightAt file before k → RightAt file after k

  pub Improves-Right :
      (before after : Bytes) (i : ℕ)
      → Improves before after
      → Right file before i
      → Right file after i
  Improves-Right before after i h r k l e = h.keeps k l (r k l e)

  pub Improves-Stored :
      (before after : Bytes) (d : Position)
      → Improves before after
      → Stored before d
      → Stored after d
  Improves-Stored before after (listing i completed) h r = Improves-Right before after i h r
  Improves-Stored before after (writing i completed) h r = Improves-Right before after i h r
  Improves-Stored before after (listing i downloading) h r = tt
  Improves-Stored before after (listing i failed) h r = tt
  Improves-Stored before after (writing i downloading) h r = tt
  Improves-Stored before after (writing i failed) h r = tt
  Improves-Stored before after (saving i st) h r = tt
  Improves-Stored before after (counting i) h r = tt
  Improves-Stored before after idle h r = tt
  Improves-Stored before after finished h r = tt
  Improves-Stored before after (trying i a ps) h r = tt

  pub same-Improves : (output : Bytes) → length output ≡ length file → Improves output output
  same-Improves output h = record { sized = h; keeps = λ k l r. r }

  -- What an outcome may do to the output file.
  abbrev pub Fair : ℕ → Bytes → Outcome → Type 0
  Fair i output skipped = Unit
  Fair i output (refused after) = Improves output after
  Fair i output (stored after) = Improves output after × Right file after i

  module _ (i : ℕ) (payload output : Bytes) (t : Turn)
      (is_piece : payload ≡ piece_at piece_size i file)
      (there : is_empty (piece_at piece_size i file) ≡ false)
      (sized : length output ≡ length file) where
    part-Improves : (l : ℕ) → Improves output (write_at (i * piece_size) (take l payload) output)
    part-Improves l = rw is_piece (record {
      sized = write-sized piece_size (i * piece_size) l file output there sized;
      keeps = write-keeps piece_size (i * piece_size) l file output there sized;
    })

    whole-Right : Right file (write_at (i * piece_size) payload output) i
    whole-Right = rw is_piece (λ k l e.
        write-whole piece_size (i * piece_size) file output there sized k l (omega arith)
          (omega arith))

    whole-Improves : Improves output (write_at (i * piece_size) payload output)
    whole-Improves = rw is_piece (record {
      sized =
          rw (← whole piece_size (i * piece_size) file output there sized)
            (write-sized piece_size (i * piece_size) piece_size file output there sized);
      keeps =
          rw (← whole piece_size (i * piece_size) file output there sized)
            (write-keeps piece_size (i * piece_size) piece_size file output there sized);
    })

    store-Fair : Fair i output (store i payload t output)
    unfolding store
    store-Fair =
        if_elim (Fair i output) (not (t.opens && t.seeks)) _ _ (λ _. same-Improves output sized)
          (λ _.
            if_elim (Fair i output) (not (t.writes && t.flushes)) _ _ (λ _. part-Improves t.landed)
              (λ _. (whole-Improves, whole-Right)))

  module _ (evp : Evp) where
    -- No payload of the turn has the hash of a piece that it is not.
    abbrev pub NoCollision : Turn → Type 0
    NoCollision t =
        (i : ℕ) (payload : Bytes)
        → (recv_framed piece_size t.answers).0 ≡ some payload
        → IsPiece evp file i payload

    abbrev pub hashes : List Bytes
    hashes = (sha1_file_pieces evp (some file)).0

    check-Fair :
        (i : ℕ) (o : Option Bytes) (t : Turn) (output : Bytes)
        → ((payload : Bytes) → o ≡ some payload → IsPiece evp file i payload)
        → length output ≡ length file
        → Fair i output (check evp hashes i o t output)
    unfolding check
    check-Fair i none t output unique sized = tt
    check-Fair i (some payload) t output unique sized =
        if_elim (Fair i output) (not (matches (get_elem? hashes i) (sha1_hex evp payload))) _ _
          (λ _. same-Improves output sized)
          (λ e.
            let r = matches-piece evp file i payload (unique payload refl) (ground (arith, e)) in
            store-Fair i payload output t r.0 r.1 sized)

    fetch-payload :
        (fname : Bytes) (i : ℕ) (p : Seeder) (t : Turn) (payload : Bytes)
        → fetch fname i p t ≡ some payload
        → (recv_framed piece_size t.answers).0 ≡ some payload
    unfolding fetch
    fetch-payload fname i p t payload e = ground arith

    pub visit-Fair :
        (fname : Bytes) (i : ℕ) (p : Seeder) (t : Turn) (output : Bytes)
        → NoCollision t
        → length output ≡ length file
        → Fair i output (visit evp fname hashes i p t output)
    unfolding visit
    visit-Fair fname i p t output unique sized =
        check-Fair i (fetch fname i p t) t output
          (λ payload e. unique i payload (fetch-payload fname i p t payload e)) sized
