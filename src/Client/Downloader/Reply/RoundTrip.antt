-- ===== src/Client/Downloader/Reply/RoundTrip.antt =====
-- The tracker's answer to download_file (`download_file` of src/tracker/tracker_state.cpp) as
-- src/client/downloader.cpp reads it.
use peer_to_peer_file_sharin.Prelude.{
  ℕ, suc, ◌+◌, ◌<◌, ◌≡◌, refl, ap, ◌∙◌, true, false, List, [], ◌∷◌, ◌++◌, some, length, All, pos,
  arith,
}
use peer_to_peer_file_sharin.Bytes.{
  Bytes, lit, ◌==◌, is_space, has_byte, has_byte-append, starts_with,
}
use peer_to_peer_file_sharin.Bytes.Decimal.{to_string}
use peer_to_peer_file_sharin.Container.Map.{Map}
use peer_to_peer_file_sharin.Common.Message.{IsWord, ll_limit, split_args}
use peer_to_peer_file_sharin.Common.Message.RoundTrip.{to_string-IsWord}
use peer_to_peer_file_sharin.Tracker.State.{Peer, FileMeta, spaced, seeder_lines, metadata}
use peer_to_peer_file_sharin.Client.Downloader.Reply.{
  Header, parsed, get_word, read_field, read_header, find_after, triples, get_hashes, parse_reply,
}
use peer_to_peer_file_sharin.Client.Downloader.Reply.Streams.{
  get_word-word, get_hashes-spaced, find_after-skip, find_after-here, SpacedText, SpacedText-append,
}
use peer_to_peer_file_sharin.Client.Downloader.Reply.Rounds.{
  IsOther, read_header-word, read_header-last, get_word-next, other-round, size-round, pieces-round,
  hash-round,
}
use peer_to_peer_file_sharin.Client.Downloader.Reply.Seeders.{
  online_seeders, AllAddressed, triples-seeder_lines,
}

-- A word has no line break.
word-break : (w : Bytes) → All (λ c. is_space c ≡ false) w → has_byte b'\n' w ≡ false
unfolding has_byte is_space
word-break [] h = refl
word-break (c ∷ w) h = ground (arith, h.0, word-break w h.1)

spaced-break : (ws : List Bytes) → All IsWord ws → has_byte b'\n' (spaced ws) ≡ false
unfolding has_byte spaced
spaced-break [] h = refl
spaced-break (w ∷ ws) h =
    has_byte-append b'\n' w (spaced ws) ∙ rw (word-break w h.0.solid) (spaced-break ws h.1)

-- The parts of `parse_reply`, put together.
parse_reply-parts :
    (r : Bytes) (size : ℕ) (hash : Bytes) (n : ℕ) (rest block : Bytes)
    → starts_with (lit "FILE ") r ≡ true
    → read_header
        (length r + 1)
        (record { size = pos 0; fullhash = []; num_pieces = pos 0 })
        (some r)
      ≡ (record { size = pos size; fullhash = hash; num_pieces = pos n }, some rest)
    → find_after (lit "\nPEERS\n") r ≡ some block
    → parse_reply r
      ≡ parsed (record {
        size = pos size;
        fullhash = hash;
        num_pieces = n;
        piece_hashes = get_hashes n (some rest);
        peerlist = triples (split_args block);
      })
unfolding parse_reply
parse_reply-parts r size hash n rest block e f g = rw (e, f, g) refl

module _ (fname : Bytes) (fm : FileMeta) (peers : Map Peer) where
  -- What the description is made of, from the back.
  abbrev block : Bytes
  block = seeder_lines fm.peers peers ++ b'\n' ∷ []

  abbrev after_hashes : Bytes
  after_hashes = lit "\nPEERS\n" ++ block

  abbrev after_count : Bytes
  after_count = lit " PIECE_HASHES" ++ (spaced fm.piece_hashes ++ after_hashes)

  abbrev after_hash : Bytes
  after_hash = lit " PIECES " ++ (to_string fm.num_pieces ++ after_count)

  abbrev after_size : Bytes
  after_size = lit " HASH " ++ (fm.fullhash ++ after_hash)

  abbrev after_name : Bytes
  after_name = lit " SIZE " ++ (to_string fm.size ++ after_size)

  -- A description that the header's words can carry.
  pub record IsReadable : Type 0 where
    pub name-IsWord : IsWord fname
    pub name-IsOther : IsOther fname
    pub size-lt : fm.size < ll_limit
    pub hash-IsWord : IsWord fm.fullhash
    pub count-lt : fm.num_pieces < ll_limit
    pub hashes-IsWord : All IsWord fm.piece_hashes
    pub counted : length fm.piece_hashes ≡ fm.num_pieces
    pub addressed : AllAddressed fm.peers peers

  abbrev start : Header
  start = record { size = pos 0; fullhash = []; num_pieces = pos 0 }

  abbrev read : Header
  read = record { size = pos fm.size; fullhash = fm.fullhash; num_pieces = pos fm.num_pieces }

  hashes-SpacedText : SpacedText (spaced fm.piece_hashes ++ after_hashes)
  unfolding lit is_space
  hashes-SpacedText = SpacedText-append fm.piece_hashes after_hashes refl

  last-word :
      get_word (some after_count)
      ≡ some (lit "PIECE_HASHES", spaced fm.piece_hashes ++ after_hashes)
  unfolding lit is_space
  last-word =
      get_word-next (lit "PIECE_HASHES") (spaced fm.piece_hashes ++ after_hashes)
        (record {
          nonempty = refl;
          solid = (
            refl,
            (
              refl,
              (refl, (refl, (refl, (refl, (refl, (refl, (refl, (refl, (refl, (refl, tt)))))))))),
            ),
          );
        })
        hashes-SpacedText

  read_header-metadata :
      (fuel : ℕ)
      → IsReadable
      → read_header (suc (suc (suc (suc (suc (suc fuel)))))) start (some (metadata fname fm peers))
        ≡ (read, some (spaced fm.piece_hashes ++ after_hashes))
  unfolding metadata lit ◌==◌ read_field is_space
  read_header-metadata fuel r =
      read_header-word (suc (suc (suc (suc (suc fuel))))) start (some (metadata fname fm peers))
        (lit "FILE") (b' ' ∷ (fname ++ after_name))
        (get_word-word (lit "FILE") b' ' (fname ++ after_name)
          (record { nonempty = refl; solid = (refl, (refl, (refl, (refl, tt)))) }) refl)
        refl
      ∙ other-round (suc (suc (suc (suc fuel)))) start fname after_name r.name-IsWord r.name-IsOther
          refl
      ∙ size-round (suc (suc (suc fuel))) start b' ' (lit "HASH " ++ (fm.fullhash ++ after_hash))
          refl fm.size r.size-lt
      ∙ hash-round (suc (suc fuel)) (record start { size = pos fm.size }) b' '
          (lit "PIECES " ++ (to_string fm.num_pieces ++ after_count)) refl fm.fullhash r.hash-IsWord
      ∙ pieces-round (suc fuel) (record start { size = pos fm.size; fullhash = fm.fullhash }) b' '
          (lit "PIECE_HASHES" ++ (spaced fm.piece_hashes ++ after_hashes)) refl fm.num_pieces
          r.count-lt
      ∙ read_header-last fuel read (some after_count) (spaced fm.piece_hashes ++ after_hashes)
          last-word

  find_after-metadata :
      IsReadable → find_after (lit "\nPEERS\n") (metadata fname fm peers) ≡ some block
  unfolding metadata lit has_byte
  find_after-metadata r =
      skip (lit "FILE ") (fname ++ after_name) refl
      ∙ skip fname after_name (word-break fname r.name-IsWord.solid)
      ∙ skip (lit " SIZE ") (to_string fm.size ++ after_size) refl
      ∙ skip (to_string fm.size) after_size (word-break _ (to_string-IsWord fm.size).solid)
      ∙ skip (lit " HASH ") (fm.fullhash ++ after_hash) refl
      ∙ skip fm.fullhash after_hash (word-break fm.fullhash r.hash-IsWord.solid)
      ∙ skip (lit " PIECES ") (to_string fm.num_pieces ++ after_count) refl
      ∙ skip (to_string fm.num_pieces) after_count
          (word-break _ (to_string-IsWord fm.num_pieces).solid)
      ∙ skip (lit " PIECE_HASHES") (spaced fm.piece_hashes ++ after_hashes) refl
      ∙ skip (spaced fm.piece_hashes) after_hashes (spaced-break fm.piece_hashes r.hashes-IsWord)
      ∙ find_after-here b'\n' (lit "PEERS\n") block
    where
      skip :
          (s t : Bytes)
          → has_byte b'\n' s ≡ false
          → find_after (lit "\nPEERS\n") (s ++ t) ≡ find_after (lit "\nPEERS\n") t
      skip s t e = find_after-skip b'\n' (lit "PEERS\n") s t e

  fuel_enough :
      length (metadata fname fm peers) + 1
      ≡ suc (suc (suc (suc (suc (suc (length (fname ++ after_name)))))))
  unfolding metadata lit
  fuel_enough = omega arith

  -- What the downloader reads of the tracker's description of a file is that description: its size,
  -- its hash, its number of pieces, the hash of each piece, and the address of every seeder that is
  -- connected. The words of the description are words, its numbers are in the range of a long long,
  -- and the file's name is none of the four words that the reader looks for.
  pub parse_reply-metadata :
      IsReadable
      → parse_reply (metadata fname fm peers)
        ≡ parsed (record {
          size = pos fm.size;
          fullhash = fm.fullhash;
          num_pieces = fm.num_pieces;
          piece_hashes = fm.piece_hashes;
          peerlist = online_seeders fm.peers peers;
        })
  parse_reply-metadata r =
      parse_reply-parts (metadata fname fm peers) fm.size fm.fullhash fm.num_pieces
        (spaced fm.piece_hashes ++ after_hashes) block (unfold metadata lit starts_with in refl)
        (ap (λ n. read_header n start (some (metadata fname fm peers))) fuel_enough
          ∙ read_header-metadata (length (fname ++ after_name)) r)
        (find_after-metadata r)
      ∙ rw
          (
            triples-seeder_lines fm.peers peers r.addressed,
            ← r.counted,
            get_hashes-spaced fm.piece_hashes after_hashes r.hashes-IsWord
                (unfold lit is_space in refl),
          )
          refl
