-- ===== src/Tracker/Recovery/Files.antt =====
-- The FILE and GFILE records of a snapshot (src/tracker/persistence.cpp).
use peer_to_peer_file_sharin.Prelude.{
  ◌<◌, ◌≡◌, refl, ap, ◌∙◌, false, [], ◌∷◌, ◌++◌, Option, none, some, length, arith,
}
use peer_to_peer_file_sharin.Bytes.{Bytes, lit, ◌==◌, is_space}
use peer_to_peer_file_sharin.Container.Map.{Map, assign, find}
use peer_to_peer_file_sharin.Container.NameSet.{NameSet, member, insert_all}
use peer_to_peer_file_sharin.Container.Distinct.{
  Distinct, keys, assign-absent, find-absent, insert_all-nil,
}
use peer_to_peer_file_sharin.Common.Message.{IsWord, ll_limit}
use peer_to_peer_file_sharin.Common.Message.RoundTrip.{parse_ll-to_string, to_string-IsWord}
use peer_to_peer_file_sharin.Tracker.State.{TrackerState, FileMeta, names_or_none}
use peer_to_peer_file_sharin.Tracker.Persistence.{
  record_line, file_records, file_words, group_file_records, counted, Progress, apply_record,
  apply_file, apply_file_size, apply_file_hashes, apply_file_lists, union_file, apply_group_file,
  apply_names,
}
use peer_to_peer_file_sharin.Tracker.Recovery.Lines.{
  Words, take_list-counted, take_list-counted_end, counted-Words, Words-append,
}
use peer_to_peer_file_sharin.Tracker.Recovery.Wire.{Reads, RecordKind}

-- A file that a snapshot carries: of words, with as many hashes as pieces.
pub record FileIsGood (key : Bytes) (f : FileMeta) : Type 0 where
  pub key-IsWord : IsWord key
  pub size-InLl : f.size < ll_limit
  pub fullhash-IsWord : IsWord f.fullhash
  pub hashes : Words f.piece_hashes
  pub pieces : f.num_pieces ≡ length f.piece_hashes
  pub hashes-few : length f.piece_hashes < ll_limit
  pub seeders : Words f.peers
  pub seeders-Distinct : Distinct f.peers
  pub seeders-few : length f.peers < ll_limit

pub file_words-Words : (key : Bytes) (f : FileMeta) → FileIsGood key f → Words (file_words key f)
unfolding file_words
file_words-Words key f h = (
  h.key-IsWord,
  (
    to_string-IsWord f.size,
    (
      h.fullhash-IsWord,
      Words-append (counted f.piece_hashes) (counted f.peers)
          (counted-Words f.piece_hashes h.hashes) (counted-Words f.peers h.seeders),
    ),
  ),
)

apply_file-file_words :
    (key : Bytes) (f : FileMeta) (p : Progress)
    → FileIsGood key f
    → apply_file (file_words key f) p
      ≡ apply_file_lists key f.size f.fullhash f.piece_hashes (some (f.peers, [])) p
unfolding apply_file file_words
apply_file-file_words key f p h = rw (
  parse_ll-to_string f.size h.size-InLl,
  apply_file_size,
  take_list-counted f.piece_hashes (counted f.peers) h.hashes-few,
  apply_file_hashes,
  take_list-counted_end f.peers h.seeders-few,
)

-- The metadata that a record describes.
abbrev described : FileMeta → FileMeta
described f = record {
  size = f.size;
  fullhash = f.fullhash;
  num_pieces = length f.piece_hashes;
  piece_hashes = f.piece_hashes;
  peers = insert_all f.peers [];
}

file_restored :
    (key : Bytes) (f : FileMeta) → FileIsGood key f → (union_file none (described f) f.peers).0 ≡ f
unfolding union_file
file_restored key f h = ground (arith, h.pieces, insert_all-nil f.peers h.seeders-Distinct)

pub file_step :
    (s : TrackerState) (key : Bytes) (f : FileMeta) (done : Map FileMeta) (p : Progress)
    → p.state ≡ record s { files = done }
    → member key (keys done) ≡ false
    → FileIsGood key f
    → Reads (lit "FILE" ∷ file_words key f) p (record s { files = done ++ (key, f) ∷ [] })
unfolding apply_record lit ◌==◌
file_step s key f done p e new h = record {
  after = _;
  read = apply_file-file_words key f p h;
  leaves =
      ap (λ (t : TrackerState). record t { files = assign key (merged (find key t.files)) t.files })
        e
      ∙ ap (λ (m : Map FileMeta). record s { files = m })
          (ap (λ (o : Option FileMeta). assign key (merged o) done) (find-absent key done new)
            ∙ ap (λ (q : FileMeta). assign key q done) (file_restored key f h)
            ∙ assign-absent key f done new);
}
  where
    merged : Option FileMeta → FileMeta
    merged o = (union_file o (described f) f.peers).0

pub file_verb-IsWord : IsWord (lit "FILE")
unfolding lit is_space
file_verb-IsWord = record { nonempty = refl; solid = (refl, (refl, (refl, (refl, tt)))) }

pub file_records-nil : file_records [] ≡ []
unfolding file_records
file_records-nil = refl

pub file_records-cons :
    (k : Bytes) (v : FileMeta) (m : Map FileMeta)
    → file_records ((k, v) ∷ m) ≡ record_line (lit "FILE") (file_words k v) ++ file_records m
unfolding file_records
file_records-cons k v m = refl

unfoldable pub file_kind : TrackerState → RecordKind FileMeta FileMeta
file_kind s = record {
  verb = lit "FILE";
  words = file_words;
  text = file_records;
  restore = λ f. f;
  at = λ m. record s { files = m };
  IsGood = FileIsGood;
  verb-IsWord = file_verb-IsWord;
  words-Words = file_words-Words;
  text-nil = file_records-nil;
  text-cons = λ k v m g. file_records-cons k v m;
  step = file_step s;
}

-- The names that a group lists: words without repetitions.
pub record NamesAreGood (gid : Bytes) (names : NameSet) : Type 0 where
  pub key : IsWord gid
  pub listed : Words names
  pub listed-Distinct : Distinct names
  pub listed-few : length names < ll_limit

apply_group_file-counted :
    (gid : Bytes) (names : NameSet) (p : Progress)
    → NamesAreGood gid names
    → apply_group_file (gid ∷ counted names) p ≡ apply_names gid (some (names, [])) p
unfolding apply_group_file counted
apply_group_file-counted gid names p h = rw (take_list-counted_end names h.listed-few)

pub names_step :
    (s : TrackerState) (gid : Bytes) (names : NameSet) (done : Map NameSet) (p : Progress)
    → p.state ≡ record s { group_files = done }
    → member gid (keys done) ≡ false
    → NamesAreGood gid names
    → Reads
        (lit "GFILE" ∷ gid ∷ counted names)
        p
        (record s { group_files = done ++ (gid, names) ∷ [] })
unfolding apply_record lit ◌==◌
names_step s gid names done p e new h = record {
  after = _;
  read = apply_group_file-counted gid names p h;
  leaves =
      ap
        (λ (t : TrackerState). record t {
          group_files = assign gid (merged (find gid t.group_files)) t.group_files;
        })
        e
      ∙ ap (λ (m : Map NameSet). record s { group_files = m })
          (ap (λ (o : Option NameSet). assign gid (merged o) done) (find-absent gid done new)
            ∙ ap (λ (q : NameSet). assign gid q done) (insert_all-nil names h.listed-Distinct)
            ∙ assign-absent gid names done new);
}
  where
    merged : Option NameSet → NameSet
    merged o = insert_all names (names_or_none o)

pub names_verb-IsWord : IsWord (lit "GFILE")
unfolding lit is_space
names_verb-IsWord = record { nonempty = refl; solid = (refl, (refl, (refl, (refl, (refl, tt))))) }

pub group_file_records-nil : group_file_records [] ≡ []
unfolding group_file_records
group_file_records-nil = refl

pub group_file_records-cons :
    (k : Bytes) (v : NameSet) (m : Map NameSet)
    → group_file_records ((k, v) ∷ m)
      ≡ record_line (lit "GFILE") (k ∷ counted v) ++ group_file_records m
unfolding group_file_records
group_file_records-cons k v m = refl

unfoldable pub names_kind : TrackerState → RecordKind NameSet NameSet
names_kind s = record {
  verb = lit "GFILE";
  words = λ gid names. gid ∷ counted names;
  text = group_file_records;
  restore = λ names. names;
  at = λ m. record s { group_files = m };
  IsGood = NamesAreGood;
  verb-IsWord = names_verb-IsWord;
  words-Words = λ k v g. (g.key, counted-Words v g.listed);
  text-nil = group_file_records-nil;
  text-cons = λ k v m g. group_file_records-cons k v m;
  step = names_step s;
}
