-- ===== src/Tracker/Operation/Soundness/Files.antt =====
-- What holds of the shared files between two operations of src/tracker/tracker_state.cpp: a listed
-- name is a safe one and has metadata, and there are as many hashes as pieces.
use peer_to_peer_file_sharin.Prelude.{
  ℕ, zero, suc, ◌≡◌, refl, Bool, true, not, ◌&&◌, ◌||◌, List, [], ◌∷◌, Option, none, some, arith,
  Bool-cases, if_elim, ap, length, inl, inr,
}
use mathlib.Core.Path.{subst₂}
use peer_to_peer_file_sharin.Bytes.{Bytes, ◌==◌, ==_iff}
use peer_to_peer_file_sharin.Container.Map.{
  Map, find, assign, find-assign, contains, contains-assign_self,
}
use peer_to_peer_file_sharin.Container.NameSet.{NameSet, member, member-insert, remove, insert}
use peer_to_peer_file_sharin.Tracker.State
use peer_to_peer_file_sharin.Tracker.State.{
  Group, FileMeta, TrackerState, file_key, valid_filename, resize, names_or_none, in_names,
}

-- Whether a group lists a file of that name.
abbrev pub lists : Bytes → Bytes → TrackerState → Bool
lists gid fname s = in_names (find gid s.group_files) fname

pub record FilesAreSound (s : TrackerState) : Type 0 where
  pub described :
      (gid fname : Bytes) → lists gid fname s ≡ true → contains (file_key gid fname) s.files ≡ true
  pub safe : (gid fname : Bytes) → lists gid fname s ≡ true → valid_filename fname ≡ true
  pub hashed :
      (key : Bytes) (f : FileMeta)
      → find key s.files ≡ some f
      → length f.piece_hashes ≡ f.num_pieces

length-resize : (n : ℕ) (xs : List Bytes) → length (resize n xs) ≡ n
unfolding resize
length-resize zero xs = refl
length-resize (suc n) [] = ap suc (length-resize n [])
length-resize (suc n) (x ∷ xs) = ap suc (length-resize n xs)

-- A name inserted into the list of one group.
pub lists-insert :
    (gid fname g n : Bytes) (files : Map NameSet)
    → in_names (find g (assign gid (insert fname (names_or_none (find gid files))) files)) n
      ≡ (in_names (find g files) n || (gid == g && fname == n))
unfolding member
lists-insert gid fname g n files = ground (
  arith,
  ==_iff gid g,
  member-insert fname n (names_or_none (find gid files)),
  find-assign gid g (insert fname (names_or_none (find gid files))) files,
)

module _ (s : TrackerState) (v : FilesAreSound s) where
  abbrev Keeps : TrackerState × State.Result → Type 0
  Keeps r = FilesAreSound r.0

  -- Metadata put under a key, with as many hashes as pieces.
  assign-FilesAreSound :
      (key : Bytes) (f : FileMeta) (version : ℕ)
      → length f.piece_hashes ≡ f.num_pieces
      → FilesAreSound (record s { files = assign key f s.files; version = version })
  assign-FilesAreSound key f version agree = record {
    described = λ gid fname l.
        ground (arith, find-assign key (file_key gid fname) f s.files, v.described gid fname l);
    safe = v.safe;
    hashed = λ k g e. ground (arith, find-assign key k f s.files, v.hashed k g);
  }

  module _ (gid fname user : Bytes) where
    -- The name of a file whose metadata is there, added to its group's list.
    list-FilesAreSound :
        contains (file_key gid fname) s.files ≡ true
        → valid_filename fname ≡ true
        → FilesAreSound (record s {
          group_files =
              assign gid (insert fname (names_or_none (find gid s.group_files))) s.group_files;
        })
    list-FilesAreSound known good = record {
      described = λ g n l. elim (Bool-cases (gid == g && fname == n)) [
        | inl same ↦
            subst₂ (λ a b. contains (file_key a b) s.files ≡ true) ((==_iff gid g).0 (ground arith))
              ((==_iff fname n).0 (ground arith)) known
        | inr other ↦ v.described g n (ground (arith, lists-insert gid fname g n s.group_files))
      ];
      safe = λ g n l.
          ground (arith, ==_iff fname n, lists-insert gid fname g n s.group_files, v.safe g n);
      hashed = v.hashed;
    }

module _ (s : TrackerState) (v : FilesAreSound s) (gid fname user : Bytes) where
  upload_found-FilesAreSound :
      (o : Option Group) (size : ℕ) (hash : Bytes) (n : ℕ) (hashes : List Bytes)
      → FilesAreSound (State.upload_found o gid fname user size hash n hashes s).0
  unfolding State.upload_found
  upload_found-FilesAreSound none size hash n hashes = v
  upload_found-FilesAreSound (some h) size hash n hashes =
      if_elim (Keeps s v) (State.is_outsider user h s) _ _ (λ _. v)
        λ _.
          if_elim (Keeps s v) (not (valid_filename fname)) _ _ (λ _. v)
            λ good.
              list-FilesAreSound _
                (assign-FilesAreSound s v (file_key gid fname) _ _ (length-resize n hashes)) gid
                fname user (contains-assign_self (file_key gid fname) _ s.files) (ground arith)

  pub upload_file-FilesAreSound :
      (size : ℕ) (hash : Bytes) (n : ℕ) (hashes : List Bytes)
      → FilesAreSound (State.upload_file gid fname user size hash n hashes s).0
  unfolding State.upload_file
  upload_file-FilesAreSound = upload_found-FilesAreSound (find gid s.groups)

  add_seeder-FilesAreSound :
      (key : Bytes) (version : ℕ) (o : Option FileMeta)
      → find key s.files ≡ o
      → FilesAreSound (record s { files = State.add_seeder o key user s.files; version = version })
  unfolding State.add_seeder
  add_seeder-FilesAreSound key version none e = record {
    described = v.described;
    safe = v.safe;
    hashed = v.hashed;
  }
  add_seeder-FilesAreSound key version (some f) e =
      assign-FilesAreSound s v key (record f { peers = insert user f.peers }) version
        (v.hashed key f e)

  pub file_downloaded-FilesAreSound : FilesAreSound (State.file_downloaded gid fname user s).0
  unfolding State.file_downloaded
  file_downloaded-FilesAreSound =
      if_elim (Keeps s v) (State.not_in_group (find gid s.groups) user) _ _ (λ _. v)
        λ _.
          if_elim (Keeps s v) (not (State.group_has_file_locked gid fname s)) _ _ (λ _. v)
            λ _.
              if_elim (Keeps s v) (not (State.user_exists_locked user s)) _ _ (λ _. v)
                λ _.
                  add_seeder-FilesAreSound (file_key gid fname) _
                    (find (file_key gid fname) s.files) refl

  stop_seeding-FilesAreSound :
      (o : Option FileMeta)
      → find (file_key gid fname) s.files ≡ o
      → FilesAreSound (State.stop_seeding o gid fname user s).0
  unfolding State.stop_seeding
  stop_seeding-FilesAreSound none e = v
  stop_seeding-FilesAreSound (some f) e =
      assign-FilesAreSound s v (file_key gid fname) (record f { peers = remove user f.peers }) _
        (v.hashed (file_key gid fname) f e)

  stop_share_found-FilesAreSound :
      (o : Option Group) → FilesAreSound (State.stop_share_found o gid fname user s).0
  unfolding State.stop_share_found
  stop_share_found-FilesAreSound none = v
  stop_share_found-FilesAreSound (some h) =
      if_elim (Keeps s v) (State.is_outsider user h s) _ _ (λ _. v)
        λ _.
          if_elim (Keeps s v) (not (State.group_has_file_locked gid fname s)) _ _ (λ _. v)
            λ _. stop_seeding-FilesAreSound (find (file_key gid fname) s.files) refl

  pub stop_share-FilesAreSound : FilesAreSound (State.stop_share gid fname user s).0
  unfolding State.stop_share
  stop_share-FilesAreSound = stop_share_found-FilesAreSound (find gid s.groups)

-- What is sound stays so where the files are the same.
pub FilesAreSound-same :
    (s t : TrackerState)
    → FilesAreSound s
    → t.files ≡ s.files
    → t.group_files ≡ s.group_files
    → FilesAreSound t
FilesAreSound-same s t v same lists_same = record {
  described = λ gid fname l. rw same (v.described gid fname (rw lists_same at l));
  safe = λ gid fname l. v.safe gid fname (rw lists_same at l);
  hashed = λ key f e. v.hashed key f (rw same at e);
}
