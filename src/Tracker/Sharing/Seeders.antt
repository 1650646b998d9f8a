-- ===== src/Tracker/Sharing/Seeders.antt =====
-- Which seeders `download_file` of src/tracker/tracker_state.cpp advertises.
use peer_to_peer_file_sharin.Prelude.{
  ◌≡◌, refl, ap, sym, ◌∙◌, not, ◌||◌, false, [], ◌∷◌, ◌++◌, Option, none, some, arith,
  if◌then◌else◌, inl, inr, Bool-cases,
}
use peer_to_peer_file_sharin.Bytes.{Bytes, ◌==◌, ==_iff, ==_sym, is_empty}
use peer_to_peer_file_sharin.Container.Map.{find, find-assign, assign, contains}
use peer_to_peer_file_sharin.Container.NameSet.{NameSet, remove}
use peer_to_peer_file_sharin.Tracker.State.{
  Group, accept, partofgroup, user_exists_locked, is_outsider, in_names, group_has_file_locked,
  metadata_reply, download_found, download_file, file_key, Peer, FileMeta, TrackerState,
  seeder_line, seeder_lines, metadata, peer_logout, disconnect_peer, handle_disconnect,
}

-- The state in which the user seeds the file no longer, and nothing else has changed.
abbrev pub unseeded : Bytes → TrackerState → Bytes → Option FileMeta → TrackerState
unseeded user s key none = s
unseeded user s key (some fm) = record s {
  files = assign key (record fm { peers = remove user fm.peers }) s.files;
}

module _ (user : Bytes) (s : TrackerState) (real : is_empty user ≡ false) where
  disconnect_peer-line :
      (name : Bytes) (o : Option Peer)
      → find user s.peers ≡ o
      → seeder_line name (find name (disconnect_peer o user s).peers)
        ≡ (if user == name then [] else seeder_line name (find name s.peers))
  unfolding disconnect_peer seeder_line
  disconnect_peer-line name none e = ground (arith, ==_iff user name)
  disconnect_peer-line name (some p) e =
      ground (arith, ==_iff user name, find-assign user name (peer_logout p) s.peers)

  handle_disconnect-line :
      (name : Bytes)
      → seeder_line name (find name (handle_disconnect user s).peers)
        ≡ (if user == name then [] else seeder_line name (find name s.peers))
  unfolding handle_disconnect
  handle_disconnect-line name = rw real (disconnect_peer-line name (find user s.peers) refl)

  handle_disconnect-lines :
      (names : NameSet)
      → seeder_lines names (handle_disconnect user s).peers
        ≡ seeder_lines (remove user names) s.peers
  unfolding seeder_lines remove
  handle_disconnect-lines [] = refl
  handle_disconnect-lines (name ∷ names) = elim (Bool-cases (name == user)) [
    | inl same ↦
        rw (handle_disconnect-line name, ==_sym user name, same) (handle_disconnect-lines names)
    | inr other ↦
        rw (handle_disconnect-line name, ==_sym user name, other)
          (ap (◌++◌ (seeder_line name (find name s.peers))) (handle_disconnect-lines names))
  ]

  metadata-handle_disconnect :
      (fname : Bytes) (fm : FileMeta)
      → metadata fname fm (handle_disconnect user s).peers
        ≡ metadata fname (record fm { peers = remove user fm.peers }) s.peers
  unfolding metadata
  metadata-handle_disconnect fname fm = rw (handle_disconnect-lines fm.peers)

  -- A drop changes nobody's membership and no file, and every account stays.
  record Frame (t : TrackerState) : Type 0 where
    groups : t.groups ≡ s.groups
    group_files : t.group_files ≡ s.group_files
    files : t.files ≡ s.files
    accounts : (name : Bytes) → contains name t.peers ≡ contains name s.peers

  disconnect_peer-Frame :
      (o : Option Peer) → find user s.peers ≡ o → Frame (disconnect_peer o user s)
  unfolding disconnect_peer
  disconnect_peer-Frame none e = record {
    groups = refl;
    group_files = refl;
    files = refl;
    accounts = λ name. refl;
  }
  disconnect_peer-Frame (some p) e = record {
    groups = refl;
    group_files = refl;
    files = refl;
    accounts =
        λ name. ground (arith, ==_iff user name, find-assign user name (peer_logout p) s.peers, e);
  }

  handle_disconnect-Frame : Frame (handle_disconnect user s)
  unfolding handle_disconnect
  handle_disconnect-Frame = rw real (disconnect_peer-Frame (find user s.peers) refl)

  is_outsider-handle_disconnect :
      (name : Bytes) (g : Group)
      → is_outsider name g (handle_disconnect user s) ≡ is_outsider name g s
  unfolding is_outsider user_exists_locked
  is_outsider-handle_disconnect name g =
      ap (λ b. not b || not (partofgroup name g)) (handle_disconnect-Frame.accounts name)

  group_has_file_locked-handle_disconnect :
      (gid fname : Bytes)
      → group_has_file_locked gid fname (handle_disconnect user s)
        ≡ group_has_file_locked gid fname s
  unfolding group_has_file_locked
  group_has_file_locked-handle_disconnect gid fname =
      ap (λ m. in_names (find gid m) fname) handle_disconnect-Frame.group_files

  metadata_reply-handle_disconnect :
      (gid fname key : Bytes) (o : Option FileMeta)
      → find key s.files ≡ o
      → metadata_reply
          (find key (handle_disconnect user s).files)
          gid
          fname
          (handle_disconnect user s).peers
        ≡ metadata_reply (find key (unseeded user s key o).files) gid fname s.peers
  unfolding metadata_reply
  metadata_reply-handle_disconnect gid fname key none e = rw (handle_disconnect-Frame.files, e) refl
  metadata_reply-handle_disconnect gid fname key (some fm) e =
      rw (handle_disconnect-Frame.files, e, find-assign, (==_iff key key).1 refl)
        (ap accept (metadata-handle_disconnect fname fm))

  unseeded-same :
      (key : Bytes) (o : Option FileMeta)
      → ((unseeded user s key o).groups ≡ s.groups)
        × ((unseeded user s key o).group_files ≡ s.group_files)
        × ((unseeded user s key o).peers ≡ s.peers)
  unseeded-same key none = (refl, refl, refl)
  unseeded-same key (some fm) = (refl, refl, refl)

  download_found-handle_disconnect :
      (gid fname uname : Bytes) (g : Option Group) (o : Option FileMeta)
      → find (file_key gid fname) s.files ≡ o
      → download_found g gid fname uname (handle_disconnect user s)
        ≡ download_found g gid fname uname (unseeded user s (file_key gid fname) o)
  unfolding download_found
  download_found-handle_disconnect gid fname uname none o e = refl
  download_found-handle_disconnect gid fname uname (some g) none e =
      rw
        (
          is_outsider-handle_disconnect uname g,
          group_has_file_locked-handle_disconnect gid fname,
          metadata_reply-handle_disconnect gid fname (file_key gid fname) none e,
        )
        refl
  download_found-handle_disconnect gid fname uname (some g) (some fm) e =
      unfold is_outsider user_exists_locked group_has_file_locked in
      rw
        (
          is_outsider-handle_disconnect uname g,
          group_has_file_locked-handle_disconnect gid fname,
          metadata_reply-handle_disconnect gid fname (file_key gid fname) (some fm) e,
        )
        refl

  -- After the connection of a peer with a name dropped, download_file answers everybody, refusals
  -- included, as it would in the state before in which that peer were not among the file's seeders.
  pub download_file-handle_disconnect :
      (gid fname uname : Bytes)
      → download_file gid fname uname (handle_disconnect user s)
        ≡ download_file gid fname uname
            (unseeded user s (file_key gid fname) (find (file_key gid fname) s.files))
  unfolding download_file
  download_file-handle_disconnect gid fname uname =
      let o = find (file_key gid fname) s.files in
      download_found-handle_disconnect gid fname uname (find gid (handle_disconnect user s).groups)
        o refl
      ∙ ap
          (λ m.
            download_found (find gid m) gid fname uname (unseeded user s (file_key gid fname) o))
          (handle_disconnect-Frame.groups ∙ sym (unseeded-same (file_key gid fname) o).0)
