-- ===== src/Client/Commands/Announcing.antt =====
-- upload_file from the user's command (src/client/commands.cpp) to the tracker's state
-- (src/tracker/main.cpp): what is announced is what the tracker records.
use peer_to_peer_file_sharin.Prelude.{
  ℕ, ◌-◌, ◌*◌, ◌≤◌, ◌<◌, ◌≡◌, refl, ap, sym, ◌∙◌, true, false, List, [], ◌∷◌, some, ltb, length,
  All, arith,
}
use mathlib.Core.Path.{subst}
use mathlib.Core.Option.{some-injective}
use peer_to_peer_file_sharin.Bytes.{Bytes, lit, ◌==◌, ==_refl, is_empty}
use peer_to_peer_file_sharin.Bytes.Decimal.{to_string}
use peer_to_peer_file_sharin.Container.Map.{find, find-assign}
use peer_to_peer_file_sharin.Common.Message.{IsWord, int_limit}
use peer_to_peer_file_sharin.Common.Message.RoundTrip.{parse_ll-to_string, parse_int-to_string}
use peer_to_peer_file_sharin.Common.Hash.{Evp, sha1_file_hex, sha1_file_pieces, piece_size}
use peer_to_peer_file_sharin.Common.Hash.Pieces.{sha1_file_pieces-length}
use peer_to_peer_file_sharin.Tracker.Recovery.Lines.{split_args-spaced}
use peer_to_peer_file_sharin.Tracker.State
use peer_to_peer_file_sharin.Container.NameSet.{insert, member-insert}
use peer_to_peer_file_sharin.Tracker.State.{
  TrackerState, Group, FileMeta, file_key, valid_filename, resize, peers_of, names_or_none,
  group_has_file_locked, is_outsider, upload_found,
}
use peer_to_peer_file_sharin.Tracker.Session.{Sessions, username_for}
use peer_to_peer_file_sharin.Tracker.Dispatch.Upload.{
  run_upload, upload_parsed, expected_pieces, pieces_agree,
}
use peer_to_peer_file_sharin.Tracker.Dispatch.{
  Server, Ambient, dispatch, dispatch_session, run_as, run_command,
}
use peer_to_peer_file_sharin.Tracker.Connection.{Connection, handle_frame, handle_words}
use peer_to_peer_file_sharin.Client.UploadRegistry.{add}
use peer_to_peer_file_sharin.Client.PeerServer.{Disk}
use peer_to_peer_file_sharin.Client.TrackerClient.{Exchange}
use peer_to_peer_file_sharin.Client.Commands.{
  Processor, Executed, request, asks_tracker, upload_words, upload_opened, upload_file, rejoined,
  base_name, execute_session, execute,
}

-- The largest file whose number of pieces fits an int.
abbrev pub max_upload : ℕ
max_upload = (int_limit - 1) * piece_size

resize-same : (xs : List Bytes) → resize (length xs) xs ≡ xs
unfolding resize
resize-same [] = refl
resize-same (x ∷ xs) = ap (◌∷◌ x) (resize-same xs)

-- What the tracker holds of a file that a member has uploaded.
pub record Records (gid fname user : Bytes) (size : ℕ) (hash : Bytes) (hashes : List Bytes)
    (before after : TrackerState) : Type 0 where
  pub described :
      find (file_key gid fname) after.files
      ≡ some (record {
        size = size;
        fullhash = hash;
        num_pieces = length hashes;
        piece_hashes = hashes;
        peers = insert user (peers_of (find (file_key gid fname) before.files));
      })
  pub listed : group_has_file_locked gid fname after ≡ true

upload_file-Records :
    (gid fname user : Bytes) (size : ℕ) (hash : Bytes) (n : ℕ) (hashes : List Bytes) (g : Group)
    (s : TrackerState)
    → find gid s.groups ≡ some g
    → is_outsider user g s ≡ false
    → valid_filename fname ≡ true
    → length hashes ≡ n
    → Records gid fname user size hash hashes s
        (State.upload_file gid fname user size hash n hashes s).0
unfolding State.upload_file upload_found group_has_file_locked
upload_file-Records gid fname user size hash n hashes g s e inside valid l = record {
  described =
      rw (← l, e, upload_found, inside, valid, find-assign, ==_refl (file_key gid fname))
        (rw resize-same refl);
  listed =
      rw (e, upload_found, inside, valid, find-assign, ==_refl gid)
        (ground (
          arith,
          member-insert fname fname (names_or_none (find gid s.group_files)),
          ==_refl fname,
        ));
}

module _ (evp : Evp) (gid fname content : Bytes) where
  abbrev pieces : ℕ
  pieces = (sha1_file_pieces evp (some content)).1

  abbrev hashes : List Bytes
  hashes = (sha1_file_pieces evp (some content)).0

  pieces-expected : length content ≤ max_upload → expected_pieces (length content) ≡ some pieces
  unfolding expected_pieces sha1_file_pieces
  pieces-expected h = ground arith

  pieces-small : length content ≤ max_upload → pieces < int_limit
  unfolding sha1_file_pieces
  pieces-small h = omega arith

  pieces-agree :
      length content ≤ max_upload
      → pieces_agree pieces (expected_pieces (length content)) (length hashes) ≡ true
  unfolding pieces_agree
  pieces-agree h =
      rw (pieces-expected h, pieces_agree) (ground (arith, sha1_file_pieces-length evp content))

  within : length content ≤ max_upload → ltb pieces int_limit ≡ true
  within h = ground (arith, pieces-small h)

  -- The state and the reply that recording the file leaves.
  abbrev pub recorded : Bytes → TrackerState → TrackerState × Bytes
  recorded user s =
      let r =
        State.upload_file gid fname user (length content) (sha1_file_hex evp (some content)) pieces
          hashes s in
      (r.0, r.1.message)

  run_upload-words :
      (user hash : Bytes) (s : TrackerState)
      → hash ≡ sha1_file_hex evp (some content)
      → length content ≤ max_upload
      → run_upload user
          (gid ∷ fname ∷ to_string (length content) ∷ hash ∷ to_string pieces ∷ hashes)
          s
        ≡ recorded user s
  unfolding run_upload
  run_upload-words user hash s e h =
      rw
        (
          e,
          parse_ll-to_string (length content) (omega (arith, h)),
          parse_int-to_string pieces (omega (arith, pieces-small h)),
          within h,
          upload_parsed,
          pieces-agree h,
        )
        refl

  abbrev pub announcement : Bytes → Bytes
  announcement token = request (lit "upload_file") (upload_words evp token gid fname content)

  -- What the tracker makes of a frame that announces the file.
  handle_frame-upload :
      (amb : Ambient) (srv : Server) (conn : Connection) (token user : Bytes) (sessions : Sessions)
      → length content ≤ max_upload
      → All IsWord (lit "upload_file" ∷ upload_words evp token gid fname content)
      → username_for amb.now token srv.sessions ≡ (some user, sessions)
      → (handle_frame evp amb (announcement token) srv conn).server.state
        ≡ (recorded user srv.state).0
  unfolding handle_frame dispatch dispatch_session run_as run_command upload_words lit ◌==◌
  handle_frame-upload amb srv conn token user sessions h w e =
      rw
        (
          split_args-spaced (lit "upload_file") (upload_words evp token gid fname content) w.0 w.1,
          handle_words,
          e,
          run_as,
          run_command,
          run_upload-words user (sha1_file_hex evp (some content)) srv.state refl h,
        )
        refl

module _ (evp : Evp) (x : Exchange) (disk : Disk) (gid w content : Bytes) (ws : List Bytes)
    (p : Processor) where
  abbrev pub path : Bytes
  path = rejoined w ws

  execute-announcement :
      p.connected ≡ true
      → find path disk ≡ some content
      → is_empty content ≡ false
      → execute evp x disk (lit "upload_file" ∷ gid ∷ w ∷ ws) p
        ≡ asks_tracker x
            (announcement evp gid (base_name path) content p.tracker.token)
            (record p { registry = add (base_name path) path p.registry })
  unfolding execute execute_session upload_file lit ◌==◌
  execute-announcement c e h = rw (c, e, upload_opened, h) refl

  -- The command upload_file of a user who is logged in, for a file that can be opened and is not
  -- empty, shares it under its name; if the announcement goes out, the token resolves to a member of
  -- the group and the name is valid, the tracker that gets it lists the file in the group and holds of
  -- it the size, the hash and the hash of each piece of its content, with that member among the
  -- seeders. The words of the announcement are words, and the number of pieces fits an int.
  pub handle_frame-execute_upload :
      (amb : Ambient) (srv : Server) (conn : Connection) (user msg : Bytes) (sessions : Sessions)
      (g : Group)
      → p.connected ≡ true
      → find path disk ≡ some content
      → is_empty content ≡ false
      → length content ≤ max_upload
      → All IsWord
          (lit "upload_file" ∷ upload_words evp p.tracker.token gid (base_name path) content)
      → username_for amb.now p.tracker.token srv.sessions ≡ (some user, sessions)
      → find gid srv.state.groups ≡ some g
      → is_outsider user g srv.state ≡ false
      → valid_filename (base_name path) ≡ true
      → (execute evp x disk (lit "upload_file" ∷ gid ∷ w ∷ ws) p).sent ≡ some msg
      → (find
            (base_name path)
            (execute evp x disk (lit "upload_file" ∷ gid ∷ w ∷ ws) p).after.registry
          ≡ some path)
        × Records gid
            (base_name path)
            user
            (length content)
            (sha1_file_hex evp (some content))
            (sha1_file_pieces evp (some content)).0
            srv.state
            (handle_frame evp amb msg srv conn).server.state
  unfolding asks_tracker add
  handle_frame-execute_upload amb srv conn user msg sessions g c e h l ok r found inside valid
        sent =
      (
        rw (execute-announcement c e h, find-assign, ==_refl (base_name path)) refl,
        rw (← some-injective _ _ (ap Executed.sent (sym (execute-announcement c e h)) ∙ sent)) (
            subst
              (Records gid (base_name path) user (length content) (sha1_file_hex evp (some content))
                (sha1_file_pieces evp (some content)).0 srv.state)
              (sym (
                handle_frame-upload evp gid (base_name path) content amb srv conn p.tracker.token
                  user sessions l ok r))
              (upload_file-Records gid (base_name path) user (length content)
                (sha1_file_hex evp (some content)) (sha1_file_pieces evp (some content)).1
                (sha1_file_pieces evp (some content)).0 g srv.state found inside valid
                (sha1_file_pieces-length evp content))),
      )
