-- ===== src/Tracker/Dispatch/Authority.antt =====
-- On whose behalf `dispatch` of src/tracker/main.cpp acts: what each session command does is an
-- operation of the user whom the token stands for, and nothing happens without one.
use peer_to_peer_file_sharin.Prelude.{
  ℕ, ◌≡◌, refl, false, List, [], ◌∷◌, Option, none, some, arith, if◌then◌else◌, length, ℤ, pos,
  if_elim,
}
use peer_to_peer_file_sharin.Bytes.{Bytes, ◌==◌, lit}
use peer_to_peer_file_sharin.Common.Message.{parse_ll, parse_int}
use peer_to_peer_file_sharin.Common.Hash.{Evp}
use peer_to_peer_file_sharin.Tracker.Session.{Sessions, username_for}
use peer_to_peer_file_sharin.Tracker.Session.Expiry.{resolves}
use peer_to_peer_file_sharin.Tracker.State.{TrackerState}
use peer_to_peer_file_sharin.Tracker.Operation.{
  Operation, logout, create_group, join_group, leave_group, accept_request, reject_request,
  upload_file, file_downloaded, stop_share, apply,
}
use peer_to_peer_file_sharin.Tracker.Dispatch.{
  Server, auth_error, run_upload, run_command, run_as, dispatch_session,
}
use peer_to_peer_file_sharin.Tracker.Dispatch.Upload.{expected_pieces, pieces_agree}

-- What an optional operation leaves behind.
abbrev pub effect : Evp → Option Operation → TrackerState → TrackerState
effect evp none s = s
effect evp (some op) s = (apply evp op s).0

abbrev pub upload_request :
    Bytes → Bytes → Bytes → Option ℤ → Bytes → Option ℤ → List Bytes → Option Operation
upload_request user gid fname (some (pos size)) hash (some (pos n)) hashes =
    if pieces_agree n (expected_pieces size) (length hashes)
    then some (upload_file gid fname user size hash n hashes)
    else none
upload_request user gid fname _ hash _ hashes = none

abbrev one : (Bytes → Operation) → List Bytes → Option Operation
one op (gid ∷ []) = some (op gid)
one op _ = none

abbrev two : (Bytes → Bytes → Operation) → List Bytes → Option Operation
two op (gid ∷ w ∷ []) = some (op gid w)
two op _ = none

abbrev upload : Bytes → List Bytes → Option Operation
upload user (gid ∷ fname ∷ size ∷ hash ∷ n ∷ hashes) =
    upload_request user gid fname (parse_ll size) hash (parse_int n) hashes
upload user _ = none

-- The operation that a session command asks for in a user's name, if it asks for one.
pub request : Bytes → Bytes → List Bytes → Option Operation
request cmd user args =
    if cmd == lit "create_group"
    then one (λ gid. create_group gid user) args
    else if cmd == lit "join_group"
    then one (λ gid. join_group gid user) args
    else if cmd == lit "leave_group"
    then one (λ gid. leave_group gid user) args
    else if cmd == lit "list_requests"
    then none
    else if cmd == lit "accept_request"
    then two (λ gid a. accept_request gid a user) args
    else if cmd == lit "reject_request"
    then two (λ gid a. reject_request gid a user) args
    else if cmd == lit "list_groups"
    then none
    else if cmd == lit "upload_file"
    then upload user args
    else if cmd == lit "list_files"
    then none
    else if cmd == lit "download_file"
    then none
    else if cmd == lit "file_downloaded"
    then two (λ gid fname. file_downloaded gid fname user) args
    else if cmd == lit "stop_share"
    then two (λ gid fname. stop_share gid fname user) args
    else none

-- The user in whose name an operation stands.
abbrev pub ActsFor : Bytes → Operation → Type 0
ActsFor u (create_group gid user) = user ≡ u
ActsFor u (join_group gid user) = user ≡ u
ActsFor u (leave_group gid user) = user ≡ u
ActsFor u (accept_request gid a user) = user ≡ u
ActsFor u (reject_request gid a user) = user ≡ u
ActsFor u (upload_file gid fname user size hash n hashes) = user ≡ u
ActsFor u (file_downloaded gid fname user) = user ≡ u
ActsFor u (stop_share gid fname user) = user ≡ u
ActsFor u (logout user) = user ≡ u
ActsFor u _ = ⊥

module _ (evp : Evp) (user : Bytes) (s : TrackerState) where
  run_upload-upload :
      (args : List Bytes) → (run_upload user args s).0 ≡ effect evp (upload user args) s
  unfolding run_upload apply
  run_upload-upload (gid ∷ fname ∷ size ∷ hash ∷ n ∷ hashes) = ground arith
  run_upload-upload _ = refl

  run_command-request :
      (cmd : Bytes) (args : List Bytes)
      → (run_command cmd user args s).0 ≡ effect evp (request cmd user args) s
  unfolding run_command request apply
  run_command-request cmd [] = ground (arith, run_upload-upload [])
  run_command-request cmd (a ∷ []) = ground (arith, run_upload-upload (a ∷ []))
  run_command-request cmd (a ∷ b ∷ []) = ground (arith, run_upload-upload (a ∷ b ∷ []))
  run_command-request cmd (a ∷ b ∷ c ∷ rest) = ground (arith, run_upload-upload (a ∷ b ∷ c ∷ rest))

abbrev RequestActsFor : Bytes → Option Operation → Type 0
RequestActsFor u none = Unit {0}
RequestActsFor u (some op) = ActsFor u op

module _ (cmd user : Bytes) where
  abbrev Acts : Option Operation → Type 0
  Acts = RequestActsFor user

  one-ActsFor :
      (op : Bytes → Operation)
      → ((gid : Bytes) → ActsFor user (op gid))
      → (args : List Bytes) → Acts (one op args)
  one-ActsFor op h [] = tt
  one-ActsFor op h (gid ∷ []) = h gid
  one-ActsFor op h (gid ∷ w ∷ args) = tt

  two-ActsFor :
      (op : Bytes → Bytes → Operation)
      → ((gid w : Bytes) → ActsFor user (op gid w))
      → (args : List Bytes) → Acts (two op args)
  two-ActsFor op h [] = tt
  two-ActsFor op h (gid ∷ []) = tt
  two-ActsFor op h (gid ∷ w ∷ []) = h gid w
  two-ActsFor op h (gid ∷ w ∷ v ∷ args) = tt

  upload_request-ActsFor :
      (gid fname hash : Bytes) (size n : Option ℤ) (hashes : List Bytes)
      → Acts (upload_request user gid fname size hash n hashes)
  upload_request-ActsFor gid fname hash (some (pos size)) (some (pos n)) hashes =
      if_elim Acts (pieces_agree n (expected_pieces size) (length hashes)) _ _ (λ _. refl) (λ _. tt)
  upload_request-ActsFor gid fname hash _ _ hashes = tt

  upload-ActsFor : (args : List Bytes) → Acts (upload user args)
  upload-ActsFor (gid ∷ fname ∷ size ∷ hash ∷ n ∷ hashes) =
      upload_request-ActsFor gid fname hash (parse_ll size) (parse_int n) hashes
  upload-ActsFor _ = tt

  -- Whatever a session command asks for stands in the name of its user.
  request-ActsFor : (args : List Bytes) → Acts (request cmd user args)
  unfolding request
  request-ActsFor args =
      if_elim Acts (cmd == lit "create_group") _ _ (λ _. one-ActsFor _ (λ _. refl) args)
        λ _.
          if_elim Acts (cmd == lit "join_group") _ _ (λ _. one-ActsFor _ (λ _. refl) args)
            λ _.
              if_elim Acts (cmd == lit "leave_group") _ _ (λ _. one-ActsFor _ (λ _. refl) args)
                λ _.
                  if_elim Acts (cmd == lit "list_requests") _ _ (λ _. tt)
                    λ _.
                      if_elim Acts (cmd == lit "accept_request") _ _
                        (λ _. two-ActsFor _ (λ _ _. refl) args)
                        λ _.
                          if_elim Acts (cmd == lit "reject_request") _ _
                            (λ _. two-ActsFor _ (λ _ _. refl) args)
                            λ _.
                              if_elim Acts (cmd == lit "list_groups") _ _ (λ _. tt)
                                λ _.
                                  if_elim Acts (cmd == lit "upload_file") _ _
                                    (λ _. upload-ActsFor args)
                                    λ _.
                                      if_elim Acts (cmd == lit "list_files") _ _ (λ _. tt)
                                        λ _.
                                          if_elim Acts (cmd == lit "download_file") _ _ (λ _. tt)
                                            λ _.
                                              if_elim Acts (cmd == lit "file_downloaded") _ _
                                                (λ _. two-ActsFor _ (λ _ _. refl) args)
                                                λ _.
                                                  if_elim Acts (cmd == lit "stop_share") _ _
                                                    (λ _. two-ActsFor _ (λ _ _. refl) args)
                                                    (λ _. tt)

-- The operation of the user that a token resolved to.
abbrev pub authorized : Bytes → List Bytes → Option Bytes → Option Operation
authorized cmd args none = none
authorized cmd args (some user) = request cmd user args

run_as-authorized :
    (evp : Evp) (cmd : Bytes) (args : List Bytes) (who : Option Bytes × Sessions) (s : TrackerState)
    → (run_as cmd args who s).1.state ≡ effect evp (authorized cmd args who.0) s
unfolding run_as
run_as-authorized evp cmd args (none, sessions) s = refl
run_as-authorized evp cmd args (some user, sessions) s = run_command-request evp user s cmd args

-- An operation, if there is one, acts for the user, and there is none without a user.
abbrev pub InNameOf : Option Bytes → Option Operation → Type 0
InNameOf who none = Unit {0}
InNameOf none (some op) = ⊥
InNameOf (some user) (some op) = ActsFor user op

request-InNameOf :
    (user : Bytes) (o : Option Operation) → RequestActsFor user o → InNameOf (some user) o
request-InNameOf user none h = tt
request-InNameOf user (some op) h = h

authorized-InNameOf :
    (cmd : Bytes) (args : List Bytes) (who : Option Bytes) → InNameOf who (authorized cmd args who)
authorized-InNameOf cmd args none = tt
authorized-InNameOf cmd args (some user) =
    request-InNameOf user (request cmd user args) (request-ActsFor cmd user args)

-- The command's own reply, or the authorisation error.
abbrev pub authorized_reply : Bytes → List Bytes → Option Bytes → TrackerState → Bytes
authorized_reply cmd args none s = auth_error
authorized_reply cmd args (some user) s = (run_command cmd user args s).1

run_as-reply :
    (cmd : Bytes) (args : List Bytes) (who : Option Bytes × Sessions) (s : TrackerState)
    → (run_as cmd args who s).0 ≡ authorized_reply cmd args who.0 s
unfolding run_as
run_as-reply cmd args (none, sessions) s = refl
run_as-reply cmd args (some user, sessions) s = refl

-- A session command other than logout changes the state exactly by the operation it asks for in
-- the name of the user its token resolves to, and each such operation acts for that user; without
-- a valid token the state is unchanged and the reply is the authorisation error.
pub dispatch_session-authorized :
    (evp : Evp) (now : ℕ) (cmd token : Bytes) (args : List Bytes) (srv : Server)
    → (cmd == lit "logout") ≡ false
    → let r = dispatch_session now cmd (token ∷ args) srv in
      let who = resolves now token srv.sessions in
      (r.1.state ≡ effect evp (authorized cmd args who) srv.state)
      × InNameOf who (authorized cmd args who)
      × (r.0 ≡ authorized_reply cmd args who srv.state)
unfolding dispatch_session
dispatch_session-authorized evp now cmd token args srv other =
    let found = username_for now token srv.sessions in
    (
      rw other (run_as-authorized evp cmd args found srv.state),
      authorized-InNameOf cmd args found.0,
      rw other (run_as-reply cmd args found srv.state),
    )
