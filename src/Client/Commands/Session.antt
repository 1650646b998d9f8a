-- ===== src/Client/Commands/Session.antt =====
-- The session of src/client/commands.cpp: what is left of one that has ended.
use peer_to_peer_file_sharin.Prelude.{
  ◌≡◌, ◌⊎◌, inl, inr, refl, ap, ◌∙◌, true, not, List, [], ◌∷◌, Option, none, some, if◌then◌else◌,
  if_elim,
}
use peer_to_peer_file_sharin.Bytes.{Bytes, lit, ◌==◌, starts_with, is_empty}
use peer_to_peer_file_sharin.Container.Map.{find}
use peer_to_peer_file_sharin.Common.Hash.{Evp}
use peer_to_peer_file_sharin.Client.PeerServer.{Disk}
use peer_to_peer_file_sharin.Client.TrackerClient.{Exchange, send, clear_token}
use peer_to_peer_file_sharin.Client.Commands.{
  Processor, Executed, request, says, asks_tracker, with_one, with_two, create_user, login,
  logged_in_as, logout, set_session, clear_session, upload_file, upload_opened, rejoined,
  download_file, stop_share, execute_session, execute,
}

-- Without a session there is neither a name nor a token.
abbrev pub IsConsistent : Processor → Type 0
IsConsistent p = (p.connected ≡ true) ⊎ ((p.peername ≡ []) × (p.tracker.token ≡ []))

-- The name, the token and the flag are as before.
record SameSession (p q : Processor) : Type 0 where
  flag : q.connected ≡ p.connected
  name : q.peername ≡ p.peername
  token : q.tracker ≡ p.tracker

same : (p : Processor) → SameSession p p
same p = record { flag = refl; name = refl; token = refl }

SameSession-IsConsistent : (p q : Processor) → SameSession p q → IsConsistent p → IsConsistent q
SameSession-IsConsistent p q s (inl on) = inl (s.flag ∙ on)
SameSession-IsConsistent p q s (inr none_left) =
    inr (s.name ∙ none_left.0, ap (λ t. t.token) s.token ∙ none_left.1)

module _ (x : Exchange) (p : Processor) where
  abbrev Same : Executed → Type 0
  Same e = SameSession p e.after

  with_one-Same : (usage verb : Bytes) (args : List Bytes) → Same (with_one x usage verb args p)
  unfolding with_one asks_tracker
  with_one-Same usage verb [] = same p
  with_one-Same usage verb (a ∷ []) = same p
  with_one-Same usage verb (a ∷ b ∷ args) = same p

  with_two-Same : (usage verb : Bytes) (args : List Bytes) → Same (with_two x usage verb args p)
  unfolding with_two asks_tracker
  with_two-Same usage verb [] = same p
  with_two-Same usage verb (a ∷ []) = same p
  with_two-Same usage verb (a ∷ b ∷ []) = same p
  with_two-Same usage verb (a ∷ b ∷ c ∷ args) = same p

  stop_share-Same : (args : List Bytes) → Same (stop_share x args p)
  unfolding stop_share
  stop_share-Same [] = same p
  stop_share-Same (a ∷ []) = same p
  stop_share-Same (a ∷ b ∷ []) = record { flag = refl; name = refl; token = refl }
  stop_share-Same (a ∷ b ∷ c ∷ args) = same p

  download_file-Same : (args : List Bytes) → Same (download_file args p)
  unfolding download_file
  download_file-Same [] = same p
  download_file-Same (a ∷ []) = same p
  download_file-Same (a ∷ b ∷ []) = same p
  download_file-Same (a ∷ b ∷ c ∷ args) = record { flag = refl; name = refl; token = refl }

  upload_opened-Same :
      (evp : Evp) (gid fpath : Bytes) (o : Option Bytes) → Same (upload_opened evp x gid fpath o p)
  unfolding upload_opened asks_tracker
  upload_opened-Same evp gid fpath none = same p
  upload_opened-Same evp gid fpath (some content) =
      if_elim Same (is_empty content) _ _ (λ _. same p)
        (λ _. record { flag = refl; name = refl; token = refl })

  upload_file-Same :
      (evp : Evp) (disk : Disk) (args : List Bytes) → Same (upload_file evp x disk args p)
  unfolding upload_file
  upload_file-Same evp disk [] = same p
  upload_file-Same evp disk (a ∷ []) = same p
  upload_file-Same evp disk (a ∷ w ∷ ws) =
      upload_opened-Same evp a (rejoined w ws) (find (rejoined w ws) disk)

-- A command leaves a consistent session.
record Good (e : Executed) : Type 0 where
  holds : IsConsistent e.after

module _ (evp : Evp) (x : Exchange) (disk : Disk) (p : Processor) (h : IsConsistent p) where
  still : (text : Bytes) → Good (says text p)
  still text = record { holds = h }

  good : (e : Executed) → SameSession p e.after → Good e
  good e s = record { holds = SameSession-IsConsistent p e.after s h }

  logout-Good : Good (logout x p)
  unfolding logout clear_session clear_token
  logout-Good = record { holds = inr (refl, refl) }

  logged_in_as-Good : (user msg r : Bytes) → Good (logged_in_as user msg r p)
  unfolding logged_in_as set_session
  logged_in_as-Good user msg r =
      if_elim Good (starts_with (lit "OK ") r) _ _ (λ _. record { holds = inl refl })
        (λ _. record { holds = h })

  login-Good : (args : List Bytes) → Good (login x args p)
  unfolding login
  login-Good [] = still _
  login-Good (a ∷ []) = still _
  login-Good (a ∷ b ∷ []) =
      if_elim Good p.connected _ _ (λ _. still _)
        (λ _.
          logged_in_as-Good a (request (lit "login") (a ∷ b ∷ p.host_port ∷ []))
            (send x (request (lit "login") (a ∷ b ∷ p.host_port ∷ [])) p.tracker))
  login-Good (a ∷ b ∷ c ∷ args) = still _

  create_user-Good : (args : List Bytes) → Good (create_user x args p)
  unfolding create_user asks_tracker
  create_user-Good [] = still _
  create_user-Good (a ∷ []) = still _
  create_user-Good (a ∷ b ∷ []) = record { holds = h }
  create_user-Good (a ∷ b ∷ c ∷ args) = still _

  execute_session-Good :
      (cmd : Bytes) (args : List Bytes) → Good (execute_session evp x disk cmd args p)
  unfolding execute_session asks_tracker
  execute_session-Good cmd args =
      if_elim Good (cmd == lit "logout") _ _ (λ _. logout-Good)
        (λ _. one (lit "create_group") _ _ (
          one (lit "join_group") _ _ (
            one (lit "leave_group") _ _ (
              one (lit "list_requests") _ _ (
                two (lit "accept_request") _ _ (
                  two (lit "reject_request") _ _ (
                    if_elim Good (cmd == lit "list_groups") _ _ (λ _. record { holds = h })
                      (λ _. one (lit "list_files") _ _ (
                        if_elim Good (cmd == lit "upload_file") _ _
                          (λ _. good _ (upload_file-Same x p evp disk args))
                          (λ _.
                            if_elim Good (cmd == lit "download_file") _ _
                              (λ _. good _ (download_file-Same x p args))
                              (λ _.
                                if_elim Good (cmd == lit "stop_share") _ _
                                  (λ _. good _ (stop_share-Same x p args))
                                  (λ _.
                                    if_elim Good (cmd == lit "show_downloads") _ _ (λ _. still _)
                                      (λ _. still _)))))))))))))
    where
      one :
          (b usage : Bytes) (rest : Executed)
          → Good rest
          → Good (if cmd == b then with_one x usage cmd args p else rest)
      one b usage rest g =
          if_elim Good (cmd == b) _ rest
            (λ _. good (with_one x usage cmd args p) (with_one-Same x p usage cmd args)) (λ _. g)

      two :
          (b usage : Bytes) (rest : Executed)
          → Good rest
          → Good (if cmd == b then with_two x usage cmd args p else rest)
      two b usage rest g =
          if_elim Good (cmd == b) _ rest
            (λ _. good (with_two x usage cmd args p) (with_two-Same x p usage cmd args)) (λ _. g)

  execute-Good : (args : List Bytes) → Good (execute evp x disk args p)
  unfolding execute
  execute-Good [] = still _
  execute-Good (cmd ∷ args) =
      if_elim Good (cmd == lit "commands") _ _ (λ _. still _)
        (λ _.
          if_elim Good (cmd == lit "create_user") _ _ (λ _. create_user-Good args)
            (λ _.
              if_elim Good (cmd == lit "login") _ _ (λ _. login-Good args)
                (λ _.
                  if_elim Good (not p.connected) _ _ (λ _. still _)
                    (λ _. execute_session-Good cmd args))))

  -- From a state in which there is neither a name nor a token without a session, no command leaves a
  -- name or a token behind without one.
  pub execute-IsConsistent : (args : List Bytes) → IsConsistent (execute evp x disk args p).after
  execute-IsConsistent args = (execute-Good args).holds
