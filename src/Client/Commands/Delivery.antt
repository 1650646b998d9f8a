-- ===== src/Client/Commands/Delivery.antt =====
-- From a command of the user (src/client/commands.cpp) to what the tracker does with it
-- (`managepeer` and `dispatch` of src/tracker/main.cpp).
use peer_to_peer_file_sharin.Prelude.{
  ◌≡◌, refl, ap, sym, ◌∙◌, true, false, not, List, [], ◌∷◌, Option, none, some, if◌then◌else◌,
  if_elim, All, arith, Bool-cases, inl, inr,
}
use mathlib.Core.Option.{some-injective}
use peer_to_peer_file_sharin.Bytes.{Bytes, lit, ◌==◌, ==_iff}
use peer_to_peer_file_sharin.Container.NameSet.{member}
use peer_to_peer_file_sharin.Common.Message.{IsWord}
use peer_to_peer_file_sharin.Common.Hash.{Evp}
use peer_to_peer_file_sharin.Tracker.Recovery.Lines.{split_args-spaced}
use peer_to_peer_file_sharin.Tracker.Dispatch.{Server, Ambient, dispatch, dispatch_session}
use peer_to_peer_file_sharin.Tracker.Connection.{Connection, handle_frame, handle_words}
use peer_to_peer_file_sharin.Client.PeerServer.{Disk}
use peer_to_peer_file_sharin.Client.TrackerClient.{Exchange}
use peer_to_peer_file_sharin.Client.Commands.{
  Processor, Executed, request, says, asks_tracker, with_one, with_two, stop_share, execute_session,
  execute, download_file,
}

-- The commands whose words go to the tracker behind the token.
abbrev pub forwarded : List Bytes
forwarded =
    lit "create_group"
    ∷ lit "join_group"
    ∷ lit "leave_group"
    ∷ lit "list_requests"
    ∷ lit "accept_request"
    ∷ lit "reject_request"
    ∷ lit "list_files"
    ∷ lit "stop_share"
    ∷ []

-- A member of a list is none of the words that no element of the list is.
member-other :
    (cmd b : Bytes) (verbs : List Bytes)
    → All (λ a. (a == b) ≡ false) verbs
    → member cmd verbs ≡ true
    → (cmd == b) ≡ false
unfolding member
member-other cmd b [] h m = cc
member-other cmd b (a ∷ verbs) h m =
    ground (arith, m, h.0, ==_iff a cmd, ==_iff a b, ==_iff cmd b, member-other cmd b verbs h.1)

abbrev Other : Bytes → Type 0
Other b = All (λ a. (a == b) ≡ false) forwarded

commands-Other : Other (lit "commands")
unfolding lit ◌==◌
commands-Other = (refl, (refl, (refl, (refl, (refl, (refl, (refl, (refl, tt))))))))

create_user-Other : Other (lit "create_user")
unfolding lit ◌==◌
create_user-Other = (refl, (refl, (refl, (refl, (refl, (refl, (refl, (refl, tt))))))))

login-Other : Other (lit "login")
unfolding lit ◌==◌
login-Other = (refl, (refl, (refl, (refl, (refl, (refl, (refl, (refl, tt))))))))

logout-Other : Other (lit "logout")
unfolding lit ◌==◌
logout-Other = (refl, (refl, (refl, (refl, (refl, (refl, (refl, (refl, tt))))))))

list_groups-Other : Other (lit "list_groups")
unfolding lit ◌==◌
list_groups-Other = (refl, (refl, (refl, (refl, (refl, (refl, (refl, (refl, tt))))))))

upload_file-Other : Other (lit "upload_file")
unfolding lit ◌==◌
upload_file-Other = (refl, (refl, (refl, (refl, (refl, (refl, (refl, (refl, tt))))))))

sync-Other : Other (lit "SYNC_REQ")
unfolding lit ◌==◌
sync-Other = (refl, (refl, (refl, (refl, (refl, (refl, (refl, (refl, tt))))))))

state-Other : Other (lit "STATE")
unfolding lit ◌==◌
state-Other = (refl, (refl, (refl, (refl, (refl, (refl, (refl, (refl, tt))))))))

module _ (evp : Evp) (x : Exchange) (disk : Disk) (cmd : Bytes) (args : List Bytes) (p : Processor)
    (msg : Bytes) where
  -- What was sent is the command with the token and its words.
  abbrev Forwards : Executed → Type 0
  Forwards e = e.sent ≡ some msg → msg ≡ request cmd (p.tracker.token ∷ args)

  with_one-Forwards :
      (usage : Bytes) (ws : List Bytes) → ws ≡ args → Forwards (with_one x usage cmd ws p)
  unfolding with_one asks_tracker
  with_one-Forwards usage [] e h = cc
  with_one-Forwards usage (a ∷ []) e h =
      sym (some-injective _ _ h) ∙ ap (λ ws. request cmd (p.tracker.token ∷ ws)) e
  with_one-Forwards usage (a ∷ b ∷ ws) e h = cc

  with_two-Forwards :
      (usage : Bytes) (ws : List Bytes) → ws ≡ args → Forwards (with_two x usage cmd ws p)
  unfolding with_two asks_tracker
  with_two-Forwards usage [] e h = cc
  with_two-Forwards usage (a ∷ []) e h = cc
  with_two-Forwards usage (a ∷ b ∷ []) e h =
      sym (some-injective _ _ h) ∙ ap (λ ws. request cmd (p.tracker.token ∷ ws)) e
  with_two-Forwards usage (a ∷ b ∷ c ∷ ws) e h = cc

  stop_share-Forwards :
      (ws : List Bytes) → cmd ≡ lit "stop_share" → ws ≡ args → Forwards (stop_share x ws p)
  unfolding stop_share
  stop_share-Forwards [] c e h = cc
  stop_share-Forwards (a ∷ []) c e h = cc
  stop_share-Forwards (a ∷ b ∷ []) c e h =
      sym (some-injective _ _ h)
      ∙ ap (λ ws. request (lit "stop_share") (p.tracker.token ∷ ws)) e
      ∙ ap (λ v. request v (p.tracker.token ∷ args)) (sym c)
  stop_share-Forwards (a ∷ b ∷ d ∷ ws) c e h = cc

  download_file-sent : (ws : List Bytes) → (download_file ws p).sent ≡ none
  unfolding download_file
  download_file-sent [] = refl
  download_file-sent (a ∷ []) = refl
  download_file-sent (a ∷ b ∷ []) = refl
  download_file-sent (a ∷ b ∷ d ∷ ws) = refl

  module _ (own : member cmd forwarded ≡ true) where
    not-Other : (b : Bytes) → Other b → (cmd == b) ≡ false
    not-Other b h = member-other cmd b forwarded h own

    execute_session-Forwards : Forwards (execute_session evp x disk cmd args p)
    unfolding execute_session asks_tracker
    execute_session-Forwards =
        rw
          (
            not-Other (lit "logout") logout-Other,
            not-Other (lit "list_groups") list_groups-Other,
            not-Other (lit "upload_file") upload_file-Other,
          )
          (one (lit "create_group") _ _ (
            one (lit "join_group") _ _ (
              one (lit "leave_group") _ _ (
                one (lit "list_requests") _ _ (
                  two (lit "accept_request") _ _ (
                    two (lit "reject_request") _ _ (
                      one (lit "list_files") _ _ (
                        if_elim Forwards (cmd == lit "download_file") _ _
                          (λ _ h. absurd (unsent _ (download_file-sent args) h))
                          (λ _.
                            if_elim Forwards (cmd == lit "stop_share") _ _
                              (λ e. stop_share-Forwards args ((==_iff cmd _).0 e) refl)
                              (λ _.
                                if_elim Forwards (cmd == lit "show_downloads") _ _ (λ _ h. cc)
                                  (λ _ h. cc)))))))))))
      where
        unsent : (o : Option Bytes) → o ≡ none → o ≡ some msg → ⊥
        unsent o n h = cc

        one :
            (b : Bytes) (usage : Bytes) (rest : Executed)
            → Forwards rest
            → Forwards (if cmd == b then with_one x usage cmd args p else rest)
        one b usage rest h =
            if_elim Forwards (cmd == b) _ rest (λ _. with_one-Forwards usage args refl) (λ _. h)

        two :
            (b : Bytes) (usage : Bytes) (rest : Executed)
            → Forwards rest
            → Forwards (if cmd == b then with_two x usage cmd args p else rest)
        two b usage rest h =
            if_elim Forwards (cmd == b) _ rest (λ _. with_two-Forwards usage args refl) (λ _. h)

    execute-Forwards : Forwards (execute evp x disk (cmd ∷ args) p)
    unfolding execute
    execute-Forwards =
        rw
          (
            not-Other (lit "commands") commands-Other,
            not-Other (lit "create_user") create_user-Other,
            not-Other (lit "login") login-Other,
          )
          (if_elim Forwards (not p.connected) _ _ (λ _ h. cc) (λ _. execute_session-Forwards))

-- These and list_groups, which has no words of its own.
abbrev pub verbs : List Bytes
verbs = lit "list_groups" ∷ forwarded

-- The words that go to the tracker behind the token.
abbrev pub sent_words : Bytes → List Bytes → List Bytes
sent_words cmd args = if cmd == lit "list_groups" then [] else args

list_groups-Forwards :
    (evp : Evp) (x : Exchange) (disk : Disk) (args : List Bytes) (p : Processor) (msg : Bytes)
    → (execute evp x disk (lit "list_groups" ∷ args) p).sent ≡ some msg
    → msg ≡ request (lit "list_groups") (p.tracker.token ∷ [])
unfolding execute execute_session asks_tracker lit ◌==◌
list_groups-Forwards evp x disk args p msg =
    if_elim (λ e. e.sent ≡ some msg → msg ≡ request (lit "list_groups") (p.tracker.token ∷ []))
      (not p.connected) (says (lit "------- You must log in first. ---------\n") p)
      (asks_tracker x (request (lit "list_groups") (p.tracker.token ∷ [])) p) (λ _ h. cc)
      (λ _ h. sym (some-injective _ _ h))

verbs-member :
    (cmd : Bytes)
    → member cmd verbs ≡ true
    → (cmd == lit "list_groups") ≡ false
    → member cmd forwarded ≡ true
unfolding member
verbs-member cmd m off =
    ground (arith, m, off, ==_iff cmd (lit "list_groups"), ==_iff (lit "list_groups") cmd)

module _ (evp : Evp) (x : Exchange) (disk : Disk) (cmd : Bytes) (args : List Bytes) (p : Processor)
    (msg : Bytes) (own : member cmd verbs ≡ true) where
  execute-verbs :
      (execute evp x disk (cmd ∷ args) p).sent ≡ some msg
      → msg ≡ request cmd (p.tracker.token ∷ sent_words cmd args)
  execute-verbs h = elim (Bool-cases (cmd == lit "list_groups")) [
    | inl same ↦
        let e : cmd ≡ lit "list_groups" = (==_iff cmd (lit "list_groups")).0 same in
        list_groups-Forwards evp x disk args p msg
          (ap (λ c. (execute evp x disk (c ∷ args) p).sent) (sym e) ∙ h)
        ∙ ap (λ c. request c (p.tracker.token ∷ [])) (sym e)
        ∙ ap (λ b. request cmd (p.tracker.token ∷ (if b then [] else args))) (sym same)
    | inr other ↦
        execute-Forwards evp x disk cmd args p msg (verbs-member cmd own other) h
        ∙ ap (λ b. request cmd (p.tracker.token ∷ (if b then [] else args))) (sym other)
  ]

  is_not : (b : Bytes) → All (λ a. (a == b) ≡ false) verbs → (cmd == b) ≡ false
  is_not b h = member-other cmd b verbs h own

  -- What the tracker makes of a frame with the command and the token.
  handle_frame-request :
      (amb : Ambient) (srv : Server) (conn : Connection) (ws : List Bytes)
      → All IsWord (cmd ∷ p.tracker.token ∷ ws)
      → ((handle_frame evp amb (request cmd (p.tracker.token ∷ ws)) srv conn).reply
          ≡ (dispatch_session amb.now cmd (p.tracker.token ∷ ws) srv).0)
        × ((handle_frame evp amb (request cmd (p.tracker.token ∷ ws)) srv conn).server
            ≡ (dispatch_session amb.now cmd (p.tracker.token ∷ ws) srv).1)
  unfolding handle_frame dispatch lit ◌==◌
  handle_frame-request amb srv conn ws w =
      rw
        (
          split_args-spaced cmd (p.tracker.token ∷ ws) w.0 w.1,
          handle_words,
          is_not (lit "SYNC_REQ") (refl, sync-Other),
          is_not (lit "STATE") (refl, state-Other),
          is_not (lit "create_user") (refl, create_user-Other),
          is_not (lit "login") (refl, login-Other),
        )
        (refl, refl)

  -- A command about groups, requests, lists or shares, list_groups included, that is sent to the
  -- tracker, with a token and arguments that are words, is there the session command of that verb
  -- with the client's token and the words of the user; list_groups sends none of these.
  pub handle_frame-execute :
      (amb : Ambient) (srv : Server) (conn : Connection)
      → All IsWord (cmd ∷ p.tracker.token ∷ sent_words cmd args)
      → (execute evp x disk (cmd ∷ args) p).sent ≡ some msg
      → ((handle_frame evp amb msg srv conn).reply
          ≡ (dispatch_session amb.now cmd (p.tracker.token ∷ sent_words cmd args) srv).0)
        × ((handle_frame evp amb msg srv conn).server
            ≡ (dispatch_session amb.now cmd (p.tracker.token ∷ sent_words cmd args) srv).1)
  handle_frame-execute amb srv conn w h =
      rw (execute-verbs h) (handle_frame-request amb srv conn (sent_words cmd args) w)
