-- ===== src/Tracker/Dispatch.antt =====
-- `dispatch` of src/tracker/main.cpp: one parsed command of a connection becomes a reply, over the
-- tracker's state and its sessions. `comds` is `cmd ∷ args`; the session commands get `args`
-- behind the token.
pub mod Upload
pub mod Authority
unfoldable pub use Upload.{run_upload}
use peer_to_peer_file_sharin.Prelude.{
  ℕ, Bool, true, false, not, ◌&&◌, ◌||◌, List, [], ◌∷◌, ◌++◌, Option, none, some, nat_eq, ltb, leb,
  if◌then◌else◌, ℤ, pos, negsuc,
}
use peer_to_peer_file_sharin.Bytes.{Bytes, ◌==◌, lit, is_empty}
use peer_to_peer_file_sharin.Common.Message.{parse_int}
use peer_to_peer_file_sharin.Common.Hash.{Evp}
use peer_to_peer_file_sharin.Common.Auth.{Drawn}
use peer_to_peer_file_sharin.Tracker.Session.{Sessions, create, username_for, destroy}
use peer_to_peer_file_sharin.Tracker.State.{
  Result, TrackerState, create_user, login, logout, create_group, join_group, leave_group,
  list_requests, accept_request, reject_request, list_groups, list_files, download_file,
  file_downloaded, stop_share,
}
use peer_to_peer_file_sharin.Tracker.Persistence.{serialize, merge_from}

-- g_state and g_sessions
pub record Server : Type 0 where
  pub state : TrackerState
  pub sessions : Sessions

-- What a command reads of its surroundings: the clock, RAND_bytes and the socket's address.
pub record Ambient : Type 0 where
  pub now : ℕ
  pub drawn : Drawn
  pub peer_ip : Bytes

unfoldable pub auth_error : Bytes
unfolding lit
auth_error = lit "ERROR: AUTH_REQUIRED - session invalid or expired, please log in again"

unfoldable pub invalid_arguments : Bytes
unfolding lit
invalid_arguments = lit "-----Invalid Arguments-----"

unfoldable pub invalid_login : Bytes
unfolding lit
invalid_login = lit "-----Invalid Arguments for login-----"

-- The reply of a command that may change the state.
abbrev pub replied : TrackerState × Result → TrackerState × Bytes
replied r = (r.0, r.1.message)

-- The commands with one group as their argument.
unfoldable pub run_with_group :
    (Bytes → TrackerState → TrackerState × Result)
    → List Bytes
    → TrackerState
    → TrackerState × Bytes
run_with_group run (gid ∷ []) s = replied (run gid s)
run_with_group run _ s = (s, invalid_arguments)

-- The commands with a group and one more word.
unfoldable pub run_with_two :
    Bytes
    → (Bytes → Bytes → TrackerState → TrackerState × Result)
    → List Bytes
    → TrackerState
    → TrackerState × Bytes
run_with_two complaint run (gid ∷ w ∷ []) s = replied (run gid w s)
run_with_two complaint run _ s = (s, complaint)

abbrev pub query_group :
    (Bytes → TrackerState → Result) → Bytes → TrackerState → TrackerState × Result
query_group run gid s = (s, run gid s)

-- A command of the user that the token stands for.
unfoldable pub run_command : Bytes → Bytes → List Bytes → TrackerState → TrackerState × Bytes
unfolding run_with_group run_with_two run_upload
run_command cmd user args s =
    if cmd == lit "create_group"
    then run_with_group (λ gid. create_group gid user) args s
    else if cmd == lit "join_group"
    then run_with_group (λ gid. join_group gid user) args s
    else if cmd == lit "leave_group"
    then run_with_group (λ gid. leave_group gid user) args s
    else if cmd == lit "list_requests"
    then run_with_group (query_group (λ gid. list_requests gid user)) args s
    else if cmd == lit "accept_request"
    then run_with_two invalid_arguments (λ gid a. accept_request gid a user) args s
    else if cmd == lit "reject_request"
    then run_with_two invalid_arguments (λ gid a. reject_request gid a user) args s
    else if cmd == lit "list_groups"
    then replied (s, list_groups s)
    else if cmd == lit "upload_file"
    then run_upload user args s
    else if cmd == lit "list_files"
    then run_with_group (query_group (λ gid. list_files gid user)) args s
    else if cmd == lit "download_file"
    then run_with_two (lit "-----Invalid Arguments for download_file-----")
        (λ gid fname t. (t, download_file gid fname user t)) args s
    else if cmd == lit "file_downloaded"
    then run_with_two (lit "-----Invalid Arguments for file_downloaded-----")
        (λ gid fname. file_downloaded gid fname user) args s
    else if cmd == lit "stop_share"
    then run_with_two (lit "-----Invalid Arguments for stop_share-----")
        (λ gid fname. stop_share gid fname user) args s
    else (s, lit "Unrecognized command")

-- The command of the user whose token resolved, or the refusal.
unfoldable pub run_as : Bytes → List Bytes → Option Bytes × Sessions → TrackerState → Bytes × Server
run_as cmd args (none, sessions) s = (auth_error, record { state = s; sessions = sessions })
run_as cmd args (some user, sessions) s =
    let r = run_command cmd user args s in (r.1, record { state = r.0; sessions = sessions })

unfoldable pub finish_logout : Bytes × Sessions → TrackerState → Bytes × Server
finish_logout (user, sessions) s =
    if is_empty user
    then (auth_error, record { state = s; sessions = sessions })
    else (let r = logout user s in (r.1.message, record { state = r.0; sessions = sessions }))

unfoldable pub dispatch_session : ℕ → Bytes → List Bytes → Server → Bytes × Server
unfolding finish_logout run_as
dispatch_session now cmd [] srv = (auth_error, srv)
dispatch_session now cmd (token ∷ args) srv =
    if cmd == lit "logout"
    then finish_logout (destroy token srv.sessions) srv.state
    else run_as cmd args (username_for now token srv.sessions) srv.state

-- Everything behind the first space.
unfoldable pub after_space : Bytes → Option Bytes
after_space [] = none
after_space (c ∷ s) = let rest = after_space s in if nat_eq c b' ' then some s else rest

unfoldable pub merge_reply : Option Bytes → Server → Bytes × Server
merge_reply none srv = (lit "ERR empty state", srv)
merge_reply (some text) srv =
    let r = merge_from text srv.state in
    (if r.0 then lit "OK" else lit "ERR malformed state", record srv { state = r.1 })

-- A port that a peer can listen on.
unfoldable pub valid_port : Option ℤ → Bool
valid_port none = false
valid_port (some (negsuc n)) = false
valid_port (some (pos n)) = ltb 0 n && leb n 65535

unfoldable pub finish_login :
    Ambient → Bytes → Bytes → TrackerState × Result → Sessions → Bytes × Server
finish_login amb user port (s, r) sessions =
    if not r.ok
    then (r.message, record { state = s; sessions = sessions })
    else (let t = create amb.drawn amb.now user amb.peer_ip port sessions in
        (
          if is_empty t.0
              then lit "------ Login failed: server entropy unavailable ------"
              else lit "OK " ++ t.0,
          record { state = s; sessions = t.1 },
        ))

module _ (evp : Evp) where
  unfoldable pub run_create_user : Drawn → List Bytes → Server → Bytes × Server
  run_create_user drawn (user ∷ pass ∷ []) srv =
      let r = create_user evp drawn user pass srv.state in (r.1.message, record srv { state = r.0 })
  run_create_user drawn _ srv = (invalid_arguments, srv)

  unfoldable pub run_login : Ambient → List Bytes → Server → Bytes × Server
  unfolding valid_port finish_login
  run_login amb (user ∷ pass ∷ port ∷ []) srv =
      if not (valid_port (parse_int port))
      then (invalid_login, srv)
      else finish_login amb user port (login evp user pass amb.peer_ip port srv.state) srv.sessions
  run_login amb _ srv = (invalid_login, srv)

  unfoldable pub dispatch : Ambient → Bytes → List Bytes → Bytes → Server → Bytes × Server
  unfolding merge_reply run_create_user run_login dispatch_session
  dispatch amb cmd args raw srv =
      if cmd == lit "SYNC_REQ"
      then (serialize srv.state, srv)
      else if cmd == lit "STATE"
      then merge_reply (after_space raw) srv
      else if cmd == lit "create_user"
      then run_create_user amb.drawn args srv
      else if cmd == lit "login"
      then run_login amb args srv
      else dispatch_session amb.now cmd args srv
