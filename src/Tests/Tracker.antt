-- ===== src/Tests/Tracker.antt =====
-- The theorems about the tracker (src/tracker) at concrete inputs.
use peer_to_peer_file_sharin.Prelude.{
  ◌+◌, ◌≡◌, refl, false, not, ◌&&◌, ◌||◌, List, [], ◌∷◌, Option, none, some, arith, if◌then◌else◌,
  leb,
}
use peer_to_peer_file_sharin.Bytes.{Bytes, lit, ◌==◌, has_byte}
use peer_to_peer_file_sharin.Container.Map.{find}
use peer_to_peer_file_sharin.Common.Hash.{Evp}
use peer_to_peer_file_sharin.Common.Auth.{random_hex}
use peer_to_peer_file_sharin.Tracker.Session.{
  SessionInfo, Sessions, session_ttl, create, destroy, destroy_all_for,
}
use peer_to_peer_file_sharin.Tracker.Session.Expiry.{
  resolves, username_for-create, username_for-create_other, username_for-destroy,
  username_for-destroy_all_for, unless,
}
use peer_to_peer_file_sharin.Container.NameSet.{member}
use peer_to_peer_file_sharin.Tracker.State
use peer_to_peer_file_sharin.Tracker.State.{
  TrackerState, empty_state, download_file, file_key, handle_disconnect,
}
use peer_to_peer_file_sharin.Tracker.Operation.{
  Operation, create_user, create_group, join_group, accept_request, leave_group, upload_file, apply,
  run,
}
use peer_to_peer_file_sharin.Tracker.Operation.Membership.{
  in_group, in_group-apply, owned_by, applied_to, accept_request-ok,
}
use peer_to_peer_file_sharin.Tracker.Operation.Soundness.{IsSound, run-empty_state-IsSound}
use peer_to_peer_file_sharin.Tracker.Dispatch.{Server, dispatch_session}
use peer_to_peer_file_sharin.Tracker.Dispatch.Authority.{
  dispatch_session-authorized, authorized, effect,
}
use peer_to_peer_file_sharin.Tracker.Sharing.FileKey.{file_key-injective}
use peer_to_peer_file_sharin.Tracker.Sharing.Seeders.{unseeded, download_file-handle_disconnect}
use peer_to_peer_file_sharin.Tracker.Replication.Keeping.{Keeps}
use peer_to_peer_file_sharin.Tracker.Replication.Growth.{merge_from-Keeps}
use peer_to_peer_file_sharin.Tracker.Persistence.{merge_from}

-- A digest that always succeeds.
abbrev echo_evp : Evp
echo_evp md s = some s

abbrev alice : Bytes
alice = lit "alice"

abbrev bob : Bytes
bob = lit "bob"

abbrev aos : Bytes
aos = lit "aos"

abbrev drawn : Option Bytes
drawn = some (1 ∷ 2 ∷ [])

-- alice founds a group, bob applies, alice accepts him, bob shares a file, and alice leaves.
abbrev history : List Operation
history =
    create_user drawn alice (lit "secret")
    ∷ create_user drawn bob (lit "hidden")
    ∷ create_group aos alice
    ∷ join_group aos bob
    ∷ accept_request aos bob alice
    ∷ upload_file aos (lit "notes.txt") bob 3 (lit "ab") 1 (lit "cd" ∷ [])
    ∷ leave_group aos alice
    ∷ []

run-empty_state-IsSound_example : IsSound (run echo_evp history empty_state)
unfolding lit
run-empty_state-IsSound_example =
    run-empty_state-IsSound echo_evp history (tt, (tt, (tt, (tt, (refl, (tt, (tt, tt)))))))

abbrev joined : TrackerState
joined =
    run echo_evp
      (create_user drawn alice (lit "secret")
        ∷ create_user drawn bob (lit "hidden")
        ∷ create_group aos alice
        ∷ join_group aos bob
        ∷ [])
      empty_state

in_group-apply_example :
    let r = apply echo_evp (accept_request aos bob alice) joined in
    in_group aos bob r.0
    ≡ ((in_group aos bob joined || (r.1.ok && (aos == aos && bob == bob))) && not (r.1.ok && false))
in_group-apply_example = in_group-apply echo_evp aos bob joined (accept_request aos bob alice)

accept_request-ok_example : (State.accept_request aos bob alice joined).1.ok ≡ (
    State.user_exists_locked bob joined
    && (owned_by alice (find aos joined.groups) && applied_to bob (find aos joined.groups)))
accept_request-ok_example = accept_request-ok aos bob alice joined

username_for-create_example :
    let r = create drawn 5 alice (lit "127.0.0.1") (lit "6001") [] in
    resolves 6 r.0 r.1 ≡ (if leb (5 + session_ttl) 6 then none else some alice)
unfolding random_hex
username_for-create_example =
    username_for-create drawn 5 6 alice (lit "127.0.0.1") (lit "6001") [] refl (omega arith)

username_for-create_other_example :
    resolves 6 (lit "t") (create drawn 5 alice [] [] []).1 ≡ resolves 6 (lit "t") []
unfolding random_hex lit ◌==◌
username_for-create_other_example =
    username_for-create_other drawn 5 6 alice [] [] (lit "t") [] refl

username_for-destroy_example :
    resolves 6 (lit "t") (destroy (lit "t") []).1
    ≡ (if lit "t" == lit "t" then none else resolves 6 (lit "t") [])
username_for-destroy_example = username_for-destroy 6 (lit "t") (lit "t") []

abbrev alice_session : SessionInfo
alice_session = record { username = alice; ip = []; port = []; expires_at = 9 }

abbrev bob_session : SessionInfo
bob_session = record { username = bob; ip = []; port = []; expires_at = 9 }

abbrev two_sessions : Sessions
two_sessions = (lit "t", alice_session) ∷ (lit "u", bob_session) ∷ []

username_for-destroy_all_for_example :
    resolves 6 (lit "u") (destroy_all_for alice two_sessions)
    ≡ unless alice (resolves 6 (lit "u") two_sessions)
unfolding lit ◌==◌ member
username_for-destroy_all_for_example =
    username_for-destroy_all_for 6 alice (lit "u") two_sessions (refl, (refl, tt))

abbrev server : Server
server = record { state = joined; sessions = two_sessions }

dispatch_session-authorized_example :
    (dispatch_session 6 (lit "leave_group") (lit "t" ∷ aos ∷ []) server).1.state
    ≡ effect echo_evp
        (authorized (lit "leave_group") (aos ∷ []) (resolves 6 (lit "t") two_sessions))
        joined
unfolding lit ◌==◌
dispatch_session-authorized_example =
    (dispatch_session-authorized echo_evp 6 (lit "leave_group") (lit "t") (aos ∷ []) server refl).0

file_key-injective_example : (aos ≡ aos) × (lit "a.txt" ≡ lit "a.txt")
unfolding lit State.valid_filename has_byte ◌==◌
file_key-injective_example = file_key-injective aos aos (lit "a.txt") (lit "a.txt") refl refl refl

download_file-handle_disconnect_example :
    download_file aos (lit "notes.txt") alice (handle_disconnect bob joined)
    ≡ download_file aos (lit "notes.txt") alice (
        unseeded bob joined
          (file_key aos (lit "notes.txt"))
          (find (file_key aos (lit "notes.txt")) joined.files))
unfolding lit
download_file-handle_disconnect_example =
    download_file-handle_disconnect bob joined refl aos (lit "notes.txt") alice

merge_from-Keeps_example : Keeps joined (merge_from (lit "USER carol aa bb\nFILE x") joined).1
merge_from-Keeps_example = merge_from-Keeps (lit "USER carol aa bb\nFILE x") joined
