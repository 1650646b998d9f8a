-- ===== src/Tests/Interface.antt =====
-- The theorems about a client's commands (src/client/commands.cpp) and its web interface
-- (src/client/http_server.cpp, src/client/web_ui.cpp) at concrete inputs.
use peer_to_peer_file_sharin.Prelude.{
  ℕ, ◌≡◌, refl, true, false, [], ◌∷◌, ◌++◌, some, none, inl, arith,
}
use peer_to_peer_file_sharin.Bytes.{Bytes, has_byte, lit, ◌==◌, is_space}
use peer_to_peer_file_sharin.Bytes.Decimal
use peer_to_peer_file_sharin.Container.Map.{find}
use peer_to_peer_file_sharin.Container.NameSet.{member}
use peer_to_peer_file_sharin.Common.Message.{IsWord}
use peer_to_peer_file_sharin.Common.Hash.{Evp, sha1_file_hex, sha1_file_pieces}
use peer_to_peer_file_sharin.Tracker.Session.{Sessions, username_for}
use peer_to_peer_file_sharin.Tracker.State
use peer_to_peer_file_sharin.Tracker.State.{Group, empty_state}
use peer_to_peer_file_sharin.Tracker.Dispatch.{Server, Ambient, dispatch_session}
use peer_to_peer_file_sharin.Tracker.Connection.{fresh, handle_frame}
use peer_to_peer_file_sharin.Client.PeerServer.{Disk}
use peer_to_peer_file_sharin.Client.TrackerClient.{Exchange}
use peer_to_peer_file_sharin.Client.Commands.{Processor, execute, upload_words, base_name, rejoined}
use peer_to_peer_file_sharin.Client.Commands.Delivery.{handle_frame-execute}
use peer_to_peer_file_sharin.Client.Commands.Announcing.{Records, handle_frame-execute_upload}
use peer_to_peer_file_sharin.Client.Commands.Session.{IsConsistent, execute-IsConsistent}
use peer_to_peer_file_sharin.Client.Commands.SignedOut.{execute-signed_out}
use peer_to_peer_file_sharin.Client.Http.{serve}
use peer_to_peer_file_sharin.Client.Http.Json.{json_escape}
use peer_to_peer_file_sharin.Client.Http.Json.Containment.{string_end, string_end-json_escape}
use peer_to_peer_file_sharin.Client.WebUi.{web_routes}
use peer_to_peer_file_sharin.Client.WebUi.Arguments.{parse_args}
use peer_to_peer_file_sharin.Client.WebUi.Request.{args_body, parse_args-args_body}
use peer_to_peer_file_sharin.Client.WebUi.Safety.{ByCommand, serve-execute}

abbrev same_text : Evp
same_text md s = some s

abbrev silent_network : Exchange
silent_network = record { asks = []; answers = [] }

abbrev letter_t : Bytes
letter_t = b't' ∷ []

abbrev letter_g : Bytes
letter_g = b'g' ∷ []

-- Somebody who is logged in, and somebody who is not.
abbrev signed_in : Processor
signed_in = record {
  peername = b'u' ∷ [];
  connected = true;
  host_port = b'8' ∷ [];
  tracker = record { is_open = true; token = letter_t };
  registry = [];
  downloader = record { downloads = []; threads = [] };
}

abbrev nobody : Processor
nobody = record signed_in {
  peername = [];
  connected = false;
  tracker = record { is_open = true; token = [] };
}

abbrev one_file : Disk
one_file = (b'd' ∷ b'/' ∷ b'n' ∷ [], b'a' ∷ b'b' ∷ []) ∷ []

abbrev one_session : Sessions
one_session =
    (letter_t, record { username = b'u' ∷ []; ip = b'h' ∷ []; port = b'8' ∷ []; expires_at = 9 })
    ∷ []

abbrev tracker_server : Server
tracker_server = record { state = empty_state; sessions = one_session }

abbrev noon : Ambient
noon = record { now = 5; drawn = none; peer_ip = b'h' ∷ [] }

create_group-IsWord : IsWord (lit "create_group")
unfolding lit is_space
create_group-IsWord = record {
  nonempty = refl;
  solid = (
    refl,
    (refl, (refl, (refl, (refl, (refl, (refl, (refl, (refl, (refl, (refl, (refl, tt))))))))))),
  );
}

letter-IsWord : (c : ℕ) → is_space c ≡ false → IsWord (c ∷ [])
letter-IsWord c e = record { nonempty = refl; solid = (e, tt) }

handle_frame-execute_example :
    ((handle_frame same_text noon (lit "create_group t g") tracker_server fresh).reply
      ≡ (dispatch_session 5 (lit "create_group") (letter_t ∷ letter_g ∷ []) tracker_server).0)
    × ((handle_frame same_text noon (lit "create_group t g") tracker_server fresh).server
        ≡ (dispatch_session 5 (lit "create_group") (letter_t ∷ letter_g ∷ []) tracker_server).1)
unfolding execute lit ◌==◌ member is_space
handle_frame-execute_example =
    handle_frame-execute same_text silent_network [] (lit "create_group") (letter_g ∷ []) signed_in
      (lit "create_group t g") refl noon tracker_server fresh
      (create_group-IsWord, (letter-IsWord b't' refl, (letter-IsWord b'g' refl, tt))) refl

upload_file-IsWord : IsWord (lit "upload_file")
unfolding lit is_space
upload_file-IsWord = record {
  nonempty = refl;
  solid =
      (refl, (refl, (refl, (refl, (refl, (refl, (refl, (refl, (refl, (refl, (refl, tt)))))))))));
}

abbrev digest_word : Bytes
digest_word = b'6' ∷ b'1' ∷ b'6' ∷ b'2' ∷ []

digest-IsWord : IsWord digest_word
unfolding is_space
digest-IsWord = record { nonempty = refl; solid = (refl, (refl, (refl, (refl, tt)))) }

-- The group g has the member u.
abbrev group_g : Group
group_g = record {
  gid = letter_g;
  groupmaster = b'u' ∷ [];
  participants = (b'u' ∷ []) ∷ [];
  applicants = [];
}

abbrev with_group : Server
with_group = record {
  state = record empty_state {
    peers =
        (
          b'u' ∷ [],
          record {
            hostip = b'h' ∷ [];
            hostport = b'8' ∷ [];
            peername = b'u' ∷ [];
            password = record { salt = []; hash = [] };
            connected = true;
          },
        )
        ∷ [];
    groups = (letter_g, group_g) ∷ [];
  };
  sessions = one_session;
}

handle_frame-execute_upload_example :
    (find
        (base_name (b'd' ∷ b'/' ∷ b'n' ∷ []))
        (execute same_text silent_network one_file
          (lit "upload_file" ∷ letter_g ∷ (b'd' ∷ b'/' ∷ b'n' ∷ []) ∷ [])
          signed_in).after.registry
      ≡ some (b'd' ∷ b'/' ∷ b'n' ∷ []))
    × Records letter_g
        (base_name (b'd' ∷ b'/' ∷ b'n' ∷ []))
        (b'u' ∷ [])
        2
        (sha1_file_hex same_text (some (b'a' ∷ b'b' ∷ [])))
        (sha1_file_pieces same_text (some (b'a' ∷ b'b' ∷ []))).0
        with_group.state
        (handle_frame same_text noon
          (lit "upload_file t g n 2 6162 1 6162")
          with_group
          fresh).server.state
unfolding execute lit ◌==◌ is_space find upload_words base_name Decimal.to_string rejoined
    username_for State.is_outsider State.valid_filename member has_byte
handle_frame-execute_upload_example =
    handle_frame-execute_upload same_text silent_network one_file letter_g (b'd' ∷ b'/' ∷ b'n' ∷ [])
      (b'a' ∷ b'b' ∷ []) [] signed_in noon with_group fresh (b'u' ∷ [])
      (lit "upload_file t g n 2 6162 1 6162") one_session group_g refl refl refl (omega arith)
      (
        upload_file-IsWord,
        (
          letter-IsWord b't' refl,
          (
            letter-IsWord b'g' refl,
            (
              letter-IsWord b'n' refl,
              (
                letter-IsWord b'2' refl,
                (digest-IsWord, (letter-IsWord b'1' refl, (digest-IsWord, tt))),
              ),
            ),
          ),
        ),
      )
      refl refl refl refl refl

execute-IsConsistent_example :
    IsConsistent (execute same_text silent_network [] (lit "logout" ∷ []) signed_in).after
execute-IsConsistent_example =
    execute-IsConsistent same_text silent_network [] signed_in (inl refl) (lit "logout" ∷ [])

execute-signed_out_example :
    ((execute same_text silent_network [] (lit "stop_share" ∷ []) nobody).sent ≡ none)
    × ((execute same_text silent_network [] (lit "stop_share" ∷ []) nobody).after ≡ nobody)
unfolding lit ◌==◌
execute-signed_out_example =
    execute-signed_out same_text silent_network [] nobody (lit "stop_share") [] refl refl refl

string_end-json_escape_example :
    string_end false (json_escape (b'"' ∷ 7 ∷ b'\\' ∷ []) ++ b'"' ∷ lit ", x") ≡ some (lit ", x")
string_end-json_escape_example = string_end-json_escape (b'"' ∷ 7 ∷ b'\\' ∷ []) (lit ", x")

parse_args-args_body_example :
    parse_args (args_body ((b'a' ∷ b'"' ∷ []) ∷ [] ∷ [])) ≡ (b'a' ∷ b'"' ∷ []) ∷ [] ∷ []
parse_args-args_body_example =
    parse_args-args_body ((b'a' ∷ b'"' ∷ []) ∷ [] ∷ []) ((refl, (refl, tt)), (tt, tt))

serve-execute_example :
    ByCommand same_text silent_network [] signed_in
      (serve
        (web_routes same_text silent_network [] [] (b'8' ∷ []))
        (lit "POST /api/command HTTP/1.1\r\n\r\n" ∷ [])
        signed_in).0
serve-execute_example =
    serve-execute same_text silent_network [] [] (b'8' ∷ [])
      (lit "POST /api/command HTTP/1.1\r\n\r\n" ∷ []) signed_in
