-- ===== src/Client/Commands.antt =====
-- src/client/commands.cpp: one command of the user, from the prompt or the web interface. The
-- processor's parts are one state; what the network does in the command is an argument, and so is
-- the disk that a path is opened on.
pub mod Text
pub mod Delivery
pub mod Session
pub mod SignedOut
pub mod Announcing
use peer_to_peer_file_sharin.Prelude.{
  ℕ, ◌+◌, ◌≡◌, Bool, true, false, not, List, [], ◌∷◌, ◌++◌, Option, none, some, String, nat_eq,
  if◌then◌else◌, length, drop,
}
use peer_to_peer_file_sharin.Bytes.{Bytes, lit, ◌==◌, starts_with, is_empty, has_byte}
use peer_to_peer_file_sharin.Bytes.Decimal.{to_string}
use peer_to_peer_file_sharin.Container.Map.{find}
use peer_to_peer_file_sharin.Common.Hash.{Evp, sha1_file_pieces, sha1_file_hex}
use peer_to_peer_file_sharin.Tracker.State.{spaced}
use peer_to_peer_file_sharin.Client.UploadRegistry.{UploadRegistry, add, remove, is_shared}
use peer_to_peer_file_sharin.Client.PeerServer.{Disk}
use peer_to_peer_file_sharin.Client.TrackerClient.{
  TrackerClient, Exchange, send, set_token, clear_token,
}
use peer_to_peer_file_sharin.Client.Downloader.Info.{Downloader, start}
use peer_to_peer_file_sharin.Client.Downloader.Report.{report}
use Text.{help}

pub record Processor : Type 0 where
  pub peername : Bytes
  pub connected : Bool
  pub host_port : Bytes
  pub tracker : TrackerClient
  pub registry : UploadRegistry
  pub downloader : Downloader

-- The state afterwards, the text for the user, and what was handed to the tracker's connection.
pub record Executed : Type 0 where
  pub after : Processor
  pub output : Bytes
  pub sent : Option Bytes

unfoldable pub set_session : Bytes → Bytes → Processor → Processor
unfolding set_token
set_session user token p = record p {
  peername = user;
  connected = true;
  tracker = set_token token p.tracker;
}

unfoldable pub clear_session : Processor → Processor
unfolding clear_token
clear_session p = record p { peername = []; connected = false; tracker = clear_token p.tracker }

-- A text alone.
abbrev pub says : Bytes → Processor → Executed
says text p = record { after = p; output = text; sent = none }

-- A verb and its words, with a space before each word.
abbrev pub request : Bytes → List Bytes → Bytes
request verb ws = verb ++ spaced ws

abbrev pub newline : Bytes
newline = b'\n' ∷ []

-- return tracker_.send(...) + "\n"
unfoldable pub asks_tracker : Exchange → Bytes → Processor → Executed
unfolding send
asks_tracker x msg p = record {
  after = p;
  output = send x msg p.tracker ++ newline;
  sent = some msg;
}

-- The commands with one word behind the token, and those with two.
unfoldable pub with_one : Exchange → Bytes → Bytes → List Bytes → Processor → Executed
unfolding asks_tracker spaced
with_one x usage verb (a ∷ []) p = asks_tracker x (request verb (p.tracker.token ∷ a ∷ [])) p
with_one x usage verb _ p = says usage p

unfoldable pub with_two : Exchange → Bytes → Bytes → List Bytes → Processor → Executed
unfolding asks_tracker spaced
with_two x usage verb (a ∷ b ∷ []) p =
    asks_tracker x (request verb (p.tracker.token ∷ a ∷ b ∷ [])) p
with_two x usage verb _ p = says usage p

unfoldable pub create_user : Exchange → List Bytes → Processor → Executed
unfolding asks_tracker spaced lit
create_user x (user ∷ pass ∷ []) p =
    asks_tracker x (request (lit "create_user") (user ∷ pass ∷ [])) p
create_user x _ p = says (lit "Usage: create_user <user> <pass>\n") p

-- What the tracker's answer to a login does.
unfoldable pub logged_in_as : Bytes → Bytes → Bytes → Processor → Executed
unfolding set_session clear_session starts_with lit
logged_in_as user msg r p =
    if starts_with (lit "OK ") r
    then record {
      after = set_session user (drop 3 r) (clear_session p);
      output = lit "********* You are now logged in *********\n";
      sent = some msg;
    }
    else record { after = p; output = r ++ newline; sent = some msg }

unfoldable pub login : Exchange → List Bytes → Processor → Executed
unfolding logged_in_as send spaced lit
login x (user ∷ pass ∷ []) p =
    if p.connected
    then says (lit "-------- User session already active --------\n") p
    else (let msg : Bytes = request (lit "login") (user ∷ pass ∷ p.host_port ∷ []) in
        logged_in_as user msg (send x msg p.tracker) p)
login x _ p = says (lit "Usage: login <user> <pass>\n") p

unfoldable pub logout : Exchange → Processor → Executed
unfolding clear_session send spaced lit
logout x p =
    let msg : Bytes = request (lit "logout") (p.tracker.token ∷ []) in
    record { after = clear_session p; output = send x msg p.tracker ++ newline; sent = some msg }

-- The words with a space between each two.
unfoldable pub rejoined : Bytes → List Bytes → Bytes
unfolding spaced
rejoined w ws = w ++ spaced ws

-- What stands behind the last slash, or the whole text.
unfoldable pub base_name : Bytes → Bytes
unfolding has_byte
base_name [] = []
base_name (c ∷ s) =
    let rest = base_name s in if has_byte b'/' s then rest else if nat_eq c b'/' then s else c ∷ s

module _ (evp : Evp) where
  unfoldable pub upload_words : Bytes → Bytes → Bytes → Bytes → List Bytes
  unfolding sha1_file_pieces sha1_file_hex to_string
  upload_words token gid fname content =
      token
      ∷ gid
      ∷ fname
      ∷ to_string (length content)
      ∷ sha1_file_hex evp (some content)
      ∷ to_string (sha1_file_pieces evp (some content)).1
      ∷ (sha1_file_pieces evp (some content)).0

  unfoldable pub upload_opened : Exchange → Bytes → Bytes → Option Bytes → Processor → Executed
  unfolding upload_words base_name add asks_tracker spaced lit
  upload_opened x gid fpath none p = says (lit "File not found: " ++ (fpath ++ newline)) p
  upload_opened x gid fpath (some content) p =
      if is_empty content
      then says (lit "Cannot upload empty file: " ++ (fpath ++ newline)) p
      else asks_tracker x
          (request (lit "upload_file") (upload_words p.tracker.token gid (base_name fpath) content))
          (record p { registry = add (base_name fpath) fpath p.registry })

  unfoldable pub upload_file : Exchange → Disk → List Bytes → Processor → Executed
  unfolding upload_opened rejoined lit
  upload_file x disk (gid ∷ w ∷ ws) p =
      upload_opened x gid (rejoined w ws) (find (rejoined w ws) disk) p
  upload_file x disk _ p = says (lit "Usage: upload_file <groupid> <filepath>\n") p

unfoldable pub download_file : List Bytes → Processor → Executed
unfolding start lit
download_file (gid ∷ fname ∷ destpath ∷ rest) p =
    let r = start gid fname destpath p.downloader in
    record {
      after = record p { downloader = r.0 };
      output =
          if r.1
          then lit "Download started in background. Use show_downloads for progress.\n"
          else [];
      sent = none;
    }
download_file _ p = says (lit "Usage: download_file <groupid> <filename> <dest_path>\n") p

unfoldable pub stop_share : Exchange → List Bytes → Processor → Executed
unfolding send spaced remove is_shared lit
stop_share x (gid ∷ fname ∷ []) p =
    let msg : Bytes = request (lit "stop_share") (p.tracker.token ∷ gid ∷ fname ∷ []) in
    let shared : Bool = is_shared fname p.registry in
    record {
      after = record p { registry = if shared then remove fname p.registry else p.registry };
      output =
          (if shared
            then lit "Stopped sharing file: " ++ (fname ++ (lit " in group " ++ (gid ++ newline)))
            else lit "File " ++ (fname ++ lit " is not being shared by you.\n"))
          ++ (send x msg p.tracker ++ newline);
      sent = some msg;
    }
stop_share x _ p = says (lit "Usage: stop_share <groupid> <filename>\n") p

module _ (evp : Evp) where
  -- The commands that need a session.
  unfoldable pub execute_session : Exchange → Disk → Bytes → List Bytes → Processor → Executed
  unfolding logout with_one with_two asks_tracker upload_file download_file stop_share report lit
      spaced
  execute_session x disk cmd args p =
      if cmd == lit "logout"
      then logout x p
      else if cmd == lit "create_group"
      then with_one x (lit "Usage: create_group <groupid>\n") cmd args p
      else if cmd == lit "join_group"
      then with_one x (lit "Usage: join_group <groupid>\n") cmd args p
      else if cmd == lit "leave_group"
      then with_one x (lit "Usage: leave_group <groupid>\n") cmd args p
      else if cmd == lit "list_requests"
      then with_one x (lit "Usage: list_requests <groupid>\n") cmd args p
      else if cmd == lit "accept_request"
      then with_two x (lit "Usage: accept_request <groupid> <user>\n") cmd args p
      else if cmd == lit "reject_request"
      then with_two x (lit "Usage: reject_request <groupid> <user>\n") cmd args p
      else if cmd == lit "list_groups"
      then asks_tracker x (request cmd (p.tracker.token ∷ [])) p
      else if cmd == lit "list_files"
      then with_one x (lit "Usage: list_files <groupid>\n") cmd args p
      else if cmd == lit "upload_file"
      then upload_file evp x disk args p
      else if cmd == lit "download_file"
      then download_file args p
      else if cmd == lit "stop_share"
      then stop_share x args p
      else if cmd == lit "show_downloads"
      then says (report p.downloader) p
      else says (lit "------- Invalid Command --------\n") p

  unfoldable pub execute : Exchange → Disk → List Bytes → Processor → Executed
  unfolding create_user login execute_session lit help
  execute x disk [] p =
      says (lit "-------- Unrecognized command. Enter a valid command. --------\n") p
  execute x disk (cmd ∷ args) p =
      if cmd == lit "commands"
      then says help p
      else if cmd == lit "create_user"
      then create_user x args p
      else if cmd == lit "login"
      then login x args p
      else if not p.connected
      then says (lit "------- You must log in first. ---------\n") p
      else execute_session x disk cmd args p
