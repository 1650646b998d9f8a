-- ===== src/Client/WebUi.antt =====
-- src/client/web_ui.cpp: the routes of the local web interface. The dashboard's page, a constant
-- text of src/client/web_assets.h, is an argument.
pub mod Arguments
pub mod RoundTrip
pub mod Request
pub mod Safety
use peer_to_peer_file_sharin.Prelude.{
  ℕ, Bool, true, false, not, ◌&&◌, ◌||◌, List, [], ◌∷◌, ◌++◌, Option, none, some, nat_eq, ltb,
  if◌then◌else◌,
}
use mathlib.Core.List.{reverse}
use peer_to_peer_file_sharin.Bytes.{Bytes, lit, ◌==◌, is_empty, has_byte}
use peer_to_peer_file_sharin.Bytes.Decimal.{to_string}
use peer_to_peer_file_sharin.Bytes.Lines.{lines}
use peer_to_peer_file_sharin.Container.Map.{Map, assign}
use peer_to_peer_file_sharin.Common.Hash.{Evp}
use peer_to_peer_file_sharin.Client.PeerServer.{Disk}
use peer_to_peer_file_sharin.Client.TrackerClient.{Exchange}
use peer_to_peer_file_sharin.Client.Downloader.Info.{DownloadInfo, snapshot}
use peer_to_peer_file_sharin.Client.Downloader.Reply.{find_after}
use peer_to_peer_file_sharin.Client.Downloader.Report.{count_status, print_int}
use peer_to_peer_file_sharin.Client.Commands.{Processor, execute}
use peer_to_peer_file_sharin.Client.Http.{HttpRequest, HttpResponse, Handler}
use peer_to_peer_file_sharin.Client.Http.Json.{json_escape}
use Arguments.{parse_args}

-- std::string::find of a text, compared with npos
abbrev pub is_found : Option Bytes → Bool
is_found none = false
is_found (some rest) = true

-- while (!line.empty() && (line.back() == '\r' || line.back() == ' ')) line.pop_back()
unfoldable pub drop_blanks : Bytes → Bytes
drop_blanks [] = []
drop_blanks (c ∷ s) =
    let rest = drop_blanks s in
    if is_empty rest && (nat_eq c 13 || nat_eq c 32) then [] else c ∷ rest

-- Lines that are empty, the banner, or an error are skipped.
unfoldable pub is_skipped : Bytes → Bool
unfolding has_byte find_after lit
is_skipped line =
    is_empty line
    || has_byte b'#' line
    || is_found (find_after (lit "ERROR") line)
    || is_found (find_after (lit "---") line)

unfoldable pub kept_lines : List Bytes → List Bytes
unfolding drop_blanks is_skipped
kept_lines [] = []
kept_lines (l ∷ ls) =
    let rest = kept_lines ls in if is_skipped (drop_blanks l) then rest else drop_blanks l ∷ rest

abbrev pub quote : ℕ
quote = b'"'

unfoldable pub quoted : Bytes → Bytes
unfolding json_escape
quoted s = quote ∷ (json_escape s ++ quote ∷ [])

-- Items with a comma before each but the first.
unfoldable pub more_items : List Bytes → Bytes
more_items [] = []
more_items (x ∷ xs) = b',' ∷ (x ++ more_items xs)

unfoldable pub items : List Bytes → Bytes
unfolding more_items
items [] = []
items (x ∷ xs) = x ++ more_items xs

unfoldable pub quoted_all : List Bytes → List Bytes
unfolding quoted
quoted_all [] = []
quoted_all (x ∷ xs) = quoted x ∷ quoted_all xs

abbrev pub bool_text : Bool → Bytes
bool_text b = if b then lit "true" else lit "false"

unfoldable pub download_json : DownloadInfo → Bytes
unfolding quoted print_int count_status to_string lit
download_json d =
    lit "{\"filename\":"
    ++ (quoted d.filename
        ++ (lit ",\"group\":"
            ++ (quoted d.group_id
                ++ (lit ",\"total_size\":"
                    ++ (print_int d.total_size
                        ++ (lit ",\"total_pieces\":"
                            ++ (to_string d.total_pieces
                                ++ (lit ",\"completed_pieces\":"
                                    ++ (to_string d.completed_pieces
                                        ++ (lit ",\"failed\":"
                                            ++ (to_string (count_status 3 d.piece_status)
                                                ++ (lit ",\"active\":"
                                                    ++ (bool_text d.is_active
                                                        ++ b'}' ∷ [])))))))))))))

unfoldable pub downloads_json : List DownloadInfo → List Bytes
unfolding download_json
downloads_json [] = []
downloads_json (d ∷ ds) = download_json d ∷ downloads_json ds

-- A response of a handler: status 200.
abbrev pub ok_response : Bytes → Bytes → HttpResponse
ok_response content_type body = record { status = 200; content_type = content_type; body = body }

module _ (evp : Evp) (x : Exchange) (disk : Disk) where
  -- The state, and the lines of the answer to list_groups as a JSON array.
  unfoldable pub groups_json : Processor → Processor × Bytes
  unfolding execute kept_lines quoted_all items lit
  groups_json p =
      if not p.connected
      then (p, lit "[]")
      else (let e = execute evp x disk (lit "list_groups" ∷ []) p in
          (e.after, b'[' ∷ (items (quoted_all (kept_lines (lines e.output))) ++ b']' ∷ [])))

  unfoldable pub status_handler : Bytes → Handler Processor
  unfolding groups_json quoted downloads_json items snapshot lit
  status_handler peer_port req p =
      let g = groups_json p in
      (
        g.0,
        ok_response (lit "application/json") (
            lit "{\"logged_in\":"
            ++ (bool_text p.connected
                ++ (lit ",\"username\":"
                    ++ (quoted p.peername
                        ++ (lit ",\"peer_port\":"
                            ++ (quoted peer_port
                                ++ (lit ",\"groups\":"
                                    ++ (g.1
                                        ++ (lit ",\"downloads\":["
                                            ++ (items (downloads_json (snapshot p.downloader))
                                                ++ lit "]}")))))))))),
      )

  unfoldable pub command_handler : Handler Processor
  unfolding parse_args execute quoted lit
  command_handler req p =
      let e = execute evp x disk (parse_args req.body) p in
      (
        e.after,
        ok_response (lit "application/json") (lit "{\"output\":" ++ (quoted e.output ++ b'}' ∷ [])),
      )

  unfoldable pub page_handler : Bytes → Handler Processor
  unfolding lit
  page_handler dashboard req p = (p, ok_response (lit "text/html; charset=utf-8") dashboard)

  -- route(method, path, handler) for each of the three
  unfoldable pub web_routes : Bytes → Bytes → Map (Handler Processor)
  unfolding page_handler status_handler command_handler assign lit
  web_routes dashboard peer_port = assign (lit "POST /api/command") command_handler (
      assign (lit "GET /api/status") (status_handler peer_port)
        (assign (lit "GET /") (page_handler dashboard) []))
