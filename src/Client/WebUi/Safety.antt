-- ===== src/Client/WebUi/Safety.antt =====
-- What a request to the local web interface can do (src/client/web_ui.cpp and
-- src/client/http_server.cpp): nothing but a command.
use peer_to_peer_file_sharin.Prelude.{
  ℕ, ◌≡◌, ◌⊎◌, refl, not, ◌||◌, List, [], ◌∷◌, ◌++◌, Option, none, some, ltb, if_elim, inl, inr,
}
use peer_to_peer_file_sharin.Bytes.{Bytes, lit, is_empty}
use peer_to_peer_file_sharin.Container.Map.{Map, find, assign_elim}
use peer_to_peer_file_sharin.Common.Hash.{Evp}
use peer_to_peer_file_sharin.Common.Socket.{Incoming}
use peer_to_peer_file_sharin.Client.PeerServer.{Disk}
use peer_to_peer_file_sharin.Client.TrackerClient.{Exchange}
use peer_to_peer_file_sharin.Client.Commands.{Processor, execute}
use peer_to_peer_file_sharin.Client.Http.{
  HttpRequest, Handler, request_body, respond, routed, answered, serve_raw, serve_read, serve,
  max_body, next_word, before_byte, content_length_of, header_lines, read_headers, max_header,
}
use peer_to_peer_file_sharin.Client.WebUi.{
  groups_json, status_handler, command_handler, page_handler, web_routes,
}
use peer_to_peer_file_sharin.Client.WebUi.Arguments.{parse_args}

-- What every handler keeps to, the server keeps to.
module _ {S : Type 0} (May : S → S → Type 0) (stays : (s : S) → May s s) (routes : Map (Handler S))
    (keeps : (key : Bytes) (handler : Handler S)
      → find key routes ≡ some handler
      → (req : HttpRequest) (s : S) → May s (handler req s).0) where
  routed-May :
      (key : Bytes) (o : Option (Handler S)) (req : HttpRequest) (s : S)
      → find key routes ≡ o
      → May s (routed o req s).0
  unfolding routed
  routed-May key none req s e = stays s
  routed-May key (some handler) req s e = keeps key handler e req s

  respond-May :
      (method path : Bytes) (n : ℕ) (raw : Bytes) (cs : Incoming) (s : S)
      → May s (respond routes method path n raw cs s).0
  unfolding respond
  respond-May method path n raw cs s =
      if_elim (λ r. May s r.0) (ltb max_body n)
        (
          s,
          record {
            status = 413;
            content_type = lit "text/plain";
            body = lit "request body too large";
          },
        )
        (routed (find (method ++ b' ' ∷ before_byte b'?' path) routes)
          (record { method = method; path = before_byte b'?' path; body = request_body n raw cs })
          s)
        (λ _. stays s) (λ _. routed-May (method ++ b' ' ∷ before_byte b'?' path) _ _ s refl)

  serve_raw-May : (raw : Bytes) (cs : Incoming) (s : S) → May s (serve_raw routes raw cs s).0
  unfolding serve_raw answered
  serve_raw-May raw cs s =
      let m = next_word (some raw) in
      let p = next_word m.1 in
      let v = next_word p.1 in
      let answer = respond routes m.0 p.0 (content_length_of 0 (header_lines v.1)) raw cs s in
      if_elim (λ r. May s r.0) (is_empty m.0 || is_empty p.0) (s, none) (answered answer)
        (λ _. stays s) (λ _. respond-May m.0 p.0 (content_length_of 0 (header_lines v.1)) raw cs s)

  serve_read-May : (o : Option (Bytes × Incoming)) (s : S) → May s (serve_read routes o s).0
  unfolding serve_read
  serve_read-May none s = stays s
  serve_read-May (some (raw, cs)) s = serve_raw-May raw cs s

  serve-May : (cs : Incoming) (s : S) → May s (serve routes cs s).0
  unfolding serve
  serve-May cs s = serve_read-May (read_headers max_header [] cs) s

module _ (evp : Evp) (x : Exchange) (disk : Disk) where
  -- Nothing, or what some command does.
  abbrev pub ByCommand : Processor → Processor → Type 0
  ByCommand p q = (q ≡ p) ⊎ ((args : List Bytes) × (q ≡ (execute evp x disk args p).after))

  groups_json-ByCommand : (p : Processor) → ByCommand p (groups_json evp x disk p).0
  unfolding groups_json
  groups_json-ByCommand p =
      if_elim {A = Processor × Bytes} (λ r. ByCommand p r.0) (not p.connected) _ _ (λ _. inl refl)
        (λ _. inr (lit "list_groups" ∷ [], refl))

  -- A handler does nothing to the state but what some command does.
  abbrev Obeys : Bytes → Handler Processor → Type 0
  Obeys key handler = (req : HttpRequest) (p : Processor) → ByCommand p (handler req p).0

  status_handler-Obeys : (key port : Bytes) → Obeys key (status_handler evp x disk port)
  unfolding status_handler
  status_handler-Obeys key port req p = groups_json-ByCommand p

  command_handler-Obeys : (key : Bytes) → Obeys key (command_handler evp x disk)
  unfolding command_handler
  command_handler-Obeys key req p = inr (parse_args req.body, refl)

  page_handler-Obeys : (key dashboard : Bytes) → Obeys key (page_handler evp x disk dashboard)
  unfolding page_handler
  page_handler-Obeys key dashboard req p = inl refl

  nothing-routed :
      (key : Bytes) (handler : Handler Processor) → find key [] ≡ some handler → Obeys key handler
  unfolding find
  nothing-routed key handler e = cc

  web_routes-Obeys :
      (dashboard port key : Bytes) (handler : Handler Processor)
      → find key (web_routes evp x disk dashboard port) ≡ some handler
      → Obeys key handler
  unfolding web_routes
  web_routes-Obeys dashboard port key handler e =
      assign_elim Obeys (lit "POST /api/command") (command_handler evp x disk) _
        (command_handler-Obeys (lit "POST /api/command"))
        (assign_elim Obeys (lit "GET /api/status") (status_handler evp x disk port) _
          (status_handler-Obeys (lit "GET /api/status") port)
          (assign_elim Obeys (lit "GET /") (page_handler evp x disk dashboard) []
            (page_handler-Obeys (lit "GET /") dashboard) nothing-routed))
        key handler e

  -- Whatever bytes arrive at the web interface, the client's state afterwards is the one before, or
  -- the one that `execute` leaves on some list of arguments, its checks included; these arguments may
  -- be ones that the prompt does not make, such as empty ones.
  pub serve-execute :
      (dashboard port : Bytes) (cs : Incoming) (p : Processor)
      → ByCommand p (serve (web_routes evp x disk dashboard port) cs p).0
  serve-execute dashboard port cs p =
      serve-May ByCommand (λ q. inl refl) (web_routes evp x disk dashboard port)
        (web_routes-Obeys dashboard port) cs p
