-- ===== src/Client/Commands/SignedOut.antt =====
-- What src/client/commands.cpp does for a user who is not logged in.
use peer_to_peer_file_sharin.Prelude.{
  ◌≡◌, refl, true, false, not, List, [], ◌∷◌, none, if_elim, arith,
}
use peer_to_peer_file_sharin.Bytes.{Bytes, lit, ◌==◌, starts_with}
use peer_to_peer_file_sharin.Common.Hash.{Evp}
use peer_to_peer_file_sharin.Client.PeerServer.{Disk}
use peer_to_peer_file_sharin.Client.TrackerClient.{Exchange, send}
use peer_to_peer_file_sharin.Client.Commands.{
  Processor, Executed, request, says, asks_tracker, create_user, login, logged_in_as, set_session,
  clear_session, execute,
}

-- What a command does for a user who is not logged in.
record Harmless (cmd : Bytes) (p : Processor) (e : Executed) : Type 0 where
  registry : e.after.registry ≡ p.registry
  downloader : e.after.downloader ≡ p.downloader
  quiet :
      (cmd == lit "create_user") ≡ false
      → (cmd == lit "login") ≡ false
      → (e.sent ≡ none) × (e.after ≡ p)

module _ (evp : Evp) (x : Exchange) (disk : Disk) (p : Processor) (cmd : Bytes) where
  silent : (text : Bytes) → Harmless cmd p (says text p)
  silent text = record { registry = refl; downloader = refl; quiet = λ a b. (refl, refl) }

  create_user-Harmless :
      (args : List Bytes)
      → (cmd == lit "create_user") ≡ true
      → Harmless cmd p (create_user x args p)
  unfolding create_user asks_tracker
  create_user-Harmless [] e = silent _
  create_user-Harmless (a ∷ []) e = silent _
  create_user-Harmless (a ∷ b ∷ []) e = record {
    registry = refl;
    downloader = refl;
    quiet = λ n m. absurd (ground (arith, e, n));
  }
  create_user-Harmless (a ∷ b ∷ c ∷ args) e = silent _

  logged_in_as-Harmless :
      (user msg r : Bytes)
      → (cmd == lit "login") ≡ true
      → Harmless cmd p (logged_in_as user msg r p)
  unfolding logged_in_as set_session clear_session
  logged_in_as-Harmless user msg r e =
      if_elim (Harmless cmd p) (starts_with (lit "OK ") r) _ _
        (λ _. record {
          registry = refl;
          downloader = refl;
          quiet = λ n m. absurd (ground (arith, e, m));
        })
        (λ _. record {
          registry = refl;
          downloader = refl;
          quiet = λ n m. absurd (ground (arith, e, m));
        })

  login-Harmless :
      (args : List Bytes) → (cmd == lit "login") ≡ true → Harmless cmd p (login x args p)
  unfolding login
  login-Harmless [] e = silent _
  login-Harmless (a ∷ []) e = silent _
  login-Harmless (a ∷ b ∷ []) e =
      if_elim (Harmless cmd p) p.connected _ _ (λ _. silent _)
        (λ _.
          logged_in_as-Harmless a (request (lit "login") (a ∷ b ∷ p.host_port ∷ []))
            (send x (request (lit "login") (a ∷ b ∷ p.host_port ∷ [])) p.tracker) e)
  login-Harmless (a ∷ b ∷ c ∷ args) e = silent _

  execute-Harmless :
      (args : List Bytes) → p.connected ≡ false → Harmless cmd p (execute evp x disk (cmd ∷ args) p)
  unfolding execute
  execute-Harmless args off =
      if_elim (Harmless cmd p) (cmd == lit "commands") _ _ (λ _. silent _)
        (λ _.
          if_elim (Harmless cmd p) (cmd == lit "create_user") _ _ (create_user-Harmless args) (λ _.
            if_elim (Harmless cmd p) (cmd == lit "login") _ _ (login-Harmless args) (λ _.
              if_elim (Harmless cmd p) (not p.connected) _ _ (λ _. silent _)
                (λ on. absurd (ground (arith, on, off))))))

  -- Without a session a command other than create_user and login sends nothing to the tracker and
  -- leaves the client as it was, its shared files, its downloads and its session included.
  pub execute-signed_out :
      (args : List Bytes)
      → p.connected ≡ false
      → (cmd == lit "create_user") ≡ false
      → (cmd == lit "login") ≡ false
      → ((execute evp x disk (cmd ∷ args) p).sent ≡ none)
        × ((execute evp x disk (cmd ∷ args) p).after ≡ p)
  execute-signed_out args off n m = (execute-Harmless args off).quiet n m

  -- Without a session no command changes what is shared or the downloads.
  pub execute-signed_out_kept :
      (args : List Bytes)
      → p.connected ≡ false
      → ((execute evp x disk (cmd ∷ args) p).after.registry ≡ p.registry)
        × ((execute evp x disk (cmd ∷ args) p).after.downloader ≡ p.downloader)
  execute-signed_out_kept args off = let r = execute-Harmless args off in (r.registry, r.downloader)
