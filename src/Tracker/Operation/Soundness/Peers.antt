-- ===== src/Tracker/Operation/Soundness/Peers.antt =====
-- What holds of the accounts between two operations of src/tracker/tracker_state.cpp: an account
-- is never removed, is stored under its own name, and has no address while it is not connected.
use peer_to_peer_file_sharin.Prelude.{
  ℕ, ◌≡◌, refl, true, false, not, ◌||◌, [], Option, none, some, arith, if_elim,
}
use peer_to_peer_file_sharin.Bytes.{Bytes, is_empty}
use peer_to_peer_file_sharin.Container.Map.{find, assign, assign_elim, contains, contains-assign}
use peer_to_peer_file_sharin.Common.Hash.{Evp}
use peer_to_peer_file_sharin.Common.Auth.{Drawn, hash_password, verify_password}
use peer_to_peer_file_sharin.Tracker.State
use peer_to_peer_file_sharin.Tracker.State.{Peer, TrackerState}

-- An account stored under `name` that has no address while it is not connected.
pub record PeerIsSound (name : Bytes) (p : Peer) : Type 0 where
  pub named : p.peername ≡ name
  pub offline : p.connected ≡ false → (p.hostip ≡ []) × (p.hostport ≡ [])

pub record PeersAreSound (s : TrackerState) : Type 0 where
  pub each : (name : Bytes) (p : Peer) → find name s.peers ≡ some p → PeerIsSound name p

-- From `s` to `t` no account is lost and the groups and files are left alone.
pub record PeersOnly (s t : TrackerState) : Type 0 where
  pub groups : t.groups ≡ s.groups
  pub files : t.files ≡ s.files
  pub group_files : t.group_files ≡ s.group_files
  pub grows : (x : Bytes) → contains x s.peers ≡ true → contains x t.peers ≡ true

module _ (s : TrackerState) where
  PeersOnly-refl : PeersOnly s s
  PeersOnly-refl = record { groups = refl; files = refl; group_files = refl; grows = λ x e. e }

  assign-PeersOnly :
      (name : Bytes) (p : Peer) (version : ℕ)
      → PeersOnly s (record s { peers = assign name p s.peers; version = version })
  assign-PeersOnly name p version = record {
    groups = refl;
    files = refl;
    group_files = refl;
    grows = λ x e. ground (arith, contains-assign name x p s.peers);
  }

  -- A change of the accounts that keeps them sound.
  abbrev pub Good : TrackerState → Type 0
  Good t = PeersOnly s t × (PeersAreSound s → PeersAreSound t)

  abbrev GoodAfter : TrackerState × State.Result → Type 0
  GoodAfter r = Good r.0

  kept : Good s
  kept = (PeersOnly-refl, λ v. v)

  assigned :
      (name : Bytes) (p : Peer) (version : ℕ)
      → (PeersAreSound s → PeerIsSound name p)
      → Good (record s { peers = assign name p s.peers; version = version })
  assigned name p version good = (
    assign-PeersOnly name p version,
    λ v. record { each = assign_elim PeerIsSound name p s.peers (good v) v.each },
  )

  offline-PeerIsSound :
      (name : Bytes) (p : Peer)
      → find name s.peers ≡ some p
      → PeersAreSound s
      → PeerIsSound name (State.peer_logout p)
  unfolding State.peer_logout
  offline-PeerIsSound name p e v = record {
    named = (v.each name p e).named;
    offline = λ _. (refl, refl);
  }

  module _ (name : Bytes) where
    logout_peer-Good :
        (o : Option Peer) → find name s.peers ≡ o → Good (State.logout_peer o name s).0
    unfolding State.logout_peer
    logout_peer-Good none e = kept
    logout_peer-Good (some p) e = assigned name _ _ (offline-PeerIsSound name p e)

    pub logout-Good : Good (State.logout name s).0
    unfolding State.logout
    logout-Good = logout_peer-Good (find name s.peers) refl

    disconnect_peer-Good :
        (o : Option Peer) → find name s.peers ≡ o → Good (State.disconnect_peer o name s)
    unfolding State.disconnect_peer
    disconnect_peer-Good none e = kept
    disconnect_peer-Good (some p) e = assigned name _ _ (offline-PeerIsSound name p e)

    pub handle_disconnect-Good : Good (State.handle_disconnect name s)
    unfolding State.handle_disconnect
    handle_disconnect-Good =
        if_elim Good (is_empty name) _ _ (λ _. kept)
          λ _. disconnect_peer-Good (find name s.peers) refl

  module _ (evp : Evp) (name pass : Bytes) where
    pub create_user-Good : (drawn : Drawn) → Good (State.create_user evp drawn name pass s).0
    unfolding State.create_user
    create_user-Good drawn =
        if_elim GoodAfter (State.user_exists_locked name s) _ _ (λ _. kept)
          λ _.
            let ph = hash_password evp drawn pass in
            if_elim GoodAfter (is_empty ph.salt || is_empty ph.hash) _ _ (λ _. kept)
              λ _.
                assigned name (State.new_peer name ph) _
                  λ _. record { named = refl; offline = λ _. (refl, refl) }

    login_peer-Good :
        (ip port : Bytes) (o : Option Peer)
        → find name s.peers ≡ o
        → Good (State.login_peer evp o name pass ip port s).0
    unfolding State.login_peer
    login_peer-Good ip port none e = kept
    login_peer-Good ip port (some p) e =
        if_elim GoodAfter (not (verify_password evp pass p.password)) _ _ (λ _. kept)
          λ _.
            assigned name (State.peer_login ip port p) _
              λ v. record { named = (v.each name p e).named; offline = λ c. cc }

    pub login-Good : (ip port : Bytes) → Good (State.login evp name pass ip port s).0
    unfolding State.login
    login-Good ip port = login_peer-Good ip port (find name s.peers) refl
