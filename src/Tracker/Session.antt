-- ===== src/Tracker/Session.antt =====
-- src/tracker/session_manager.cpp: tokens and the identity that they stand for. The steady clock's
-- reading, in its ticks of a nanosecond, is an argument, and so is what RAND_bytes drew.
pub mod Expiry
use peer_to_peer_file_sharin.Prelude.{
  ℕ, ◌+◌, ◌*◌, Bool, true, false, List, [], ◌∷◌, Option, none, some, leb, if◌then◌else◌,
}
use peer_to_peer_file_sharin.Bytes.{Bytes, ◌==◌, is_empty}
use peer_to_peer_file_sharin.Container.Map.{Map, find, assign, erase}
use peer_to_peer_file_sharin.Common.Auth.{Drawn, random_hex}

-- kSessionTtl
abbrev pub session_ttl : ℕ
session_ttl = 24 * 60 * 60 * 1_000_000_000

pub record SessionInfo : Type 0 where
  pub username : Bytes
  pub ip : Bytes
  pub port : Bytes
  pub expires_at : ℕ

-- sessions_
abbrev pub Sessions : Type 0
Sessions = Map SessionInfo

unfoldable pub create : Drawn → ℕ → Bytes → Bytes → Bytes → Sessions → Bytes × Sessions
create drawn now username ip port sessions =
    let token : Bytes = random_hex drawn in
    if is_empty token then ([], sessions) else (
      token,
      assign token
          (record { username = username; ip = ip; port = port; expires_at = now + session_ttl })
          sessions,
    )

-- The check of the entry that was found; an expired one is dropped.
unfoldable pub check_expiry :
    ℕ → Bytes → Option SessionInfo → Sessions → Option SessionInfo × Sessions
check_expiry now token none sessions = (none, sessions)
check_expiry now token (some info) sessions =
    if leb info.expires_at now then (none, erase token sessions) else (some info, sessions)

unfoldable pub lookup : ℕ → Bytes → Sessions → Option SessionInfo × Sessions
unfolding check_expiry
lookup now token sessions =
    if is_empty token
    then (none, sessions)
    else check_expiry now token (find token sessions) sessions

abbrev pub username_of : Option SessionInfo → Option Bytes
username_of none = none
username_of (some info) = some info.username

unfoldable pub username_for : ℕ → Bytes → Sessions → Option Bytes × Sessions
unfolding lookup
username_for now token sessions = let r = lookup now token sessions in (username_of r.0, r.1)

unfoldable pub destroy_found : Bytes → Option SessionInfo → Sessions → Bytes × Sessions
destroy_found token none sessions = ([], sessions)
destroy_found token (some info) sessions = (info.username, erase token sessions)

unfoldable pub destroy : Bytes → Sessions → Bytes × Sessions
unfolding destroy_found
destroy token sessions = destroy_found token (find token sessions) sessions

unfoldable pub destroy_all_for : Bytes → Sessions → Sessions
destroy_all_for username [] = []
destroy_all_for username ((token, info) ∷ sessions) =
    let rest = destroy_all_for username sessions in
    if info.username == username then rest else (token, info) ∷ rest
