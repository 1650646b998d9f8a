-- ===== src/Tracker/Session/Expiry.antt =====
-- Which tokens resolve, to whom, and until when (src/tracker/session_manager.cpp).
use peer_to_peer_file_sharin.Prelude.{
  ℕ, ◌+◌, ◌≤◌, ◌≡◌, refl, if_elim, false, [], ◌∷◌, Option, none, some, leb, if◌then◌else◌, arith,
  ap,
}
use peer_to_peer_file_sharin.Bytes.{Bytes, ◌==◌, ==_iff, ==_refl, is_empty}
use peer_to_peer_file_sharin.Container.Map.{find, find-assign, find-erase}
use peer_to_peer_file_sharin.Common.Auth.{Drawn, random_hex}
use peer_to_peer_file_sharin.Container.NameSet.{member}
use peer_to_peer_file_sharin.Container.Distinct.{Distinct, keys}
use peer_to_peer_file_sharin.Tracker.Session.{
  username_of, check_expiry, lookup, SessionInfo, Sessions, session_ttl, create, username_for,
  destroy, destroy_all_for,
}

abbrev pub resolves : ℕ → Bytes → Sessions → Option Bytes
resolves now token sessions = (username_for now token sessions).0

-- A token that create issued, when RAND_bytes succeeded, resolves to its user from then on
-- exactly until its lifetime has passed.
pub username_for-create :
    (drawn : Drawn) (now later : ℕ) (user ip port : Bytes) (sessions : Sessions)
    → is_empty (random_hex drawn) ≡ false
    → now ≤ later
    → let r = create drawn now user ip port sessions in
      resolves later r.0 r.1 ≡ (if leb (now + session_ttl) later then none else some user)
unfolding create username_for
username_for-create drawn now later user ip port sessions issued order =
    rw issued (rw (issued, find-assign, ==_refl) (ground arith))

-- Issuing a token leaves what every token that differs from it resolves to.
pub username_for-create_other :
    (drawn : Drawn) (now later : ℕ) (user ip port token : Bytes) (sessions : Sessions)
    → (random_hex drawn == token) ≡ false
    → resolves later token (create drawn now user ip port sessions).1
      ≡ resolves later token sessions
unfolding create username_for
username_for-create_other drawn now later user ip port token sessions other = ground (
  arith,
  find-assign (random_hex drawn) token
      (record { username = user; ip = ip; port = port; expires_at = now + session_ttl }) sessions,
)

-- destroy revokes its token at any time and no other.
pub username_for-destroy :
    (now : ℕ) (token other : Bytes) (sessions : Sessions)
    → resolves now other (destroy token sessions).1
      ≡ (if token == other then none else resolves now other sessions)
unfolding destroy username_for
username_for-destroy now token other sessions =
    ground (arith, find-erase token other sessions, ==_iff token other)

absent-destroy_all_for :
    (user token : Bytes) (sessions : Sessions)
    → member token (keys sessions) ≡ false
    → find token (destroy_all_for user sessions) ≡ none
unfolding find destroy_all_for member
absent-destroy_all_for user token [] h = refl
absent-destroy_all_for user token ((t, i) ∷ sessions) h =
    ground (arith, h, absent-destroy_all_for user token sessions)

-- An entry unless it is the user's.
abbrev but_for : Bytes → Option SessionInfo → Option SessionInfo
but_for user none = none
but_for user (some info) = if info.username == user then none else some info

find-destroy_all_for :
    (user token : Bytes) (sessions : Sessions)
    → Distinct (keys sessions)
    → find token (destroy_all_for user sessions) ≡ but_for user (find token sessions)
unfolding find destroy_all_for
find-destroy_all_for user token [] d = refl
find-destroy_all_for user token ((t, i) ∷ sessions) d = ground (
  arith,
  find-destroy_all_for user token sessions d.1,
  absent-destroy_all_for user t sessions d.0,
  ==_iff t token,
  ==_iff token t,
  ap (λ k. find k (destroy_all_for user sessions)) {x = t} {y = token},
)

-- A name unless it is the user's.
abbrev pub unless : Bytes → Option Bytes → Option Bytes
unless user none = none
unless user (some name) = if name == user then none else some name

unless-username_of :
    (now : ℕ) (user token : Bytes) (o : Option SessionInfo) (sessions after : Sessions)
    → username_of (check_expiry now token (but_for user o) after).0
      ≡ unless user (username_of (check_expiry now token o sessions).0)
unfolding check_expiry
unless-username_of now user token none sessions after = refl
unless-username_of now user token (some info) sessions after = ground arith

-- In a table in which no token stands twice: after `destroy_all_for` no token resolves to that user,
-- and every token that resolved to another user, or to nobody, still does.
pub username_for-destroy_all_for :
    (now : ℕ) (user token : Bytes) (sessions : Sessions)
    → Distinct (keys sessions)
    → resolves now token (destroy_all_for user sessions) ≡ unless user (resolves now token sessions)
unfolding username_for lookup
username_for-destroy_all_for now user token sessions d =
    if_elim
      (λ r.
        username_of (lookup now token (destroy_all_for user sessions)).0
        ≡ unless user (username_of r.0))
      (is_empty token) (none, sessions) (check_expiry now token (find token sessions) sessions)
      (λ e. rw e refl)
      (λ e.
        rw (e, find-destroy_all_for user token sessions d)
          (unless-username_of now user token (find token sessions) sessions
            (destroy_all_for user sessions)))
