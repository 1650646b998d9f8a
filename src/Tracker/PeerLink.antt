-- ===== src/Tracker/PeerLink.antt =====
-- src/tracker/peer_link.cpp: one cycle of the link to the other tracker. What the socket does and
-- what the clients do to the state meanwhile is data; each call into the state holds its lock, so
-- the clients' operations fall between two such calls.
pub mod Pushing
use peer_to_peer_file_sharin.Prelude.{
  ℕ, Bool, true, false, not, List, [], ◌∷◌, ◌++◌, Option, none, some, nat_eq, if◌then◌else◌,
}
use peer_to_peer_file_sharin.Bytes.{Bytes, lit}
use peer_to_peer_file_sharin.Common.Hash.{Evp}
use peer_to_peer_file_sharin.Tracker.State.{TrackerState}
use peer_to_peer_file_sharin.Tracker.Operation.{Operation, run}
use peer_to_peer_file_sharin.Tracker.Persistence.{serialize, merge_from}

-- The tracker's state, the members of PeerLink, and what the other tracker has acknowledged last.
pub record Link : Type 0 where
  pub state : TrackerState
  pub connected : Bool
  pub last_pushed_version : ℕ
  pub acknowledged : Option Bytes

-- One round of the push loop: what the clients do before it and between its reads of the version
-- and of the state, and whether the push goes out and is answered.
pub record Round : Type 0 where
  pub before : List Operation
  pub between : List Operation
  pub sends : Bool
  pub answers : Bool

abbrev pub state_message : TrackerState → Bytes
state_message s = lit "STATE " ++ serialize s

-- The push of the state, when the version read was `v`; false ends the loop.
unfoldable pub push : Bool → Bool → ℕ → Link → Bool × Link
push false answers v l = (false, l)
push true false v l = (false, l)
push true true v l =
    (true, record l { last_pushed_version = v; acknowledged = some (state_message l.state) })

module _ (evp : Evp) where
  -- The clients' operations.
  unfoldable pub clients : List Operation → Link → Link
  clients ops l = record l { state = run evp ops l.state }

  unfoldable pub push_round : Round → Link → Bool × Link
  unfolding clients push
  push_round r l =
      let at_version : Link = clients r.before l in
      let v : ℕ = at_version.state.version in
      if nat_eq v l.last_pushed_version
      then (true, clients r.between at_version)
      else push r.sends r.answers v (clients r.between at_version)

  -- Round after round until one breaks the link or the tracker stops.
  unfoldable pub push_rounds : List Round → Link → Bool × Link
  unfolding push_round
  push_rounds [] l = (true, l)
  push_rounds (r ∷ rs) l =
      let first = push_round r l in
      let rest = push_rounds rs first.1 in if first.0 then rest else first

  -- `reply` is what the other tracker answers to SYNC_REQ, if it can be reached. The result says
  -- whether the link still stood when the rounds ended.
  unfoldable pub linked : Option Bytes → List Round → Link → Bool × Link
  unfolding push_rounds
  linked none rounds l = (false, l)
  linked (some theirs) rounds l = push_rounds rounds (record l {
    state = (merge_from theirs l.state).1;
    connected = true;
    last_pushed_version = 0;
  })

  -- The cycle always ends in a retry, and `loop` clears the flag whichever way it ended.
  unfoldable pub session : Option Bytes → List Round → Link → Link
  unfolding linked
  session reply rounds l = record ((linked reply rounds l).1) { connected = false }
