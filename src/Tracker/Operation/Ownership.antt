-- ===== src/Tracker/Operation/Ownership.antt =====
-- Who owns a group when a member leaves (`Group::deluser` of src/tracker/tracker_state.h).
use peer_to_peer_file_sharin.Prelude.{
  ◌≡◌, ◌⊎◌, inl, inr, refl, true, [], ◌∷◌, arith, Bool-cases, ap,
}
use peer_to_peer_file_sharin.Bytes.{Bytes, ◌==◌, ==_refl}
use peer_to_peer_file_sharin.Container.NameSet.{NameSet, member, member-remove, remove}
use peer_to_peer_file_sharin.Tracker.State.{Group, next_master, deluser}

-- The owner is a member, or nobody is and nobody owns the group.
abbrev pub IsLed : Group → Type 0
IsLed h =
    (member h.groupmaster h.participants ≡ true) ⊎ ((h.participants ≡ []) × (h.groupmaster ≡ []))

next_master-IsLed :
    (h : Group) (ps : NameSet)
    → IsLed (record h { participants = ps; groupmaster = next_master ps })
unfolding next_master member
next_master-IsLed h [] = inr (refl, refl)
next_master-IsLed h (p ∷ ps) = inl (ground (arith, ==_refl p))

remove-nil : (user : Bytes) → remove user [] ≡ []
unfolding remove
remove-nil user = refl

-- Removing anybody from a led group leaves it led.
pub deluser-IsLed : (user : Bytes) (h : Group) → IsLed h → IsLed (deluser user h)
unfolding deluser
deluser-IsLed user h led = elim (Bool-cases (user == h.groupmaster)) [
  | inl same ↦ rw same (next_master-IsLed h (remove user h.participants))
  | inr other ↦ rw other (
      ground (
        arith,
        member-remove user h.groupmaster h.participants,
        remove-nil user,
        ap (remove user) {x = h.participants} {y = []},
      ))
]
