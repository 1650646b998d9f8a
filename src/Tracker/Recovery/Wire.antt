-- ===== src/Tracker/Recovery/Wire.antt =====
-- One kind of record of a snapshot, as an interface: how an entry is written, and that reading its
-- line puts the entry back. From it, the whole section of that kind is read back
-- (`apply_records_locked` of src/tracker/persistence.cpp).
use peer_to_peer_file_sharin.Prelude.{
  ◌≡◌, ap, sym, ◌∙◌, Bool, true, false, List, [], ◌∷◌, ◌++◌, append-nil, append_assoc, some,
}
use peer_to_peer_file_sharin.Bytes.Lines.{lines}
use peer_to_peer_file_sharin.Bytes.{Bytes}
use peer_to_peer_file_sharin.Container.Map.{Map}
use peer_to_peer_file_sharin.Container.NameSet.{member}
use peer_to_peer_file_sharin.Container.Distinct.{Distinct, keys, keys-append, member-middle}
use peer_to_peer_file_sharin.Common.Message.{split_args, IsWord}
use peer_to_peer_file_sharin.Tracker.State.{TrackerState, spaced}
use peer_to_peer_file_sharin.Tracker.Persistence.{record_line, Progress, apply_record, apply_lines}
use peer_to_peer_file_sharin.Tracker.Recovery.Lines.{Words, lines-record_line, split_args-spaced}

-- Whether all records were read, and the state.
abbrev pub outcome : Bool × Progress → Bool × TrackerState
outcome r = (r.0, r.1.state)

-- A record is read, and leaves the state `t`.
pub record Reads (ws : List Bytes) (p : Progress) (t : TrackerState) : Type 0 where
  pub after : Progress
  pub read : apply_record true ws p ≡ some after
  pub leaves : after.state ≡ t

pub record RecordKind (V W : Type 0) : Type 1 where
  pub verb : Bytes
  pub words : Bytes → V → List Bytes
  pub text : Map V → Bytes
  pub restore : V → W
  -- The state with these entries in the kind's own map.
  pub at : Map W → TrackerState
  pub IsGood : Bytes → V → Type 0
  pub verb-IsWord : IsWord verb
  pub words-Words : (k : Bytes) (v : V) → IsGood k v → Words (words k v)
  pub text-nil : text [] ≡ []
  pub text-cons :
      (k : Bytes) (v : V) (m : Map V)
      → IsGood k v
      → text ((k, v) ∷ m) ≡ record_line verb (words k v) ++ text m
  pub step :
      (k : Bytes) (v : V) (done : Map W) (p : Progress)
      → p.state ≡ at done
      → member k (keys done) ≡ false
      → IsGood k v
      → Reads (verb ∷ words k v) p (at (done ++ (k, restore v) ∷ []))

pub apply_lines-cons :
    (l : Bytes) (ls : List Bytes) (p q : Progress)
    → apply_record true (split_args l) p ≡ some q
    → apply_lines true (l ∷ ls) p ≡ apply_lines true ls q
unfolding apply_lines
apply_lines-cons l ls p q e = rw (e, apply_lines)

-- Every entry satisfies the predicate.
abbrev pub AllEntries : {V : Type 0} → (Bytes → V → Type 0) → Map V → Type 0
AllEntries P [] = Unit
AllEntries P ((k, v) ∷ m) = P k v × AllEntries P m

module _ {V W : Type 0} (kind : RecordKind V W) where
  abbrev pub restored : Map V → Map W
  restored [] = []
  restored ((k, v) ∷ m) = (k, kind.restore v) ∷ restored m

  -- Reading the lines `ls` from any progress at the state `t` has the outcome `r`.
  abbrev Ends : List Bytes → TrackerState → Bool × TrackerState → Type 0
  Ends ls t r = (q : Progress) → q.state ≡ t → outcome (apply_lines true ls q) ≡ r

  -- The whole section, then whatever stands behind it.
  pub section_read :
      (m : Map V) (done : Map W) (tail : Bytes) (r : Bool × TrackerState)
      → Distinct (keys done ++ keys m)
      → AllEntries kind.IsGood m
      → Ends (lines tail) (kind.at (done ++ restored m)) r
      → Ends (lines (kind.text m ++ tail)) (kind.at done) r
  section_read [] done tail r d g rest q e =
      rw kind.text-nil (rest q (e ∙ ap kind.at (sym (append-nil done))))
  section_read ((k, v) ∷ m) done tail r d g rest q e =
      rw
        (
          kind.text-cons k v m g.0,
          append_assoc,
          lines-record_line kind.verb (kind.words k v) (kind.text m ++ tail) kind.verb-IsWord
              (kind.words-Words k v g.0),
        )
        (ap outcome (apply_lines-cons _ (lines (kind.text m ++ tail)) q st.after found)
          ∙ section_read m (done ++ (k, kind.restore v) ∷ []) tail r
              (rw (keys-append done ((k, kind.restore v) ∷ []), append_assoc) d) g.1
              (rw append_assoc rest) st.after st.leaves)
    where
      st : Reads (kind.verb ∷ kind.words k v) q (kind.at (done ++ (k, kind.restore v) ∷ []))
      st = kind.step k v done q e (member-middle (keys done) k (keys m) d) g.0

      found :
          apply_record true (split_args (kind.verb ++ spaced (kind.words k v))) q ≡ some st.after
      found =
          rw
            (split_args-spaced kind.verb (kind.words k v) kind.verb-IsWord
              (kind.words-Words k v g.0))
            st.read
