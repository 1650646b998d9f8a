-- ===== src/Tracker/Replication/Growth.antt =====
-- A merge only adds: `apply_records_locked` with replace = false, on any text, takes nothing away
-- and overrides no account, owner or metadata that this tracker has.
use peer_to_peer_file_sharin.Tracker.Replication.Union.{
  union_group-member, union_group-applied, union_group-owner, union_file-seeder,
  union_file-described,
}
use peer_to_peer_file_sharin.Tracker.Replication.Keeping.{
  Keeps, Keeps-refl, Keeps-trans, Keeps-version, peers-Keeps, groups-Keeps, files-Keeps,
  lists-Keeps,
}
use peer_to_peer_file_sharin.Prelude.{
  ℕ, ◌≡◌, Bool, false, ◌&&◌, List, [], ◌∷◌, Option, none, some, arith, if◌then◌else◌, inl, inr,
  Bool-cases, ℤ, pos, negsuc, length, if_elim,
}
use peer_to_peer_file_sharin.Bytes.Lines.{lines}
use peer_to_peer_file_sharin.Bytes.{Bytes, ◌==◌, ==_iff, lit}
use peer_to_peer_file_sharin.Container.Map.{find, assign, find-assign, contains}
use peer_to_peer_file_sharin.Container.NameSet.{NameSet, insert_all, member-insert_all}
use peer_to_peer_file_sharin.Common.Message.{split_args, parse_ll}
use peer_to_peer_file_sharin.Tracker.State.{
  Peer, Group, FileMeta, TrackerState, names_or_none, new_peer,
}
use peer_to_peer_file_sharin.Tracker.Persistence.{
  take_list, Progress, apply_user, apply_group, apply_group_parts, apply_group_lists, apply_file,
  apply_file_size, apply_file_hashes, apply_file_lists, apply_names, apply_group_file, apply_record,
  apply_lines, apply_records_locked, merge_from, union_group, union_file,
}

-- The state after a record, where there is one.
abbrev KeepsAfter : TrackerState → Option Progress → Type 0
KeepsAfter s none = Unit {0}
KeepsAfter s (some p) = Keeps s p.state

module _ (p : Progress) where
  abbrev s : TrackerState
  s = p.state

  apply_user-Keeps : (ws : List Bytes) → KeepsAfter s (apply_user false ws p)
  unfolding apply_user
  apply_user-Keeps (name ∷ salt ∷ hash ∷ []) =
      if_elim (KeepsAfter s) (contains name s.peers) _ _ (λ _. Keeps-refl s)
        λ new.
          let added : Peer = new_peer name (record { salt = salt; hash = hash }) in
          peers-Keeps s (assign name added s.peers)
            λ n q e. ground (arith, ==_iff name n, find-assign name n added s.peers)
  apply_user-Keeps [] = tt
  apply_user-Keeps (a ∷ []) = tt
  apply_user-Keeps (a ∷ b ∷ []) = tt
  apply_user-Keeps (a ∷ b ∷ c ∷ d ∷ ws) = tt

  module _ (gid master : Bytes) where
    apply_group_lists-Keeps :
        (parts : List Bytes) (r : Option (List Bytes × List Bytes))
        → KeepsAfter s (apply_group_lists gid master parts r p)
    unfolding apply_group_lists
    apply_group_lists-Keeps parts none = tt
    apply_group_lists-Keeps parts (some (apps, _)) =
        groups-Keeps s (assign gid merged s.groups)
          (λ g x e. ground (
            arith,
            ==_iff gid g,
            found g,
            union_group-member gid master parts apps x (find gid s.groups),
          ))
          (λ g x e. ground (
            arith,
            ==_iff gid g,
            found g,
            union_group-applied gid master parts apps x (find gid s.groups),
          ))
          (λ g x r e. ground (
            arith,
            ==_iff gid g,
            found g,
            union_group-owner gid master parts apps x (find gid s.groups),
          ))
      where
        merged : Group
        merged = (union_group (find gid s.groups) gid master parts apps).0

        found :
            (g : Bytes)
            → find g (assign gid merged s.groups)
              ≡ (if gid == g then some merged else find g s.groups)
        found g = find-assign gid g merged s.groups

    apply_group_parts-Keeps :
        (r : Option (List Bytes × List Bytes)) → KeepsAfter s (apply_group_parts gid master r p)
    unfolding apply_group_parts
    apply_group_parts-Keeps none = tt
    apply_group_parts-Keeps (some (parts, ws)) = apply_group_lists-Keeps parts (take_list ws)

  apply_group-Keeps : (ws : List Bytes) → KeepsAfter s (apply_group ws p)
  unfolding apply_group
  apply_group-Keeps (gid ∷ master ∷ c ∷ ws) =
      apply_group_parts-Keeps gid master (take_list (c ∷ ws))
  apply_group-Keeps [] = tt
  apply_group-Keeps (a ∷ []) = tt
  apply_group-Keeps (a ∷ b ∷ []) = tt

  module _ (key : Bytes) (size : ℕ) (fullhash : Bytes) where
    apply_file_lists-Keeps :
        (hashes : List Bytes) (r : Option (List Bytes × List Bytes))
        → KeepsAfter s (apply_file_lists key size fullhash hashes r p)
    unfolding apply_file_lists
    apply_file_lists-Keeps hashes none = tt
    apply_file_lists-Keeps hashes (some (names, _)) =
        files-Keeps s (assign key merged s.files)
          (λ k g e. elim (Bool-cases (key == k)) [
            | inl same ↦
                rw (found k, same)
                  (union_file-described fresh names (find key s.files) g
                    (rw ((==_iff key k).0 same) e))
            | inr other ↦ rw (found k, other) e
          ])
          (λ k x e.
            ground
              (arith, ==_iff key k, found k, union_file-seeder fresh names (find key s.files) x))
      where
        fresh : FileMeta
        fresh = record {
          size = size;
          fullhash = fullhash;
          num_pieces = length hashes;
          piece_hashes = hashes;
          peers = insert_all names [];
        }

        merged : FileMeta
        merged = (union_file (find key s.files) fresh names).0

        found :
            (k : Bytes)
            → find k (assign key merged s.files)
              ≡ (if key == k then some merged else find k s.files)
        found k = find-assign key k merged s.files

    apply_file_hashes-Keeps :
        (r : Option (List Bytes × List Bytes))
        → KeepsAfter s (apply_file_hashes key size fullhash r p)
    unfolding apply_file_hashes
    apply_file_hashes-Keeps none = tt
    apply_file_hashes-Keeps (some (hashes, ws)) = apply_file_lists-Keeps hashes (take_list ws)

  apply_file_size-Keeps :
      (size : Option ℤ) (key fullhash : Bytes) (ws : List Bytes)
      → KeepsAfter s (apply_file_size size key fullhash ws p)
  unfolding apply_file_size
  apply_file_size-Keeps (some (pos n)) key fullhash ws =
      apply_file_hashes-Keeps key n fullhash (take_list ws)
  apply_file_size-Keeps (some (negsuc n)) key fullhash ws = tt
  apply_file_size-Keeps none key fullhash ws = tt

  apply_file-Keeps : (ws : List Bytes) → KeepsAfter s (apply_file ws p)
  unfolding apply_file
  apply_file-Keeps (key ∷ size ∷ fullhash ∷ c ∷ ws) =
      apply_file_size-Keeps (parse_ll size) key fullhash (c ∷ ws)
  apply_file-Keeps [] = tt
  apply_file-Keeps (a ∷ []) = tt
  apply_file-Keeps (a ∷ b ∷ []) = tt
  apply_file-Keeps (a ∷ b ∷ c ∷ []) = tt

  apply_names-Keeps :
      (gid : Bytes) (r : Option (List Bytes × List Bytes)) → KeepsAfter s (apply_names gid r p)
  unfolding apply_names
  apply_names-Keeps gid none = tt
  apply_names-Keeps gid (some (items, _)) =
      let before : NameSet = names_or_none (find gid s.group_files) in
      let after : NameSet = insert_all items before in
      lists-Keeps s (assign gid after s.group_files) λ g n e. ground (
        arith,
        ==_iff gid g,
        find-assign gid g after s.group_files,
        member-insert_all items n before,
      )

  apply_group_file-Keeps : (ws : List Bytes) → KeepsAfter s (apply_group_file ws p)
  unfolding apply_group_file
  apply_group_file-Keeps (gid ∷ c ∷ ws) = apply_names-Keeps gid (take_list (c ∷ ws))
  apply_group_file-Keeps [] = tt
  apply_group_file-Keeps (a ∷ []) = tt

  apply_record-Keeps : (ws : List Bytes) → KeepsAfter s (apply_record false ws p)
  unfolding apply_record
  apply_record-Keeps [] = Keeps-refl s
  apply_record-Keeps (verb ∷ ws) =
      if_elim (KeepsAfter s) (verb == lit "V") _ _ (λ _. Keeps-refl s)
        λ _.
          if_elim (KeepsAfter s) (verb == lit "USER") _ _ (λ _. apply_user-Keeps ws)
            λ _.
              if_elim (KeepsAfter s) (verb == lit "GROUP") _ _ (λ _. apply_group-Keeps ws)
                λ _.
                  if_elim (KeepsAfter s) (verb == lit "FILE") _ _ (λ _. apply_file-Keeps ws)
                    λ _.
                      if_elim (KeepsAfter s) (verb == lit "GFILE") _ _
                        (λ _. apply_group_file-Keeps ws) (λ _. tt)

after_record :
    (ls : List Bytes) (p : Progress) (o : Option Progress)
    → KeepsAfter p.state o
    → ((q : Progress) → Keeps q.state (apply_lines false ls q).1.state)
    → Keeps p.state
        (elim o as (λ _. Bool × Progress) [
          | none ↦ (false, p)
          | some q ↦ apply_lines false ls q
        ]).1.state
after_record ls p none h rest = Keeps-refl p.state
after_record ls p (some q) h rest = Keeps-trans h (rest q)

apply_lines-Keeps :
    (ls : List Bytes) (p : Progress) → Keeps p.state (apply_lines false ls p).1.state
unfolding apply_lines
apply_lines-Keeps [] p = Keeps-refl p.state
apply_lines-Keeps (l ∷ ls) p =
    after_record ls p (apply_record false (split_args l) p) (apply_record-Keeps p (split_args l))
      (apply_lines-Keeps ls)

apply_records_locked-Keeps :
    (text : Bytes) (s : TrackerState) → Keeps s (apply_records_locked text false s).1.state
unfolding apply_records_locked
apply_records_locked-Keeps text s =
    apply_lines-Keeps (lines text) (record { state = s; changed = false })

-- merge_from on any text, malformed or not, loses no account, member, applicant, owner, listed
-- name, file description or seeder of the tracker.
pub merge_from-Keeps : (text : Bytes) (s : TrackerState) → Keeps s (merge_from text s).1
unfolding merge_from
merge_from-Keeps text s =
    let r = apply_records_locked text false s in
    let h = apply_records_locked-Keeps text s in
    if_elim (Keeps s) (r.0 && r.1.changed) _ _ (λ _. Keeps-version s r.1.state _ h) (λ _. h)
