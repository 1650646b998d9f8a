-- ===== src/Tracker/Persistence/Records.antt =====
-- `apply_records_locked` of src/tracker/persistence.cpp, and `merge_from`.
use peer_to_peer_file_sharin.Prelude.{
  ℕ, ◌+◌, Bool, true, false, not, ◌&&◌, ◌||◌, List, [], ◌∷◌, Option, none, some, ltb, nat_eq,
  if◌then◌else◌, length, take, drop, ℤ, pos, negsuc,
}
use peer_to_peer_file_sharin.Bytes.{Bytes, ◌==◌, lit, is_empty}
use peer_to_peer_file_sharin.Bytes.Lines.{lines}
use peer_to_peer_file_sharin.Container.Map.{find, assign, contains}
use peer_to_peer_file_sharin.Container.NameSet.{NameSet, insert_all}
use peer_to_peer_file_sharin.Common.Message.{split_args, parse_ll}
use peer_to_peer_file_sharin.Tracker.State.{
  new_peer, Group, FileMeta, TrackerState, bump, names_or_none,
}

-- `take_list`: the words behind the position, then the list and the words behind it.
unfoldable pub take_counted : Option ℤ → List Bytes → Option (List Bytes × List Bytes)
take_counted none ws = none
take_counted (some (negsuc n)) ws = none
take_counted (some (pos n)) ws = if ltb (length ws) n then none else some (take n ws, drop n ws)

unfoldable pub take_list : List Bytes → Option (List Bytes × List Bytes)
unfolding take_counted
take_list [] = none
take_list (w ∷ ws) = take_counted (parse_ll w) ws

-- The state so far, and whether a record has altered it.
pub record Progress : Type 0 where
  pub state : TrackerState
  pub changed : Bool

-- `none` is `return false`; what earlier records did stays done.
unfoldable pub apply_user : Bool → List Bytes → Progress → Option Progress
apply_user replace (name ∷ salt ∷ hash ∷ []) p =
    if not replace && contains name p.state.peers
    then some p
    else some (record {
      state = record (p.state) {
        peers = assign name (new_peer name (record { salt = salt; hash = hash })) p.state.peers;
      };
      changed = true;
    })
apply_user replace _ p = none

abbrev pub master_of : Bytes → Bytes
master_of w = if w == lit "-" then [] else w

unfoldable pub union_group : Option Group → Bytes → Bytes → List Bytes → List Bytes → Group × Bool
union_group none gid master parts apps = (
  record {
    gid = gid;
    groupmaster = master_of master;
    participants = insert_all parts [];
    applicants = insert_all apps [];
  },
  true,
)
union_group (some g) gid master parts apps =
    let parts' : NameSet = insert_all parts g.participants in
    let apps' : NameSet = insert_all apps g.applicants in
    let grown : Bool =
      not (nat_eq (length g.participants + length g.applicants) (length parts' + length apps')) in
    let adopt : Bool = is_empty g.groupmaster && not (master == lit "-") in
    (
      record g {
        groupmaster = if adopt then master else g.groupmaster;
        participants = parts';
        applicants = apps';
      },
      grown || adopt,
    )

unfoldable pub apply_group_lists :
    Bytes → Bytes → List Bytes → Option (List Bytes × List Bytes) → Progress → Option Progress
unfolding union_group
apply_group_lists gid master parts none p = none
apply_group_lists gid master parts (some (apps, _)) p =
    let r = union_group (find gid p.state.groups) gid master parts apps in
    some (record {
      state = record (p.state) { groups = assign gid r.0 p.state.groups };
      changed = p.changed || r.1;
    })

unfoldable pub apply_group_parts :
    Bytes → Bytes → Option (List Bytes × List Bytes) → Progress → Option Progress
unfolding apply_group_lists
apply_group_parts gid master none p = none
apply_group_parts gid master (some (parts, ws)) p =
    apply_group_lists gid master parts (take_list ws) p

unfoldable pub apply_group : List Bytes → Progress → Option Progress
unfolding apply_group_parts
apply_group (gid ∷ master ∷ c ∷ ws) p = apply_group_parts gid master (take_list (c ∷ ws)) p
apply_group _ p = none

unfoldable pub union_file : Option FileMeta → FileMeta → List Bytes → FileMeta × Bool
union_file none f seeders = (f, true)
union_file (some mine) f seeders =
    let peers' : NameSet = insert_all seeders mine.peers in
    (record mine { peers = peers' }, not (nat_eq (length mine.peers) (length peers')))

unfoldable pub apply_file_lists :
    Bytes → ℕ → Bytes → List Bytes → Option (List Bytes × List Bytes) → Progress → Option Progress
unfolding union_file
apply_file_lists key size fullhash hashes none p = none
apply_file_lists key size fullhash hashes (some (seeders, _)) p =
    let f : FileMeta = record {
      size = size;
      fullhash = fullhash;
      num_pieces = length hashes;
      piece_hashes = hashes;
      peers = insert_all seeders [];
    } in
    let r = union_file (find key p.state.files) f seeders in
    some (record {
      state = record (p.state) { files = assign key r.0 p.state.files };
      changed = p.changed || r.1;
    })

unfoldable pub apply_file_hashes :
    Bytes → ℕ → Bytes → Option (List Bytes × List Bytes) → Progress → Option Progress
unfolding apply_file_lists
apply_file_hashes key size fullhash none p = none
apply_file_hashes key size fullhash (some (hashes, ws)) p =
    apply_file_lists key size fullhash hashes (take_list ws) p

unfoldable pub apply_file_size : Option ℤ → Bytes → Bytes → List Bytes → Progress → Option Progress
unfolding apply_file_hashes
apply_file_size none key fullhash ws p = none
apply_file_size (some (negsuc n)) key fullhash ws p = none
apply_file_size (some (pos n)) key fullhash ws p = apply_file_hashes key n fullhash (take_list ws) p

unfoldable pub apply_file : List Bytes → Progress → Option Progress
unfolding apply_file_size
apply_file (key ∷ size ∷ fullhash ∷ c ∷ ws) p =
    apply_file_size (parse_ll size) key fullhash (c ∷ ws) p
apply_file _ p = none

unfoldable pub apply_names : Bytes → Option (List Bytes × List Bytes) → Progress → Option Progress
apply_names gid none p = none
apply_names gid (some (items, _)) p =
    let before : NameSet = names_or_none (find gid p.state.group_files) in
    let after : NameSet = insert_all items before in
    some (record {
      state = record (p.state) { group_files = assign gid after p.state.group_files };
      changed = p.changed || not (nat_eq (length before) (length after));
    })

unfoldable pub apply_group_file : List Bytes → Progress → Option Progress
unfolding apply_names
apply_group_file (gid ∷ c ∷ ws) p = apply_names gid (take_list (c ∷ ws)) p
apply_group_file _ p = none

unfoldable pub apply_record : Bool → List Bytes → Progress → Option Progress
unfolding apply_user apply_group apply_file apply_group_file
apply_record replace [] p = some p
apply_record replace (verb ∷ ws) p =
    if verb == lit "V"
    then some p
    else if verb == lit "USER"
    then apply_user replace ws p
    else if verb == lit "GROUP"
    then apply_group ws p
    else if verb == lit "FILE"
    then apply_file ws p
    else if verb == lit "GFILE"
    then apply_group_file ws p
    else none

-- Record by record; the first that is malformed ends the loop with `false`.
unfoldable pub apply_lines : Bool → List Bytes → Progress → Bool × Progress
unfolding apply_record split_args
apply_lines replace [] p = (true, p)
apply_lines replace (l ∷ ls) p = elim (apply_record replace (split_args l) p) [
  | none ↦ (false, p)
  | some p' ↦ apply_lines replace ls p'
]

-- The snapshot format replaces all but the version counter.
abbrev pub cleared : TrackerState → TrackerState
cleared s = record s { peers = []; groups = []; group_files = []; files = [] }

unfoldable pub apply_records_locked : Bytes → Bool → TrackerState → Bool × Progress
unfolding lines apply_lines
apply_records_locked text replace s =
    apply_lines replace (lines text)
      (record { state = if replace then cleared s else s; changed = false })

unfoldable pub merge_from : Bytes → TrackerState → Bool × TrackerState
unfolding apply_records_locked
merge_from text s =
    let r = apply_records_locked text false s in
    let s' : TrackerState = r.1.state in
    (r.0, if r.0 && r.1.changed then record s' { version = bump s'.version } else s')
