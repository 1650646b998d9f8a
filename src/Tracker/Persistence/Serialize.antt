-- ===== src/Tracker/Persistence/Serialize.antt =====
-- `serialize_locked` of src/tracker/persistence.cpp.
use peer_to_peer_file_sharin.Prelude.{◌||◌, List, [], ◌∷◌, ◌++◌, if◌then◌else◌, length}
use peer_to_peer_file_sharin.Bytes.{Bytes, lit, is_empty}
use peer_to_peer_file_sharin.Bytes.Decimal.{to_string}
use peer_to_peer_file_sharin.Container.Map.{Map}
use peer_to_peer_file_sharin.Container.NameSet.{NameSet}
use peer_to_peer_file_sharin.Tracker.State.{Peer, Group, FileMeta, TrackerState, spaced}

-- The words of a line with a space between each two, and the end of the line.
unfoldable pub record_line : Bytes → List Bytes → Bytes
unfolding spaced
record_line verb ws = verb ++ (spaced ws ++ b'\n' ∷ [])

-- A count and that many words.
unfoldable pub counted : List Bytes → List Bytes
counted xs = to_string (length xs) ∷ xs

unfoldable pub user_line : Bytes → Peer → Bytes
unfolding record_line
user_line name p =
    if is_empty p.password.salt || is_empty p.password.hash
    then []
    else record_line (lit "USER") (name ∷ p.password.salt ∷ p.password.hash ∷ [])

unfoldable pub user_lines : Map Peer → Bytes
unfolding user_line
user_lines [] = []
user_lines ((name, p) ∷ peers) = user_line name p ++ user_lines peers

-- "-" for a group without an owner.
unfoldable pub master_word : Bytes → Bytes
unfolding lit
master_word master = if is_empty master then lit "-" else master

unfoldable pub group_words : Bytes → Group → List Bytes
unfolding master_word counted
group_words gid g =
    gid ∷ master_word g.groupmaster ∷ (counted g.participants ++ counted g.applicants)

unfoldable pub group_records : Map Group → Bytes
unfolding record_line group_words
group_records [] = []
group_records ((gid, g) ∷ groups) =
    record_line (lit "GROUP") (group_words gid g) ++ group_records groups

unfoldable pub file_words : Bytes → FileMeta → List Bytes
unfolding counted
file_words key f = key ∷ to_string f.size ∷ f.fullhash ∷ (counted f.piece_hashes ++ counted f.peers)

unfoldable pub file_records : Map FileMeta → Bytes
unfolding record_line file_words
file_records [] = []
file_records ((key, f) ∷ files) = record_line (lit "FILE") (file_words key f) ++ file_records files

unfoldable pub group_file_records : Map NameSet → Bytes
unfolding record_line counted
group_file_records [] = []
group_file_records ((gid, names) ∷ rest) =
    record_line (lit "GFILE") (gid ∷ counted names) ++ group_file_records rest

unfoldable pub serialize : TrackerState → Bytes
unfolding user_lines group_records file_records group_file_records
serialize s =
    lit "V 1\n"
    ++ (user_lines s.peers
        ++ (group_records s.groups ++ (file_records s.files ++ group_file_records s.group_files)))
