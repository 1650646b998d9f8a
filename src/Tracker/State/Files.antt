-- ===== src/Tracker/State/Files.antt =====
-- Shared files of src/tracker/tracker_state.cpp.
use peer_to_peer_file_sharin.Prelude.{
  ℕ, zero, suc, Bool, true, false, not, ◌&&◌, ◌||◌, List, [], ◌∷◌, ◌++◌, Option, none, some,
  if◌then◌else◌,
}
use peer_to_peer_file_sharin.Bytes.{Bytes, ◌==◌, lit, is_empty, has_byte}
use peer_to_peer_file_sharin.Bytes.Decimal.{to_string}
use peer_to_peer_file_sharin.Container.Map.{Map, find, assign}
use peer_to_peer_file_sharin.Container.NameSet.{NameSet, member, insert, remove}
use peer_to_peer_file_sharin.Tracker.State.Types.{
  Result, accept, reject, around, Peer, Group, partofgroup, FileMeta, TrackerState, bump,
}
use peer_to_peer_file_sharin.Tracker.State.Accounts.{user_exists_locked}
use peer_to_peer_file_sharin.Tracker.State.Groups.{no_such_group}

unfoldable pub file_key : Bytes → Bytes → Bytes
file_key gid fname = gid ++ (b'/' ∷ fname)

unfoldable pub valid_filename : Bytes → Bool
valid_filename fname =
    if is_empty fname || fname == lit "." || fname == lit ".."
    then false
    else not (has_byte b'/' fname) && not (has_byte b'\\' fname)

-- The set stored under a group, empty where there is none.
abbrev pub names_or_none : Option NameSet → NameSet
names_or_none none = []
names_or_none (some names) = names

abbrev pub in_names : Option NameSet → Bytes → Bool
in_names none fname = false
in_names (some names) fname = member fname names

unfoldable pub group_has_file_locked : Bytes → Bytes → TrackerState → Bool
group_has_file_locked gid fname s = in_names (find gid s.group_files) fname

-- !user_exists_locked(name) || !group.partofgroup(name)
unfoldable pub is_outsider : Bytes → Group → TrackerState → Bool
unfolding user_exists_locked partofgroup
is_outsider name g s = not (user_exists_locked name s) || not (partofgroup name g)

-- std::vector<std::string>::resize
unfoldable pub resize : ℕ → List Bytes → List Bytes
resize zero xs = []
resize (suc n) [] = [] ∷ resize n []
resize (suc n) (x ∷ xs) = x ∷ resize n xs

-- The peers of the entry that `files_[key]` finds or makes.
abbrev pub peers_of : Option FileMeta → NameSet
peers_of none = []
peers_of (some fm) = fm.peers

unfoldable pub upload_found :
    Option Group
    → Bytes
    → Bytes
    → Bytes
    → ℕ
    → Bytes
    → ℕ
    → List Bytes
    → TrackerState
    → TrackerState × Result
unfolding is_outsider
upload_found none gid fname uname size fullhash num_pieces piece_hashes s = (s, no_such_group gid)
upload_found (some g) gid fname uname size fullhash num_pieces piece_hashes s =
    if is_outsider uname g s
    then (s, reject (around "------ You are not part of Group ID " gid " -------"))
    else if not (valid_filename fname)
    then (s, reject (around "------- Invalid filename: " fname " -------"))
    else (
      record s {
        files =
            assign (file_key gid fname)
              (record {
                size = size;
                fullhash = fullhash;
                num_pieces = num_pieces;
                piece_hashes = resize num_pieces piece_hashes;
                peers = insert uname (peers_of (find (file_key gid fname) s.files));
              })
              s.files;
        group_files =
            assign gid (insert fname (names_or_none (find gid s.group_files))) s.group_files;
        version = bump s.version;
      },
      accept (
          lit "******* File "
          ++ (fname ++ around " uploaded to group " gid " successfully *******")),
    )

unfoldable pub upload_file :
    Bytes → Bytes → Bytes → ℕ → Bytes → ℕ → List Bytes → TrackerState → TrackerState × Result
unfolding upload_found
upload_file gid fname uname size fullhash num_pieces piece_hashes s =
    upload_found (find gid s.groups) gid fname uname size fullhash num_pieces piece_hashes s

-- One line for a file whose metadata is known.
unfoldable pub file_line : Bytes → Option FileMeta → Bytes
file_line fname none = []
file_line fname (some fm) =
    fname
    ++ (lit " SIZE:"
        ++ (to_string fm.size ++ (lit " PIECES:" ++ (to_string fm.num_pieces ++ b'\n' ∷ []))))

unfoldable pub file_lines : Bytes → NameSet → Map FileMeta → Bytes
unfolding file_line
file_lines gid [] files = []
file_lines gid (fname ∷ names) files =
    file_line fname (find (file_key gid fname) files) ++ file_lines gid names files

unfoldable pub files_reply : Bytes → NameSet → Map FileMeta → Result
unfolding file_lines
files_reply gid [] files = accept (around "------- No files uploaded in group " gid " -------")
files_reply gid (n ∷ names) files =
    accept (around "######## Files in Group " gid " ########\n" ++ file_lines gid (n ∷ names) files)

unfoldable pub list_files_found : Option Group → Bytes → Bytes → TrackerState → Result
unfolding is_outsider files_reply
list_files_found none gid uname s = no_such_group gid
list_files_found (some g) gid uname s =
    if is_outsider uname g s
    then reject (around "------ Access denied. You are not part of Group ID " gid " -------")
    else files_reply gid (names_or_none (find gid s.group_files)) s.files

unfoldable pub list_files : Bytes → Bytes → TrackerState → Result
unfolding list_files_found
list_files gid uname s = list_files_found (find gid s.groups) gid uname s

-- " " + h for each hash
unfoldable pub spaced : List Bytes → Bytes
spaced [] = []
spaced (h ∷ hs) = b' ' ∷ (h ++ spaced hs)

-- The address of one seeder, if its peer is connected.
unfoldable pub seeder_line : Bytes → Option Peer → Bytes
seeder_line name none = []
seeder_line name (some p) =
    if p.connected then name ++ (b' ' ∷ (p.hostip ++ (b' ' ∷ (p.hostport ++ b'\n' ∷ [])))) else []

unfoldable pub seeder_lines : NameSet → Map Peer → Bytes
unfolding seeder_line
seeder_lines [] peers = []
seeder_lines (name ∷ names) peers = seeder_line name (find name peers) ++ seeder_lines names peers

unfoldable pub metadata : Bytes → FileMeta → Map Peer → Bytes
unfolding spaced seeder_lines
metadata fname fm peers =
    lit "FILE "
    ++ (fname
        ++ (lit " SIZE "
            ++ (to_string fm.size
                ++ (lit " HASH "
                    ++ (fm.fullhash
                        ++ (lit " PIECES "
                            ++ (to_string fm.num_pieces
                                ++ (lit " PIECE_HASHES"
                                    ++ (spaced fm.piece_hashes
                                        ++ (lit "\nPEERS\n"
                                            ++ (seeder_lines fm.peers peers ++ b'\n' ∷ [])))))))))))

abbrev pub no_such_file : Bytes → Result
no_such_file gid = reject (around "------- No such file in group " gid " -------")

unfoldable pub metadata_reply : Option FileMeta → Bytes → Bytes → Map Peer → Result
unfolding metadata
metadata_reply none gid fname peers = no_such_file gid
metadata_reply (some fm) gid fname peers = accept (metadata fname fm peers)

unfoldable pub download_found : Option Group → Bytes → Bytes → Bytes → TrackerState → Result
unfolding is_outsider group_has_file_locked metadata_reply
download_found none gid fname uname s = no_such_group gid
download_found (some g) gid fname uname s =
    if is_outsider uname g s
    then reject (around "------ Access denied. You are not part of Group ID " gid " -------")
    else if not (group_has_file_locked gid fname s)
    then no_such_file gid
    else metadata_reply (find (file_key gid fname) s.files) gid fname s.peers

unfoldable pub download_file : Bytes → Bytes → Bytes → TrackerState → Result
unfolding download_found
download_file gid fname uname s = download_found (find gid s.groups) gid fname uname s

-- The seeders of a file that is known; nothing is inserted otherwise.
unfoldable pub add_seeder : Option FileMeta → Bytes → Bytes → Map FileMeta → Map FileMeta
add_seeder none key name files = files
add_seeder (some fm) key name files = assign key (record fm { peers = insert name fm.peers }) files

-- git == end() || !partofgroup(peername)
unfoldable pub not_in_group : Option Group → Bytes → Bool
unfolding partofgroup
not_in_group none name = true
not_in_group (some g) name = not (partofgroup name g)

unfoldable pub file_downloaded : Bytes → Bytes → Bytes → TrackerState → TrackerState × Result
unfolding not_in_group group_has_file_locked user_exists_locked add_seeder
file_downloaded gid fname peername s =
    if not_in_group (find gid s.groups) peername
    then (s, reject (lit "ERROR: Group not found or peer not member"))
    else if not (group_has_file_locked gid fname s)
    then (s, reject (lit "ERROR: File not found in group"))
    else if not (user_exists_locked peername s)
    then (s, reject (lit "ERROR: Peer not found"))
    else (
      record s {
        files =
            add_seeder (find (file_key gid fname) s.files) (file_key gid fname) peername s.files;
        version = bump s.version;
      },
      accept (lit "SUCCESS: Peer " ++ (peername ++ (lit " registered as seeder for " ++ fname))),
    )

unfoldable pub stop_seeding :
    Option FileMeta → Bytes → Bytes → Bytes → TrackerState → TrackerState × Result
stop_seeding none gid fname peername s = (s, reject (lit "ERROR: File metadata not found"))
stop_seeding (some fm) gid fname peername s = (
  record s {
    files = assign (file_key gid fname) (record fm { peers = remove peername fm.peers }) s.files;
    version = bump s.version;
  },
  accept (
      lit "SUCCESS: Peer "
      ++ (peername ++ (lit " stopped sharing " ++ (fname ++ (lit " in group " ++ gid))))),
)

unfoldable pub stop_share_found :
    Option Group → Bytes → Bytes → Bytes → TrackerState → TrackerState × Result
unfolding is_outsider group_has_file_locked stop_seeding
stop_share_found none gid fname peername s = (s, reject (lit "ERROR: Group not found"))
stop_share_found (some g) gid fname peername s =
    if is_outsider peername g s
    then (s, reject (lit "ERROR: Peer not found or not member of group"))
    else if not (group_has_file_locked gid fname s)
    then (s, reject (lit "ERROR: File not found in group"))
    else stop_seeding (find (file_key gid fname) s.files) gid fname peername s

unfoldable pub stop_share : Bytes → Bytes → Bytes → TrackerState → TrackerState × Result
unfolding stop_share_found
stop_share gid fname peername s = stop_share_found (find gid s.groups) gid fname peername s
