-- ===== src/Tests/Recovery.antt =====
-- The theorems about numbers and snapshots (src/common/message.cpp, src/tracker/persistence.cpp) at
-- concrete inputs.
use peer_to_peer_file_sharin.Prelude.{
  ◌≡◌, refl, true, [], ◌∷◌, some, arith, inr, ltb, if◌then◌else◌, none, pos,
}
use peer_to_peer_file_sharin.Bytes.{Bytes, lit, ◌==◌, is_space}
use peer_to_peer_file_sharin.Bytes.Decimal.{to_string}
use peer_to_peer_file_sharin.Container.Map.{find}
use peer_to_peer_file_sharin.Container.NameSet.{member}
use peer_to_peer_file_sharin.Common.Message.{IsWord, parse_ll, parse_int, int_limit}
use peer_to_peer_file_sharin.Common.Message.RoundTrip.{parse_ll-to_string, parse_int-to_string}
use peer_to_peer_file_sharin.Tracker.State.{TrackerState, Peer, Group, FileMeta, empty_state}
use peer_to_peer_file_sharin.Tracker.Persistence.{serialize, Outcome, save_snapshot, load_snapshot}
use peer_to_peer_file_sharin.Tracker.Recovery.{IsWritable, recovered, load_snapshot-save_snapshot}
use peer_to_peer_file_sharin.Tracker.Recovery.Atomic.{save_snapshot-atomic}

parse_ll-to_string_example : parse_ll (to_string 524288) ≡ some (pos 524288)
parse_ll-to_string_example = parse_ll-to_string 524288 (omega arith)

parse_int-to_string_example :
    parse_int (to_string 6001) ≡ (if ltb 6001 int_limit then some (pos 6001) else none)
parse_int-to_string_example = parse_int-to_string 6001 (omega arith)

abbrev user : Bytes
user = b'u' ∷ []

abbrev digest : Bytes
digest = b'a' ∷ b'b' ∷ []

abbrev account : Peer
account = record {
  peername = user;
  password = record { salt = digest; hash = digest };
  hostip = [];
  hostport = [];
  connected = true;
}

abbrev group : Group
group = record { gid = digest; groupmaster = user; participants = user ∷ []; applicants = [] }

abbrev file : FileMeta
file = record {
  size = 3;
  fullhash = digest;
  num_pieces = 1;
  piece_hashes = digest ∷ [];
  peers = user ∷ [];
}

abbrev stored : TrackerState
stored = record {
  peers = (user, account) ∷ [];
  groups = (digest, group) ∷ [];
  group_files = (digest, user ∷ []) ∷ [];
  files = (digest, file) ∷ [];
  version = 9;
}

user-IsWord : IsWord user
unfolding is_space
user-IsWord = record { nonempty = refl; solid = (refl, tt) }

digest-IsWord : IsWord digest
unfolding is_space
digest-IsWord = record { nonempty = refl; solid = (refl, (refl, tt)) }

stored-IsWritable : IsWritable stored
unfolding member ◌==◌ lit
stored-IsWritable = record {
  peers-Distinct = (refl, tt);
  groups-Distinct = (refl, tt);
  files-Distinct = (refl, tt);
  names-Distinct = (refl, tt);
  accounts =
      (record { key = user-IsWord; named = refl; salt = digest-IsWord; hash = digest-IsWord }, tt);
  groups = (
    record {
      key = digest-IsWord;
      named = refl;
      master = inr (user-IsWord, refl);
      members = (user-IsWord, tt);
      members-Distinct = (refl, tt);
      members-few = omega arith;
      applied = tt;
      applied-Distinct = tt;
      applied-few = omega arith;
    },
    tt,
  );
  files = (
    record {
      key-IsWord = digest-IsWord;
      size-InLl = omega arith;
      fullhash-IsWord = digest-IsWord;
      hashes = (digest-IsWord, tt);
      pieces = refl;
      hashes-few = omega arith;
      seeders = (user-IsWord, tt);
      seeders-Distinct = (refl, tt);
      seeders-few = omega arith;
    },
    tt,
  );
  names = (
    record {
      key = digest-IsWord;
      listed = (user-IsWord, tt);
      listed-Distinct = (refl, tt);
      listed-few = omega arith;
    },
    tt,
  );
}

abbrev all_goes_well : Outcome
all_goes_well = record { opens = true; writes = true; renames = true; partial = [] }

load_snapshot-save_snapshot_example :
    load_snapshot digest (save_snapshot all_goes_well digest stored []).1 empty_state
    ≡ (true, recovered stored empty_state)
unfolding save_snapshot
load_snapshot-save_snapshot_example =
    load_snapshot-save_snapshot all_goes_well digest stored empty_state [] stored-IsWritable refl

save_snapshot-atomic_example : find digest (save_snapshot all_goes_well digest stored []).1 ≡ (
    if (save_snapshot all_goes_well digest stored []).0
    then some (serialize stored)
    else find digest [])
save_snapshot-atomic_example = save_snapshot-atomic all_goes_well digest stored []
