-- ===== src/Tracker/State/Types.antt =====
-- The data of src/tracker/tracker_state.h, with the methods of Peer and Group.
use peer_to_peer_file_sharin.Prelude.{
  ℕ, ◌+◌, ◌%◌, ◌^◌, Bool, true, false, not, List, [], ◌∷◌, ◌++◌, String, if◌then◌else◌,
}
use peer_to_peer_file_sharin.Bytes.{Bytes, ◌==◌, lit}
use peer_to_peer_file_sharin.Container.Map.{Map}
use peer_to_peer_file_sharin.Container.NameSet.{NameSet, member, insert, remove}
use peer_to_peer_file_sharin.Common.Auth.{PasswordHash}

-- The outcome of a command: whether it was carried out, and the reply.
pub record Result : Type 0 where
  pub ok : Bool
  pub message : Bytes

abbrev pub accept : Bytes → Result
accept m = record { ok = true; message = m }

abbrev pub reject : Bytes → Result
reject m = record { ok = false; message = m }

-- before + name + after
unfoldable pub around : String → Bytes → String → Bytes
unfolding lit
around before name after = lit before ++ (name ++ lit after)

pub record Peer : Type 0 where
  pub hostip : Bytes
  pub hostport : Bytes
  pub peername : Bytes
  pub password : PasswordHash
  pub connected : Bool

unfoldable pub peer_login : Bytes → Bytes → Peer → Peer
peer_login ip port p = record p { hostip = ip; hostport = port; connected = true }

unfoldable pub peer_logout : Peer → Peer
peer_logout p = record p { connected = false; hostip = []; hostport = [] }

pub record Group : Type 0 where
  pub gid : Bytes
  pub groupmaster : Bytes
  pub participants : NameSet
  pub applicants : NameSet

unfoldable pub isapplicant : Bytes → Group → Bool
isapplicant s g = member s g.applicants

unfoldable pub partofgroup : Bytes → Group → Bool
partofgroup s g = member s g.participants

unfoldable pub acceptreq : Bytes → Group → Group
acceptreq s g = record g {
  applicants = remove s g.applicants;
  participants = insert s g.participants;
}

-- *participants.begin(), or "" when nobody is left
unfoldable pub next_master : NameSet → Bytes
next_master [] = []
next_master (p ∷ ps) = p

unfoldable pub deluser : Bytes → Group → Group
unfolding next_master
deluser s g =
    let left : NameSet = remove s g.participants in
    if not (s == g.groupmaster)
    then record g { participants = left }
    else record g { participants = left; groupmaster = next_master left }

-- `size` and `num_pieces` are signed in the source; every caller has rejected negative values.
pub record FileMeta : Type 0 where
  pub size : ℕ
  pub fullhash : Bytes
  pub num_pieces : ℕ
  pub piece_hashes : List Bytes
  pub peers : NameSet

pub record TrackerState : Type 0 where
  pub peers : Map Peer
  pub groups : Map Group
  pub group_files : Map NameSet
  pub files : Map FileMeta
  pub version : ℕ

abbrev pub empty_state : TrackerState
empty_state = record { peers = []; groups = []; group_files = []; files = []; version = 0 }

-- ++version_, an unsigned long long
unfoldable pub bump : ℕ → ℕ
bump v = (v + 1) % 2 ^ 64
