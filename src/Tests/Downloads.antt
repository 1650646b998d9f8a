-- ===== src/Tests/Downloads.antt =====
-- The theorems about the downloader (src/client/downloader.cpp) at a download of one piece from one
-- seeder.
use peer_to_peer_file_sharin.Prelude.{
  ℕ, ◌*◌, ◌≤◌, ◌<◌, ◌≡◌, ◌≢◌, refl, true, false, List, [], ◌∷◌, ◌++◌, some, none, arith, All, zero,
  suc, sym, ap, ◌∙◌, take, drop, length, get_elem?, pos,
}
use mathlib.Core.Option.{some-injective}
use peer_to_peer_file_sharin.Bytes.{Bytes, lit, ◌==◌, is_space}
use peer_to_peer_file_sharin.Bytes.Decimal
use peer_to_peer_file_sharin.Container.Map.{Map, find, assign}
use peer_to_peer_file_sharin.Common.Message.{IsWord}
use peer_to_peer_file_sharin.Common.Hash.{Evp, sha1_hex, sha1_file_pieces, piece_size}
use peer_to_peer_file_sharin.Common.Hash.Pieces.{length-drop}
use peer_to_peer_file_sharin.Common.Socket.{recv_framed}
use peer_to_peer_file_sharin.Tracker.State.{Peer, FileMeta, metadata}
use peer_to_peer_file_sharin.Client.Downloader.Info.{start, mark_inactive}
use peer_to_peer_file_sharin.Client.Downloader.Reply.{Seeder, Reply, parsed, parse_reply}
use peer_to_peer_file_sharin.Client.Downloader.Reply.RoundTrip.{IsReadable, parse_reply-metadata}
use peer_to_peer_file_sharin.Client.Downloader.Storage.{load_state, preallocate, state_bytes}
use peer_to_peer_file_sharin.Client.Downloader.Storage.Sidecar.{load_state-state_bytes}
use peer_to_peer_file_sharin.Client.Downloader.Fetch.{Turn}
use peer_to_peer_file_sharin.Client.Downloader.Pool.{
  Pool, Plan, spawn, turns, unfinished, num_workers,
}
use peer_to_peer_file_sharin.Client.Downloader.Pool.Visits.{NoCollision}
use peer_to_peer_file_sharin.Client.Downloader.Pool.Writes.{Right}
use peer_to_peer_file_sharin.Client.Downloader.Pool.Integrity.{IsSound, turns-IsSound}
use peer_to_peer_file_sharin.Client.Downloader.Pool.Statuses.{Place, own, table, statuses}
use peer_to_peer_file_sharin.Client.Downloader.Pool.Accounting.{settled}
use peer_to_peer_file_sharin.Client.Downloader.Pool.Settlement.{turns-settled}
use peer_to_peer_file_sharin.Client.Downloader.Pool.Progress
use peer_to_peer_file_sharin.Client.Downloader.Pool.Termination.{turns-spawn}
use peer_to_peer_file_sharin.Client.Downloader.Run.{
  Client, Course, run, transfer, fullout, statefile, first_pool,
}
use peer_to_peer_file_sharin.Client.Downloader.Run.Assembly.{Describes, Shares, last_round}
use peer_to_peer_file_sharin.Client.Downloader.Run.Completion.{transfer-Shares}
use peer_to_peer_file_sharin.Client.Downloader.Run.Download.{IsEntry, Downloads, run-Downloads}
use peer_to_peer_file_sharin.Client.Downloader.Run.Retry.{start-run}

-- A digest that always succeeds.
abbrev echo : Evp
echo md s = some s

abbrev text : Bytes
text = b'a' ∷ b'b' ∷ []

abbrev digest : Bytes
digest = b'6' ∷ b'1' ∷ b'6' ∷ b'2' ∷ []

abbrev named : Bytes
named = b'n' ∷ []

abbrev token : Bytes
token = b't' ∷ []

abbrev group : Bytes
group = b'g' ∷ []

abbrev folder : Bytes
folder = b'd' ∷ []

-- What the tracker knows of the file.
abbrev entry : FileMeta
entry = record {
  size = 2;
  fullhash = digest;
  num_pieces = 1;
  piece_hashes = digest ∷ [];
  peers = (b's' ∷ []) ∷ [];
}

abbrev seeding : Map Peer
seeding =
    (
      b's' ∷ [],
      record {
        hostip = b'h' ∷ [];
        hostport = b'8' ∷ [];
        peername = b's' ∷ [];
        password = record { salt = []; hash = [] };
        connected = true;
      },
    )
    ∷ []

abbrev seeder : Seeder
seeder = record { name = b's' ∷ []; ip = b'h' ∷ []; port = b'8' ∷ [] }

-- A turn in which every call succeeds and a peer that is asked sends the piece.
abbrev served : Turn
served = record {
  socket = true;
  address = true;
  connects = true;
  asks = 64 ∷ 64 ∷ [];
  answers = (0 ∷ 0 ∷ 0 ∷ 2 ∷ b'a' ∷ b'b' ∷ []) ∷ [];
  opens = true;
  seeks = true;
  writes = true;
  flushes = true;
  landed = 0;
  saves = true;
}

-- The piece is taken, marked, fetched, marked and counted, and the worker returns.
abbrev ten : List (ℕ × Turn)
ten =
    (0, served)
    ∷ (0, served)
    ∷ (0, served)
    ∷ (0, served)
    ∷ (0, served)
    ∷ (0, served)
    ∷ (0, served)
    ∷ (0, served)
    ∷ (0, served)
    ∷ (0, served)
    ∷ []

abbrev course : Course
course = record {
  answer = some (metadata named entry seeding);
  preparing = record { opens = true; creates = true; seeks = true; puts = true; flushes = true };
  resumes = true;
  schedule = ten;
  reads = true;
  saves = true;
  last_token = token;
  tells = true;
  removes = true;
}

abbrev newcomer : Client
newcomer = record { registry = []; downloads = []; disk = []; sent = [] }

empty-length : (s : Bytes) → length s ≡ 0 → s ≡ []
empty-length [] h = refl
empty-length (c ∷ s) h = ground (arith, h)

behind : (i : ℕ) → 0 < i → drop (i * piece_size) text ≡ []
behind i h =
    empty-length (drop (i * piece_size) text) (omega (arith, length-drop (i * piece_size) text))

-- The payload of a turn is the piece, so its hash is that of no other piece's.
served-NoCollision : NoCollision text echo served
unfolding recv_framed sha1_hex
served-NoCollision zero payload e h = sym (some-injective text payload e)
served-NoCollision (suc i) payload e h =
    let same : digest ≡ [] =
      ap (sha1_hex echo) (some-injective text payload e)
      ∙ h
      ∙ ap (λ s. sha1_hex echo (take piece_size s)) (behind (suc i) (omega arith)) in
    absurd (omega (arith, ap length same))

one-IsWord : (c : ℕ) → is_space c ≡ false → IsWord (c ∷ [])
one-IsWord c e = record { nonempty = refl; solid = (e, tt) }

entry-IsReadable : IsReadable named entry seeding
unfolding is_space lit ◌==◌ find
entry-IsReadable = record {
  name-IsWord = one-IsWord b'n' refl;
  name-IsOther = record { not_size = refl; not_hash = refl; not_pieces = refl; not_hashes = refl };
  size-lt = omega arith;
  hash-IsWord = record { nonempty = refl; solid = (refl, (refl, (refl, (refl, tt)))) };
  count-lt = omega arith;
  hashes-IsWord = (record { nonempty = refl; solid = (refl, (refl, (refl, (refl, tt)))) }, tt);
  counted = refl;
  addressed = (
    λ e. record {
      name-IsWord = one-IsWord b's' refl;
      ip-IsWord = one-IsWord b'h' refl;
      port-IsWord = one-IsWord b'8' refl;
    },
    tt,
  );
}

parse_reply-metadata_example :
    parse_reply (metadata named entry seeding)
    ≡ parsed (record {
      size = pos 2;
      fullhash = digest;
      num_pieces = 1;
      piece_hashes = digest ∷ [];
      peerlist = seeder ∷ [];
    })
unfolding find ◌==◌ metadata parse_reply
parse_reply-metadata_example = parse_reply-metadata named entry seeding entry-IsReadable

abbrev described : Reply
described = record {
  size = pos 2;
  fullhash = digest;
  num_pieces = 1;
  piece_hashes = digest ∷ [];
  peerlist = seeder ∷ [];
}

abbrev plan : Plan
plan = record { fname = named; piece_hashes = digest ∷ [] }

-- The run's first state, with one piece to fetch and a file of two zeros.
abbrev first_state : Pool
first_state = first_pool named (0 ∷ []) [] (0 ∷ 0 ∷ []) none

turns-settled_example :
    settled (get_elem? (turns echo plan ten (spawn 0 1 (seeder ∷ [])) first_state).1.piece_status 0)
    ≡ true
unfolding turns unfinished spawn lit Decimal.to_string ◌==◌
turns-settled_example =
    turns-settled echo plan ten 0 (seeder ∷ []) first_state refl (refl, tt) 0 (omega arith)

not_completed : (i : ℕ) → get_elem? {A = ℕ} (0 ∷ []) i ≢ some 2
not_completed zero e = ground (arith, e)
not_completed (suc i) e = cc

ten-NoCollision : All (λ s. NoCollision text echo s.1) ten
ten-NoCollision = (
  served-NoCollision,
  (
    served-NoCollision,
    (
      served-NoCollision,
      (
        served-NoCollision,
        (
          served-NoCollision,
          (
            served-NoCollision,
            (
              served-NoCollision,
              (served-NoCollision, (served-NoCollision, (served-NoCollision, tt))),
            ),
          ),
        ),
      ),
    ),
  ),
)

first-Right :
    (v : Place) (i : ℕ)
    → get_elem? (statuses named v first_state) i ≡ some 2
    → Right text (0 ∷ 0 ∷ []) i
unfolding find
first-Right own i e = absurd (not_completed i e)
first-Right table i e = absurd (ground (arith, e))

turns-IsSound_example :
    IsSound text echo named
      (turns echo plan ten (spawn 0 1 (seeder ∷ [])) first_state).0
      (turns echo plan ten (spawn 0 1 (seeder ∷ [])) first_state).1
unfolding sha1_file_pieces spawn
turns-IsSound_example =
    turns-IsSound text echo named ten (spawn 0 1 (seeder ∷ [])) first_state ten-NoCollision
      (record { sized = refl; right = first-Right; in_place = (tt, tt) })

load_state-state_bytes_example : load_state 3 (some (state_bytes (2 ∷ 1 ∷ 3 ∷ []))) ≡ 2 ∷ 1 ∷ 3 ∷ []
load_state-state_bytes_example =
    load_state-state_bytes (2 ∷ 1 ∷ 3 ∷ []) (omega arith, (omega arith, (omega arith, tt)))

turns-spawn_example :
    Progress.running_turns 0 echo plan (ten ++ ten) (spawn 0 1 (seeder ∷ [])) first_state ≤ 19
unfolding unfinished
turns-spawn_example = turns-spawn echo plan (ten ++ ten) 1 (seeder ∷ []) first_state

description : Describes echo token group named (lit "d/n") described text
unfolding sha1_file_pieces sha1_hex
description = record { all_hashes = refl; count = refl; whole_hash = refl; peers = omega arith }

end_status : (i : ℕ) → get_elem? {A = ℕ} (2 ∷ []) i ≢ some 3
end_status zero e = ground (arith, e)
end_status (suc i) e = cc

transfer-Shares_example :
    Shares echo token group named
      (lit "d/n")
      described
      text
      course
      (last_round echo token group named
        (lit "d/n")
        described
        text
        course
        (0 ∷ [])
        (0 ∷ 0 ∷ [])
        newcomer).1
      newcomer
      (transfer echo token group named course (lit "d/n") described (0 ∷ []) (0 ∷ 0 ∷ []) newcomer)
unfolding turns unfinished spawn lit Decimal.to_string ◌==◌ statefile num_workers find assign
transfer-Shares_example =
    transfer-Shares echo token group named (lit "d/n") described text course (0 ∷ []) (0 ∷ 0 ∷ [])
      newcomer description (record { sized = refl; counted = refl; right = untouched })
      ten-NoCollision refl (refl, tt) end_status
  where
    untouched : (i : ℕ) → get_elem? {A = ℕ} (0 ∷ []) i ≡ some 2 → Right text (0 ∷ 0 ∷ []) i
    untouched i e = absurd (not_completed i e)

entry-IsEntry : IsEntry echo token group named folder text entry seeding
unfolding sha1_file_pieces sha1_hex find ◌==◌
entry-IsEntry = record {
  readable_text = entry-IsReadable;
  size = refl;
  nonempty = omega arith;
  all_hashes = refl;
  count = refl;
  whole_hash = refl;
  online = omega arith;
}

run-Downloads_example :
    (after : Client) × (run echo token group named folder course newcomer ≡ some after)
    × Downloads echo token group named folder text entry seeding course newcomer after
unfolding turns unfinished spawn lit Decimal.to_string ◌==◌ statefile num_workers find preallocate
    load_state fullout assign
run-Downloads_example =
    run-Downloads echo token group named folder text entry seeding course newcomer entry-IsEntry
      (record { creates = refl; seeks = refl; puts = refl; flushes = refl }) refl refl refl refl
      ten-NoCollision (refl, tt) end_status

-- A client that could not read the tracker's answer.
start-run_example : (start group named folder (record { downloads = []; threads = [] })).1 ≡ true
unfolding run parse_reply lit mark_inactive find
start-run_example =
    start-run echo token group named folder group folder (record course { answer = some [] })
      newcomer (record newcomer { sent = lit "download_file t g n" ∷ [] }) [] refl
