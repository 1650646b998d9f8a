-- ===== src/Tracker/Dispatch/Upload.antt =====
-- The `upload_file` branch of `dispatch` in src/tracker/main.cpp. The sum for the expected number
-- of pieces is a long long, and wraps around on the usual two's complement machine.
use peer_to_peer_file_sharin.Prelude.{
  ℕ, ◌+◌, ◌-◌, ◌/◌, Bool, false, not, ◌&&◌, List, ◌∷◌, Option, none, some, nat_eq, ltb,
  if◌then◌else◌, length, ℤ, pos,
}
use peer_to_peer_file_sharin.Bytes.{Bytes, lit}
use peer_to_peer_file_sharin.Common.Message.{parse_ll, parse_int, ll_limit}
use peer_to_peer_file_sharin.Common.Hash.{piece_size}
use peer_to_peer_file_sharin.Tracker.State.{TrackerState, upload_file}

unfoldable pub invalid_upload : Bytes
unfolding lit
invalid_upload = lit "-----Invalid Arguments for upload_file-----"

-- (fsize + kPieceSize - 1) / kPieceSize; `none` where the sum has wrapped and the quotient is
-- negative.
unfoldable pub expected_pieces : ℕ → Option ℕ
expected_pieces fsize =
    if ltb (fsize + piece_size - 1) ll_limit
    then some ((fsize + piece_size - 1) / piece_size)
    else none

-- num_pieces == expected && n == num_pieces + 7
unfoldable pub pieces_agree : ℕ → Option ℕ → ℕ → Bool
pieces_agree num_pieces none hashes = false
pieces_agree num_pieces (some expected) hashes =
    nat_eq num_pieces expected && nat_eq hashes num_pieces

unfoldable pub upload_parsed :
    Bytes
    → Bytes
    → Bytes
    → Option ℤ
    → Bytes
    → Option ℤ
    → List Bytes
    → TrackerState
    → TrackerState × Bytes
unfolding expected_pieces pieces_agree
upload_parsed user gid fname (some (pos size)) hash (some (pos num_pieces)) hashes s =
    if not (pieces_agree num_pieces (expected_pieces size) (length hashes))
    then (s, invalid_upload)
    else (let r = upload_file gid fname user size hash num_pieces hashes s in (r.0, r.1.message))
upload_parsed user gid fname _ hash _ hashes s = (s, invalid_upload)

-- <gid> <fname> <size> <hash> <num_pieces> <hashes...>
unfoldable pub run_upload : Bytes → List Bytes → TrackerState → TrackerState × Bytes
unfolding upload_parsed
run_upload user (gid ∷ fname ∷ size ∷ hash ∷ num_pieces ∷ hashes) s =
    upload_parsed user gid fname (parse_ll size) hash (parse_int num_pieces) hashes s
run_upload user _ s = (s, invalid_upload)
