-- ===== src/Client/PeerServer/Serving.antt =====
-- A client that asks another for a piece gets bytes that hash to what the uploader announced
-- (src/client/peer_server.cpp, src/common/hash.cpp).
use peer_to_peer_file_sharin.Prelude.{
  ℕ, ◌<◌, ◌≡◌, refl, true, [], ◌∷◌, ◌++◌, Option, none, some, if◌then◌else◌, ltb, get_elem?, arith,
}
use peer_to_peer_file_sharin.Bytes.{Bytes, lit, ==_refl, is_empty, is_space}
use peer_to_peer_file_sharin.Bytes.Decimal.{to_string}
use peer_to_peer_file_sharin.Container.Map.{find}
use peer_to_peer_file_sharin.Common.Message.{
  IsWord, int_limit, split_args, split_args-cons, split_args-single,
}
use peer_to_peer_file_sharin.Common.Message.RoundTrip.{parse_int-to_string, to_string-IsWord}
use peer_to_peer_file_sharin.Common.Hash.{Evp, sha1_hex, sha1_file_pieces, piece_size}
use peer_to_peer_file_sharin.Common.Hash.Pieces.{piece_at, hash_of, sha1_file_pieces-get}
use peer_to_peer_file_sharin.Client.UploadRegistry.{UploadRegistry, path_for}
use peer_to_peer_file_sharin.Client.PeerServer.{
  Disk, read_piece, open_path, find_piece, requested, answer,
}

-- The request for a piece, as a downloader words it.
abbrev pub piece_request : Bytes → ℕ → Bytes
piece_request fname index = lit "GET_PIECE" ++ b' ' ∷ (fname ++ b' ' ∷ to_string index)

verb-IsWord : IsWord (lit "GET_PIECE")
unfolding lit is_space
verb-IsWord = record {
  nonempty = refl;
  solid = (refl, (refl, (refl, (refl, (refl, (refl, (refl, (refl, (refl, tt)))))))));
}

split_args-piece_request :
    (fname : Bytes) (index : ℕ)
    → IsWord fname
    → split_args (piece_request fname index) ≡ lit "GET_PIECE" ∷ fname ∷ to_string index ∷ []
split_args-piece_request fname index w =
    rw
      (
        split_args-cons (lit "GET_PIECE") (fname ++ b' ' ∷ to_string index) verb-IsWord,
        split_args-cons fname (to_string index) w,
        split_args-single (to_string index) (to_string-IsWord index),
      )
      refl

-- The piece, if it is there.
abbrev piece_if_there : Bytes → Option Bytes
piece_if_there p = if is_empty p then none else some p

-- What is answered for a file that is shared and can be opened.
pub answer-piece_request :
    (fname path content : Bytes) (index : ℕ) (registry : UploadRegistry) (disk : Disk)
    → IsWord fname
    → index < int_limit
    → path_for fname registry ≡ some path
    → find path disk ≡ some content
    → answer (some (piece_request fname index)) registry disk
      ≡ piece_if_there (piece_at piece_size index content)
unfolding answer requested find_piece open_path read_piece path_for
answer-piece_request fname path content index registry disk w i shared readable =
    rw
      (
        split_args-piece_request fname index w,
        ==_refl (lit "GET_PIECE"),
        parse_int-to_string index (omega arith),
        within,
        find_piece,
        shared,
        open_path,
        readable,
      )
      refl
  where
    within : ltb index int_limit ≡ true
    within = ground (arith, i)

-- The hash of what was sent.
abbrev pub hash_of_answer : Evp → Option Bytes → Option Bytes
hash_of_answer evp none = none
hash_of_answer evp (some piece) = some (sha1_hex evp piece)

-- For every index that fits an int, the answer to a request for a piece of a shared, readable
-- file hashes to the hash that sha1_file_pieces gives at that index, and there is no answer where
-- it gives none.
pub answer-sha1_file_pieces :
    (evp : Evp) (fname path content : Bytes) (index : ℕ) (registry : UploadRegistry) (disk : Disk)
    → IsWord fname
    → index < int_limit
    → path_for fname registry ≡ some path
    → find path disk ≡ some content
    → hash_of_answer evp (answer (some (piece_request fname index)) registry disk)
      ≡ get_elem? (sha1_file_pieces evp (some content)).0 index
answer-sha1_file_pieces evp fname path content index registry disk w i shared readable =
    rw
      (
        answer-piece_request fname path content index registry disk w i shared readable,
        sha1_file_pieces-get evp content index,
      )
      (if_there (piece_at piece_size index content))
  where
    if_there : (p : Bytes) → hash_of_answer evp (piece_if_there p) ≡ hash_of evp p
    if_there [] = refl
    if_there (c ∷ p) = refl
