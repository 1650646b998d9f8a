-- ===== src/Client/PeerServer/Exchange.antt =====
-- A request and its answer over two cut streams (src/client/peer_server.cpp,
-- src/common/socket_io.cpp).
use peer_to_peer_file_sharin.Prelude.{
  ℕ, zero, suc, ◌*◌, ◌≤◌, ◌<◌, ◌≡◌, refl, ap, sym, ◌∙◌, true, false, List, [], ◌∷◌, append-nil,
  some, length, take, drop, arith,
}
use peer_to_peer_file_sharin.Bytes.{Bytes, is_empty}
use peer_to_peer_file_sharin.Container.Map.{find}
use peer_to_peer_file_sharin.Common.Message.{IsWord, int_limit}
use peer_to_peer_file_sharin.Common.Hash.{piece_size}
use peer_to_peer_file_sharin.Common.Hash.Pieces.{piece_at}
use peer_to_peer_file_sharin.Common.Socket.{
  Incoming, Sent, send_framed, recv_framed, max_frame_size,
}
use peer_to_peer_file_sharin.Common.Socket.Delivery.{stream, IsLive, drop-nonempty}
use peer_to_peer_file_sharin.Common.Socket.Framing.{recv_framed-send_framed}
use peer_to_peer_file_sharin.Client.UploadRegistry.{UploadRegistry, path_for}
use peer_to_peer_file_sharin.Client.PeerServer.{Disk, reply, serve_one}
use peer_to_peer_file_sharin.Client.PeerServer.Serving.{piece_request, answer-piece_request}

length-take_le : (k : ℕ) (s : Bytes) → length (take k s) ≤ k
length-take_le zero s = omega arith
length-take_le (suc k) [] = omega arith
length-take_le (suc k) (c ∷ s) = omega (arith, length-take_le k s)

take-nonempty : (m : ℕ) (s : Bytes) → is_empty s ≡ false → is_empty (take (suc m) s) ≡ false
take-nonempty m [] h = h
take-nonempty m (c ∷ s) h = refl

-- A piece before the end of the file is not empty.
piece_at-nonempty :
    (index : ℕ) (content : Bytes)
    → index * piece_size < length content
    → is_empty (piece_at piece_size index content) ≡ false
piece_at-nonempty index content h =
    take-nonempty 524287 (drop (index * piece_size) content)
      (drop-nonempty (index * piece_size) content h)

module _ (fname path content : Bytes) (index : ℕ) (registry : UploadRegistry) (disk : Disk) where
  serve_one-reply :
      (ask ks : List ℕ) (cs : Incoming)
      → IsWord fname
      → index < int_limit
      → path_for fname registry ≡ some path
      → find path disk ≡ some content
      → index * piece_size < length content
      → length (piece_request fname index) ≤ max_frame_size
      → (send_framed ask (piece_request fname index)).ok ≡ true
      → IsLive cs
      → stream cs ≡ (send_framed ask (piece_request fname index)).wire
      → serve_one registry disk ks cs ≡ send_framed ks (piece_at piece_size index content)
  unfolding serve_one reply
  serve_one-reply ask ks cs w i shared readable inside short asked l e =
      rw
        (
          (recv_framed-send_framed max_frame_size ask (piece_request fname index) [] cs
              (omega arith) short asked l (e ∙ sym (append-nil _))).0,
          answer-piece_request fname path content index registry disk w i shared readable,
          piece_at-nonempty index content inside,
        )
        refl

  -- A client that asks for a piece of a file that another shares and can read, over any partial
  -- reads and writes in both directions, receives with its limit of one piece exactly that piece of
  -- the file if both writes succeed; the piece lies within the file, its index fits an int, and the
  -- request fits a frame.
  pub recv_framed-serve_one :
      (ask ks : List ℕ) (cs ds : Incoming)
      → IsWord fname
      → index < int_limit
      → path_for fname registry ≡ some path
      → find path disk ≡ some content
      → index * piece_size < length content
      → length (piece_request fname index) ≤ max_frame_size
      → (send_framed ask (piece_request fname index)).ok ≡ true
      → IsLive cs
      → stream cs ≡ (send_framed ask (piece_request fname index)).wire
      → (serve_one registry disk ks cs).ok ≡ true
      → IsLive ds
      → stream ds ≡ (serve_one registry disk ks cs).wire
      → (recv_framed piece_size ds).0 ≡ some (piece_at piece_size index content)
  recv_framed-serve_one ask ks cs ds w i shared readable inside short asked l e ok l' e' =
      (recv_framed-send_framed piece_size ks (piece_at piece_size index content) [] ds (omega arith)
        (omega (arith, length-take_le piece_size (drop (index * piece_size) content)))
        (sym (ap Sent.ok replied) ∙ ok) l' (e' ∙ ap Sent.wire replied ∙ sym (append-nil _))).0
    where
      replied : serve_one registry disk ks cs ≡ send_framed ks (piece_at piece_size index content)
      replied = serve_one-reply ask ks cs w i shared readable inside short asked l e
