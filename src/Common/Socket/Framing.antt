-- ===== src/Common/Socket/Framing.antt =====
-- What `send_framed` of src/common/socket_io.cpp sends, `recv_framed` receives.
use peer_to_peer_file_sharin.Prelude.{
  ℕ, ◌%◌, ◌^◌, ◌≤◌, ◌<◌, ◌≡◌, refl, ap, ◌∙◌, true, List, ◌++◌, Option, none, some, length,
  length-append, take-append, drop-append, take, drop, arith,
}
use mathlib.Core.Path.{subst}
use mathlib.Core.Option.{some-injective}
use peer_to_peer_file_sharin.Bytes.{Bytes}
use peer_to_peer_file_sharin.Common.Socket.{
  Incoming, recv_all, send_all, send_framed, recv_framed, recv_body, htonl, ntohl,
}
use peer_to_peer_file_sharin.Common.Socket.Delivery.{
  stream, IsLive, Delivers, recv_all-Delivers, send_all-wire,
}

pub ntohl-htonl : (n : ℕ) → n < 2 ^ 32 → ntohl (htonl n) ≡ n
unfolding ntohl htonl
ntohl-htonl n h = omega (arith, h)

-- What goes out for a payload.
pub send_framed-wire :
    (ks : List ℕ) (payload : Bytes)
    → (send_framed ks payload).ok ≡ true
    → (send_framed ks payload).wire ≡ htonl (length payload % 2 ^ 32) ++ payload
unfolding send_framed
send_framed-wire ks payload h = ground (
  arith,
  h,
  send_all-wire ks (htonl (length payload % 2 ^ 32)),
  send_all-wire (send_all ks (htonl (length payload % 2 ^ 32))).later payload,
)

abbrev header : Bytes → Bytes
header payload = htonl (length payload % 2 ^ 32)

recv_body-header :
    (max_len : ℕ) (payload : Bytes) (r : Option Bytes × Incoming)
    → max_len < 2 ^ 32
    → length payload ≤ max_len
    → r.0 ≡ some (header payload)
    → recv_body max_len r ≡ recv_all (length payload) r.1
unfolding recv_body
recv_body-header max_len payload (none, cs) m h e = ground (arith, e)
recv_body-header max_len payload (some head, cs) m h e =
    rw (some-injective head (header payload) e, ntohl-htonl (length payload % 2 ^ 32) (omega arith))
      (ground (arith, m, h))

recv_body-too_long :
    (max_len : ℕ) (payload : Bytes) (r : Option Bytes × Incoming)
    → length payload < 2 ^ 32
    → max_len < length payload
    → r.0 ≡ some (header payload)
    → recv_body max_len r ≡ (none, r.1)
unfolding recv_body
recv_body-too_long max_len payload (none, cs) m h e = ground (arith, e)
recv_body-too_long max_len payload (some head, cs) m h e =
    rw (some-injective head (header payload) e, ntohl-htonl (length payload % 2 ^ 32) (omega arith))
      (ground (arith, m, h))

-- The header is read, and the payload and what follows are left.
header_read :
    (payload rest : Bytes) (cs : Incoming)
    → IsLive cs
    → stream cs ≡ header payload ++ payload ++ rest
    → Delivers 4 (header payload ++ payload ++ rest) (recv_all 4 cs)
unfolding htonl
header_read payload rest cs l e =
    subst (λ t. Delivers 4 t (recv_all 4 cs)) e (recv_all-Delivers 4 cs l (enough (stream cs) e))
  where
    enough : (t : Bytes) → t ≡ header payload ++ payload ++ rest → 4 ≤ length t
    enough t q = rw q (omega arith)

-- It is received, whatever follows it and however the stream is cut.
recv_framed-frame :
    (max_len : ℕ) (payload rest : Bytes) (cs : Incoming)
    → max_len < 2 ^ 32
    → length payload ≤ max_len
    → IsLive cs
    → stream cs ≡ header payload ++ payload ++ rest
    → (((recv_framed max_len cs).0 ≡ some payload)
        × ((stream (recv_framed max_len cs).1 ≡ rest) × IsLive (recv_framed max_len cs).1))
unfolding recv_framed htonl
recv_framed-frame max_len payload rest cs m h l e =
    rw (recv_body-header max_len payload (recv_all 4 cs) m h d.got) (
      b.got ∙ ap some (ap (take (length payload)) d.left ∙ take-append payload rest),
      (b.left ∙ ap (drop (length payload)) d.left ∙ drop-append payload rest, b.live),
    )
  where
    d : Delivers 4 (header payload ++ payload ++ rest) (recv_all 4 cs)
    d = header_read payload rest cs l e

    b :
        Delivers
          (length payload)
          (stream (recv_all 4 cs).1)
          (recv_all (length payload) (recv_all 4 cs).1)
    b =
        recv_all-Delivers (length payload) (recv_all 4 cs).1 d.live
          (rw d.left (omega (arith, length-append payload rest)))

-- If send_framed succeeds with a payload within the receiver's limit, and that limit is below
-- 2^32, recv_framed returns the payload and leaves exactly the bytes that follow, however the
-- kernel cuts writes and reads, as long as the stream neither ends nor fails.
pub recv_framed-send_framed :
    (max_len : ℕ) (ks : List ℕ) (payload rest : Bytes) (cs : Incoming)
    → max_len < 2 ^ 32
    → length payload ≤ max_len
    → (send_framed ks payload).ok ≡ true
    → IsLive cs
    → stream cs ≡ (send_framed ks payload).wire ++ rest
    → (((recv_framed max_len cs).0 ≡ some payload)
        × ((stream (recv_framed max_len cs).1 ≡ rest) × IsLive (recv_framed max_len cs).1))
recv_framed-send_framed max_len ks payload rest cs m h ok l e =
    recv_framed-frame max_len payload rest cs m h l
      (e ∙ ap (λ t. t ++ rest) (send_framed-wire ks payload ok))

-- recv_framed refuses a frame whose length, below 2^32, exceeds the limit, and reads nothing
-- behind the length.
pub recv_framed-too_long :
    (max_len : ℕ) (ks : List ℕ) (payload rest : Bytes) (cs : Incoming)
    → length payload < 2 ^ 32
    → max_len < length payload
    → (send_framed ks payload).ok ≡ true
    → IsLive cs
    → stream cs ≡ (send_framed ks payload).wire ++ rest
    → ((recv_framed max_len cs).0 ≡ none) × (stream (recv_framed max_len cs).1 ≡ payload ++ rest)
unfolding recv_framed htonl
recv_framed-too_long max_len ks payload rest cs small big ok l e =
    rw (refused (recv_all 4 cs) d.got) (refl, d.left)
  where
    d : Delivers 4 (header payload ++ payload ++ rest) (recv_all 4 cs)
    d = header_read payload rest cs l (e ∙ ap (λ t. t ++ rest) (send_framed-wire ks payload ok))

    refused :
        (r : Option Bytes × Incoming)
        → r.0 ≡ some (header payload)
        → recv_body max_len r ≡ (none, r.1)
    refused r q = recv_body-too_long max_len payload r small big q
