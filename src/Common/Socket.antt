-- ===== src/Common/Socket.antt =====
-- src/common/socket_io.cpp: the framing envelope over partial reads and writes. What the kernel
-- does is data: the incoming side of a connection is the list of chunks that arrive, of which an
-- empty one stands for the end of the stream or an error, and the outgoing side is the list of the
-- numbers of bytes that successive calls of `send` are willing to take, of which 0 is an error.
pub mod Delivery
pub mod Framing
use peer_to_peer_file_sharin.Prelude.{
  ℕ, ◌+◌, ◌-◌, ◌*◌, ◌/◌, ◌%◌, ◌^◌, Bool, true, false, not, List, [], ◌∷◌, ◌++◌, Option, none, some,
  ltb, leb, nat_eq, if◌then◌else◌, length, take, drop,
}
use peer_to_peer_file_sharin.Bytes.{Bytes, is_empty}

-- What arrives.
abbrev pub Incoming : Type 0
Incoming = List Bytes

-- What `read` calls have delivered, put in front of what the rest of the loop delivers.
unfoldable pub received : Bytes → Option Bytes × Incoming → Option Bytes × Incoming
received c (none, cs) = (none, cs)
received c (some s, cs) = (some (c ++ s), cs)

-- A `read` of at most `n` bytes returns the chunk that has arrived, or its first `n` bytes.
unfoldable pub recv_all : ℕ → Incoming → Option Bytes × Incoming
unfolding received
recv_all n [] = if nat_eq n 0 then (some [], []) else (none, [])
recv_all n (c ∷ cs) =
    let rest = recv_all (n - length c) cs in
    if nat_eq n 0
    then (some [], c ∷ cs)
    else if is_empty c
    then (none, cs)
    else if leb (length c) n
    then received c rest
    else (some (take n c), drop n c ∷ cs)

-- The result of a write: whether it succeeded, the bytes that went out, and what later calls of
-- `send` will take.
pub record Sent : Type 0 where
  pub ok : Bool
  pub wire : Bytes
  pub later : List ℕ

abbrev pub after_bytes : Bytes → Sent → Sent
after_bytes s r = record r { wire = s ++ r.wire }

unfoldable pub send_all : List ℕ → Bytes → Sent
send_all [] buf = record { ok = is_empty buf; wire = []; later = [] }
send_all (k ∷ ks) buf =
    let rest = send_all ks (drop k buf) in
    if is_empty buf
    then record { ok = true; wire = []; later = k ∷ ks }
    else if nat_eq k 0
    then record { ok = false; wire = []; later = ks }
    else after_bytes (take k buf) rest

-- `htonl`, as the four bytes in memory.
unfoldable pub htonl : ℕ → Bytes
htonl n = (n / 16777216) % 256 ∷ (n / 65536) % 256 ∷ (n / 256) % 256 ∷ n % 256 ∷ []

-- `ntohl` of four bytes.
unfoldable pub ntohl : Bytes → ℕ
ntohl (a ∷ b ∷ c ∷ d ∷ []) = ((a * 256 + b) * 256 + c) * 256 + d
ntohl _ = 0

-- The length as a `uint32_t`, then the payload if that went out.
unfoldable pub send_framed : List ℕ → Bytes → Sent
unfolding send_all htonl
send_framed ks payload =
    let head : Sent = send_all ks (htonl (length payload % 2 ^ 32)) in
    if not head.ok then head else after_bytes head.wire (send_all head.later payload)

abbrev pub max_frame_size : ℕ
max_frame_size = 16 * 1024 * 1024

unfoldable pub recv_body : ℕ → Option Bytes × Incoming → Option Bytes × Incoming
unfolding recv_all ntohl
recv_body max_len (none, cs) = (none, cs)
recv_body max_len (some head, cs) =
    if ltb max_len (ntohl head) then (none, cs) else recv_all (ntohl head) cs

unfoldable pub recv_framed : ℕ → Incoming → Option Bytes × Incoming
unfolding recv_body
recv_framed max_len cs = recv_body max_len (recv_all 4 cs)
