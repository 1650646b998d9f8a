-- ===== src/Client/Downloader/Storage.antt =====
-- The files that `run` of src/client/downloader.cpp writes: the output file, opened or created and
-- brought to its size, and the sidecar with the status of each piece. What the calls of the C
-- library do is an argument. An int takes four bytes, the low one first.
pub mod Bytewise
pub mod Sidecar
use peer_to_peer_file_sharin.Prelude.{
  ℕ, zero, suc, ◌+◌, ◌-◌, ◌*◌, ◌/◌, ◌%◌, Bool, true, false, not, ◌&&◌, List, [], ◌∷◌, ◌++◌, Option,
  none, some, ltb, leb, if◌then◌else◌, length, take, drop, ℤ, pos, negsuc,
}
use peer_to_peer_file_sharin.Bytes.{Bytes}

-- The first bytes of a file, with zeros where it is shorter.
unfoldable pub pad : ℕ → Bytes → Bytes
pad zero s = []
pad (suc n) [] = 0 ∷ pad n []
pad (suc n) (c ∷ s) = c ∷ pad n s

-- A write at an offset.
unfoldable pub write_at : ℕ → Bytes → Bytes → Bytes
unfolding pad
write_at off buf s = pad off s ++ (buf ++ drop (off + length buf) s)

-- What the calls that prepare the output file do: whether an existing file can be opened, a new one
-- created, the seek and the write of the last byte succeed, and the buffer is flushed or its byte
-- lost.
pub record Preparing : Type 0 where
  pub opens : Bool
  pub creates : Bool
  pub seeks : Bool
  pub puts : Bool
  pub flushes : Bool

-- fopen in mode rb+, or else in mode wb+
unfoldable pub open_output : Preparing → Option Bytes → Option Bytes
open_output p none = if p.creates then some [] else none
open_output p (some s) = if p.opens then some s else if p.creates then some [] else none

-- A zero at the last byte. The file afterwards, and whether the download goes on.
unfoldable pub preallocate : Preparing → ℤ → Bytes → Bytes × Bool
unfolding write_at
preallocate p (negsuc n) s = (s, true)
preallocate p (pos size) s =
    if not (ltb 0 size)
    then (s, true)
    else if not (p.seeks && p.puts)
    then (s, false)
    else if p.flushes
    then (write_at (size - 1) (0 ∷ []) s, true)
    else (s, true)

-- One int of the sidecar.
unfoldable pub int_bytes : ℕ → Bytes
int_bytes n = n % 256 ∷ (n / 256) % 256 ∷ (n / 65536) % 256 ∷ (n / 16777216) % 256 ∷ []

-- Each piece's status, as `save_state` writes them.
unfoldable pub state_bytes : List ℕ → Bytes
unfolding int_bytes
state_bytes [] = []
state_bytes (st ∷ sts) = int_bytes st ++ state_bytes sts

-- A read of one int, if four bytes are left, and what is left.
unfoldable pub read_int : Bytes → Option ℕ × Bytes
read_int (a ∷ b ∷ c ∷ d ∷ s) = (some (a + 256 * (b + 256 * (c + 256 * d))), s)
read_int _ = (none, [])

unfoldable pub status_or_pending : Option ℕ → ℕ
status_or_pending none = 0
status_or_pending (some st) = st

unfoldable pub read_states : ℕ → Bytes → List ℕ
unfolding read_int status_or_pending
read_states zero s = []
read_states (suc n) s = let r = read_int s in status_or_pending r.0 ∷ read_states n r.1

-- The statuses to begin with: those of the sidecar, if there is one, else all pending.
unfoldable pub load_state : ℕ → Option Bytes → List ℕ
unfolding read_states
load_state n none = read_states n []
load_state n (some s) = read_states n s
