-- ===== src/Client/Downloader/Storage/Sidecar.antt =====
-- The sidecar of src/client/downloader.cpp: what `save_state` wrote is what a later run loads.
use peer_to_peer_file_sharin.Prelude.{
  ℕ, ◌+◌, ◌*◌, ◌/◌, ◌%◌, ◌^◌, ◌<◌, ◌≡◌, refl, ap₂, List, [], ◌∷◌, some, length, arith, All,
}
use peer_to_peer_file_sharin.Client.Downloader.Storage.{state_bytes, load_state}

int-int_bytes :
    (n : ℕ)
    → n < 2 ^ 32
    → n % 256 + 256 * ((n / 256) % 256 + 256 * ((n / 65536) % 256 + 256 * ((n / 16777216) % 256)))
      ≡ n
int-int_bytes n h = omega arith

-- A later run for as many pieces finds each piece's status as it was saved, if each fits an int.
pub load_state-state_bytes :
    (sts : List ℕ)
    → All (λ st. st < 2 ^ 32) sts
    → load_state (length sts) (some (state_bytes sts)) ≡ sts
unfolding load_state state_bytes
load_state-state_bytes [] h = refl
load_state-state_bytes (st ∷ sts) h =
    ap₂ ◌∷◌ (int-int_bytes st h.0) (load_state-state_bytes sts h.1)
