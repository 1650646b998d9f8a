-- ===== src/Client/Downloader/Reply/Seeders.antt =====
-- The block of seeders in the tracker's answer (`download_file` of src/tracker/tracker_state.cpp) as
-- src/client/downloader.cpp reads it.
use peer_to_peer_file_sharin.Prelude.{
  ◌≡◌, refl, ap, ◌∙◌, true, List, [], ◌∷◌, ◌++◌, append_assoc, Option, none, some, if◌then◌else◌,
  Bool-cases, inl, inr,
}
use peer_to_peer_file_sharin.Bytes.{Bytes, is_space}
use peer_to_peer_file_sharin.Container.Map.{Map, find}
use peer_to_peer_file_sharin.Container.NameSet.{NameSet}
use peer_to_peer_file_sharin.Common.Message.{IsWord, split_args, split_args-word}
use peer_to_peer_file_sharin.Tracker.State.{Peer, seeder_line, seeder_lines}
use peer_to_peer_file_sharin.Client.Downloader.Reply.{Seeder, triples}

-- A seeder that the tracker lists: it is connected.
abbrev online_seeder : Bytes → Option Peer → List Seeder → List Seeder
online_seeder name none rest = rest
online_seeder name (some p) rest =
    if p.connected then record { name = name; ip = p.hostip; port = p.hostport } ∷ rest else rest

abbrev pub online_seeders : NameSet → Map Peer → List Seeder
online_seeders [] peers = []
online_seeders (name ∷ names) peers =
    online_seeder name (find name peers) (online_seeders names peers)

-- A name and an address of words.
pub record Addressed (name : Bytes) (p : Peer) : Type 0 where
  pub name-IsWord : IsWord name
  pub ip-IsWord : IsWord p.hostip
  pub port-IsWord : IsWord p.hostport

abbrev AddressedIf : Bytes → Option Peer → Type 0
AddressedIf name none = Unit
AddressedIf name (some p) = p.connected ≡ true → Addressed name p

abbrev pub AllAddressed : NameSet → Map Peer → Type 0
AllAddressed [] peers = Unit
AllAddressed (name ∷ names) peers = AddressedIf name (find name peers) × AllAddressed names peers

split_args-line :
    (name ip port t : Bytes)
    → IsWord name
    → IsWord ip
    → IsWord port
    → split_args ((name ++ (b' ' ∷ (ip ++ (b' ' ∷ (port ++ b'\n' ∷ []))))) ++ t)
      ≡ name ∷ ip ∷ port ∷ split_args t
unfolding is_space
split_args-line name ip port t n i p =
    ap split_args (
      append_assoc name _ t
      ∙ ap (λ s. name ++ b' ' ∷ s) (append_assoc ip _ t)
      ∙ ap (λ s. name ++ b' ' ∷ (ip ++ b' ' ∷ s)) (append_assoc port _ t))
    ∙ split_args-word name b' ' (ip ++ b' ' ∷ (port ++ b'\n' ∷ t)) n refl
    ∙ ap (◌∷◌ name) (
        split_args-word ip b' ' (port ++ b'\n' ∷ t) i refl
        ∙ ap (◌∷◌ ip) (split_args-word port b'\n' t p refl))

triples-seeder_line :
    (name : Bytes) (o : Option Peer) (t : Bytes)
    → AddressedIf name o
    → triples (split_args (seeder_line name o ++ t)) ≡ online_seeder name o (triples (split_args t))
unfolding seeder_line triples
triples-seeder_line name none t h = refl
triples-seeder_line name (some p) t h = elim (Bool-cases p.connected) [
  | inl on ↦
      let a = h on in
      rw
        (
          on,
          split_args-line name p.hostip p.hostport t a.name-IsWord a.ip-IsWord a.port-IsWord,
          triples,
        )
        refl
  | inr off ↦ rw off refl
]

pub triples-seeder_lines :
    (names : NameSet) (peers : Map Peer)
    → AllAddressed names peers
    → triples (split_args (seeder_lines names peers ++ b'\n' ∷ [])) ≡ online_seeders names peers
unfolding seeder_lines
triples-seeder_lines [] peers h = unfold triples split_args is_space in refl
triples-seeder_lines (name ∷ names) peers h =
    ap (λ s. triples (split_args s))
      (append_assoc (seeder_line name (find name peers)) (seeder_lines names peers) (b'\n' ∷ []))
    ∙ triples-seeder_line name (find name peers) (seeder_lines names peers ++ b'\n' ∷ []) h.0
    ∙ ap (online_seeder name (find name peers)) (triples-seeder_lines names peers h.1)
