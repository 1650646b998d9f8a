-- ===== src/Client/Downloader/Pool/Termination.antt =====
-- A download's workers return (src/client/downloader.cpp): a bound on the turns that all of them
-- take together.
use peer_to_peer_file_sharin.Prelude.{
  ℕ, zero, suc, ◌+◌, ◌*◌, ◌%◌, ◌≤◌, ◌≡◌, refl, List, [], ◌∷◌, length, length-append, take, drop,
  All, arith,
}
use peer_to_peer_file_sharin.Common.Hash.{Evp}
use peer_to_peer_file_sharin.Client.Downloader.Reply.{Seeder}
use peer_to_peer_file_sharin.Client.Downloader.Fetch.{Turn}
use peer_to_peer_file_sharin.Client.Downloader.Pool.{Pool, Plan, spawn, rotated}
use peer_to_peer_file_sharin.Client.Downloader.Pool.Progress.{
  running_turns, running_turns-le, workers_budget,
}

length-take-drop {ℓ} :
    {A : Type ℓ} (k : ℕ) (xs : List A) → length (drop k xs) + length (take k xs) ≡ length xs
length-take-drop zero xs = omega arith
length-take-drop (suc k) [] = refl
length-take-drop (suc k) (x ∷ xs) = omega (arith, length-take-drop k xs)

length-rotated : (k : ℕ) (peers : List Seeder) → length (rotated k peers) ≡ length peers
unfolding rotated
length-rotated k peers =
    omega (arith, length-append (drop k peers) (take k peers), length-take-drop k peers)

spawn-orders :
    (id more : ℕ) (peers : List Seeder)
    → All (λ w. length w.order ≤ length peers) (spawn id more peers)
unfolding spawn
spawn-orders id zero peers = tt
spawn-orders id (suc more) peers =
    (omega (arith, length-rotated (id % length peers) peers), spawn-orders (id + 1) more peers)

spawn-budget :
    (id more : ℕ) (peers : List Seeder) → workers_budget (length peers) (spawn id more peers) ≡ more
unfolding spawn
spawn-budget id zero peers = refl
spawn-budget id (suc more) peers = omega (arith, spawn-budget (id + 1) more peers)

-- However the turns of a download's workers are ordered and whatever the network and the disk do in
-- them, at most one turn for each worker and five passes over the peers, with eight more turns, for
-- each piece in the queue fall on a worker that has not returned.
pub turns-spawn :
    (evp : Evp) (plan : Plan) (schedule : List (ℕ × Turn)) (more : ℕ) (peers : List Seeder)
    (p : Pool)
    → running_turns 0 evp plan schedule (spawn 0 more peers) p
      ≤ more + length p.pending * (5 * (length peers + 1) + 8)
turns-spawn evp plan schedule more peers p = omega (
  arith,
  spawn-budget 0 more peers,
  running_turns-le (length peers) evp plan schedule (spawn 0 more peers) p
      (spawn-orders 0 more peers),
)
