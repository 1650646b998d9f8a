-- ===== src/Container/Map.antt =====
-- std::unordered_map keyed by std::string, as an association list. The standard leaves the order
-- of iteration open; here it is the order of first insertion.
use peer_to_peer_file_sharin.Prelude.{
  ◌≡◌, refl, Bool, true, false, ◌||◌, List, [], ◌∷◌, Option, none, some, if◌then◌else◌, arith,
  Bool-cases, inl, inr,
}
use mathlib.Core.Path.{subst₂}
use mathlib.Core.Option.{some-injective}
use peer_to_peer_file_sharin.Bytes.{Bytes, ◌==◌, ==_iff}

abbrev pub Map {ℓ} : Type ℓ → Type ℓ
Map V = List (Bytes × V)

module _ {ℓ} {V : Type ℓ} where
  -- m.find(k)
  unfoldable pub find : Bytes → Map V → Option V
  find k [] = none
  find k ((j, v) ∷ m) = if j == k then some v else find k m

  -- m[k] = v
  unfoldable pub assign : Bytes → V → Map V → Map V
  assign k v [] = (k, v) ∷ []
  assign k v ((j, w) ∷ m) = if j == k then (k, v) ∷ m else (j, w) ∷ assign k v m

  -- m.erase(k)
  unfoldable pub erase : Bytes → Map V → Map V
  erase k [] = []
  erase k ((j, v) ∷ m) = let rest = erase k m in if j == k then rest else (j, v) ∷ rest

  abbrev pub has_key : Option V → Bool
  has_key none = false
  has_key (some v) = true

  -- m.find(k) != m.end()
  abbrev pub contains : Bytes → Map V → Bool
  contains k m = has_key (find k m)

  pub find-assign :
      (k j : Bytes) (v : V) (m : Map V)
      → find j (assign k v m) ≡ (if k == j then some v else find j m)
  unfolding find assign
  find-assign k j v [] = refl
  find-assign k j v ((i, w) ∷ m) =
      ground (arith, ==_iff k j, ==_iff i k, ==_iff i j, find-assign k j v m)

  pub find-erase :
      (k j : Bytes) (m : Map V) → find j (erase k m) ≡ (if k == j then none else find j m)
  unfolding find erase
  find-erase k j [] = ground arith
  find-erase k j ((i, v) ∷ m) = ground (arith, ==_iff k j, ==_iff i k, ==_iff i j, find-erase k j m)

  pub contains-assign :
      (k j : Bytes) (v : V) (m : Map V) → contains j (assign k v m) ≡ ((k == j) || contains j m)
  contains-assign k j v m = ground (arith, find-assign k j v m)

  pub contains-assign_self : (k : Bytes) (v : V) (m : Map V) → contains k (assign k v m) ≡ true
  contains-assign_self k v m = ground (arith, contains-assign k k v m, ==_iff k k)

  -- What holds of every entry, and of the one that is written, holds of every entry afterwards.
  pub assign_elim {κ} :
      (P : Bytes → V → Type κ) (k : Bytes) (v : V) (m : Map V)
      → P k v
      → ((j : Bytes) (w : V) → find j m ≡ some w → P j w)
      → (j : Bytes) (w : V) → find j (assign k v m) ≡ some w
      → P j w
  assign_elim P k v m new old j w e = elim (Bool-cases (k == j)) [
    | inl same ↦
        subst₂ P ((==_iff k j).0 same) (some-injective v w (ground (arith, find-assign k j v m)))
          new
    | inr other ↦ old j w (ground (arith, find-assign k j v m))
  ]
