-- ===== src/Container/Distinct.antt =====
-- Containers without repetitions: writing what is new appends it.
use peer_to_peer_file_sharin.Prelude.{
  ◌≡◌, refl, ap, ◌∙◌, false, ◌||◌, List, [], ◌∷◌, ◌++◌, append-nil, append_assoc, none, arith,
}
use peer_to_peer_file_sharin.Bytes.{Bytes, ==_iff}
use peer_to_peer_file_sharin.Container.Map.{Map, find, assign, contains}
use peer_to_peer_file_sharin.Container.NameSet.{NameSet, member, insert, insert_all}

-- No name stands twice.
abbrev pub Distinct : List Bytes → Type 0
Distinct [] = Unit
Distinct (x ∷ xs) = (member x xs ≡ false) × Distinct xs

abbrev pub keys {ℓ} : {V : Type ℓ} → Map V → List Bytes
keys [] = []
keys ((k, v) ∷ m) = k ∷ keys m

pub keys-append {ℓ} : {V : Type ℓ} (m n : Map V) → keys (m ++ n) ≡ keys m ++ keys n
keys-append [] n = refl
keys-append ((k, v) ∷ m) n = ap (◌∷◌ k) (keys-append m n)

member-append :
    (x : Bytes) (xs ys : List Bytes) → member x (xs ++ ys) ≡ (member x xs || member x ys)
unfolding member
member-append x [] ys = refl
member-append x (y ∷ xs) ys = ground (arith, member-append x xs ys)

-- A name in the middle stands nowhere before.
pub member-middle :
    (xs : List Bytes) (k : Bytes) (ys : List Bytes) → Distinct (xs ++ k ∷ ys) → member k xs ≡ false
unfolding member
member-middle [] k ys d = refl
member-middle (x ∷ xs) k ys d =
    ground (arith, ==_iff x k, ==_iff k x, member-append x xs (k ∷ ys), member-middle xs k ys d.1)

pub contains-keys {ℓ} : {V : Type ℓ} (k : Bytes) (m : Map V) → contains k m ≡ member k (keys m)
unfolding find member
contains-keys k [] = refl
contains-keys k ((j, v) ∷ m) = ground (arith, contains-keys k m)

pub assign-absent {ℓ} :
    {V : Type ℓ} (k : Bytes) (v : V) (m : Map V)
    → member k (keys m) ≡ false
    → assign k v m ≡ m ++ (k, v) ∷ []
unfolding assign member
assign-absent k v [] h = refl
assign-absent k v ((j, w) ∷ m) h = ground (arith, assign-absent k v m)

insert-absent : (x : Bytes) (s : NameSet) → member x s ≡ false → insert x s ≡ s ++ x ∷ []
unfolding insert member
insert-absent x [] h = refl
insert-absent x (y ∷ s) h = ground (arith, insert-absent x s)

insert_all-append : (xs : List Bytes) (s : NameSet) → Distinct (s ++ xs) → insert_all xs s ≡ s ++ xs
unfolding insert_all
insert_all-append [] s d = rw append-nil
insert_all-append (x ∷ xs) s d =
    rw (insert-absent x s (member-middle s x xs d))
      (insert_all-append xs (s ++ x ∷ []) (rw append_assoc d) ∙ append_assoc s (x ∷ []) xs)

-- Distinct names inserted into the empty set are that set.
pub insert_all-nil : (xs : List Bytes) → Distinct xs → insert_all xs [] ≡ xs
insert_all-nil xs d = insert_all-append xs [] d

pub find-absent {ℓ} :
    {V : Type ℓ} (k : Bytes) (m : Map V) → member k (keys m) ≡ false → find k m ≡ none
unfolding find member
find-absent k [] h = refl
find-absent k ((j, v) ∷ m) h = ground (arith, find-absent k m)
