-- ===== src/Container/NameSet.antt =====
-- std::unordered_set<std::string> as a list without repetitions, in the order of first insertion.
use peer_to_peer_file_sharin.Prelude.{
  ◌≡◌, refl, Bool, false, not, ◌&&◌, ◌||◌, List, [], ◌∷◌, if◌then◌else◌, arith,
}
use peer_to_peer_file_sharin.Bytes.{Bytes, ◌==◌, ==_iff}

abbrev pub NameSet : Type 0
NameSet = List Bytes

-- s.find(x) != s.end()
unfoldable pub member : Bytes → NameSet → Bool
member x [] = false
member x (y ∷ s) = y == x || member x s

-- s.insert(x)
unfoldable pub insert : Bytes → NameSet → NameSet
insert x [] = x ∷ []
insert x (y ∷ s) = if y == x then y ∷ s else y ∷ insert x s

-- s.insert(xs.begin(), xs.end())
unfoldable pub insert_all : List Bytes → NameSet → NameSet
insert_all [] s = s
insert_all (x ∷ xs) s = insert_all xs (insert x s)

-- s.erase(x)
unfoldable pub remove : Bytes → NameSet → NameSet
remove x [] = []
remove x (y ∷ s) = let rest = remove x s in if y == x then rest else y ∷ rest

pub member-insert : (x y : Bytes) (s : NameSet) → member y (insert x s) ≡ ((x == y) || member y s)
unfolding member insert
member-insert x y [] = refl
member-insert x y (z ∷ s) = ground (arith, ==_iff x y, ==_iff z x, ==_iff z y, member-insert x y s)

pub member-remove :
    (x y : Bytes) (s : NameSet) → member y (remove x s) ≡ (not (x == y) && member y s)
unfolding member remove
member-remove x y [] = ground arith
member-remove x y (z ∷ s) = ground (arith, ==_iff x y, ==_iff z x, ==_iff z y, member-remove x y s)

pub member-insert_all :
    (xs : List Bytes) (y : Bytes) (s : NameSet)
    → member y (insert_all xs s) ≡ (member y xs || member y s)
unfolding insert_all member
member-insert_all [] y s = refl
member-insert_all (x ∷ xs) y s =
    ground (arith, member-insert_all xs y (insert x s), member-insert x y s)
