-- ===== src/Bytes/Decimal.antt =====
-- std::to_string of a number that is not negative. Each round divides by ten, so a number is fuel
-- enough for its own digits.
use peer_to_peer_file_sharin.Prelude.{
  ℕ, zero, suc, ◌+◌, ◌/◌, ◌%◌, [], ◌∷◌, ◌++◌, ltb, if◌then◌else◌,
}
use peer_to_peer_file_sharin.Bytes.{Bytes}

unfoldable pub digits : ℕ → ℕ → Bytes
digits zero n = (48 + n % 10) ∷ []
digits (suc fuel) n =
    let more = digits fuel (n / 10) ++ (48 + n % 10) ∷ [] in
    if ltb n 10 then (48 + n) ∷ [] else more

unfoldable pub to_string : ℕ → Bytes
unfolding digits
to_string n = digits n n
