-- ===== src/Common/Message/Numbers.antt =====
-- `parse_ll` and `parse_int` of src/common/message.cpp: a complete integer in range, or nothing.
use peer_to_peer_file_sharin.Prelude.{
  ℕ, ◌+◌, ◌-◌, ◌*◌, ◌^◌, ◌<◌, ◌≡◌, Bool, ◌&&◌, [], ◌∷◌, Option, none, some, ltb, leb, nat_eq,
  if◌then◌else◌, ℤ, pos, negsuc, negate, arith,
}
use peer_to_peer_file_sharin.Bytes.{Bytes, is_space}

-- std::numeric_limits<long long>::max() + 1 and std::numeric_limits<int>::max() + 1
abbrev pub ll_limit : ℕ
ll_limit = 2 ^ 63

abbrev pub int_limit : ℕ
int_limit = 2 ^ 31

unfoldable pub is_digit : ℕ → Bool
is_digit c = leb 48 c && leb c 57

-- Decimal digits to the end of the text; any other byte leaves `end` before the end.
unfoldable pub read_digits : ℕ → Bytes → Option ℕ
read_digits n [] = some n
read_digits n (c ∷ s) =
    let rest = read_digits (n * 10 + (c - 48)) s in if is_digit c then rest else none

-- `strtoll` converts nothing without a digit.
unfoldable pub read_number : Bytes → Option ℕ
unfolding read_digits is_digit
read_number [] = none
read_number (c ∷ s) = read_digits 0 (c ∷ s)

-- Past the range `strtoll` sets ERANGE.
unfoldable pub to_ll : Option ℕ → Option ℤ
to_ll none = none
to_ll (some n) = if ltb n ll_limit then some (pos n) else none

unfoldable pub to_negative_ll : Option ℕ → Option ℤ
unfolding negate
to_negative_ll none = none
to_negative_ll (some n) = if leb n ll_limit then some (negate n) else none

unfoldable pub parse_signed : ℕ → Bytes → Option ℤ
unfolding read_number to_ll to_negative_ll
parse_signed c s =
    if nat_eq c b'-'
    then to_negative_ll (read_number s)
    else if nat_eq c b'+'
    then to_ll (read_number s)
    else to_ll (read_number (c ∷ s))

unfoldable pub parse_ll : Bytes → Option ℤ
unfolding parse_signed is_space
parse_ll [] = none
parse_ll (c ∷ s) = if is_space c then none else parse_signed c s

unfoldable pub narrow_int : Option ℤ → Option ℤ
narrow_int none = none
narrow_int (some (pos n)) = if ltb n int_limit then some (pos n) else none
narrow_int (some (negsuc n)) = if ltb n int_limit then some (negsuc n) else none

unfoldable pub parse_int : Bytes → Option ℤ
unfolding parse_ll narrow_int
parse_int s = narrow_int (parse_ll s)

abbrev pub InLl : ℤ → Type 0
InLl (pos n) = n < ll_limit
InLl (negsuc n) = n < ll_limit

abbrev pub InInt : ℤ → Type 0
InInt (pos n) = n < int_limit
InInt (negsuc n) = n < int_limit

narrow_int_bounds : (v : Option ℤ) (n : ℤ) → narrow_int v ≡ some n → InInt n
unfolding narrow_int
narrow_int_bounds none n h = cc
narrow_int_bounds (some (pos m)) n h = ground arith
narrow_int_bounds (some (negsuc m)) n h = ground arith

-- What `parse_int` accepts is in the range of an int.
pub parse_int-InInt : (s : Bytes) (n : ℤ) → parse_int s ≡ some n → InInt n
unfolding parse_int
parse_int-InInt s n h = narrow_int_bounds (parse_ll s) n h
