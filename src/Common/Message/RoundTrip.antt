-- ===== src/Common/Message/RoundTrip.antt =====
-- Numbers that `std::to_string` wrote are read back by `parse_ll` and `parse_int`
-- (src/common/message.cpp), and they are words for `split_args`.
use peer_to_peer_file_sharin.Prelude.{
  ℕ, zero, suc, ◌+◌, ◌-◌, ◌*◌, ◌/◌, ◌%◌, ◌≤◌, ◌<◌, ◌≡◌, refl, true, false, [], ◌∷◌, ◌++◌, Option,
  none, some, ltb, if◌then◌else◌, pos, arith, All, Bool-cases, inl, inr, if_elim, ap, ◌∙◌,
}
use peer_to_peer_file_sharin.Bytes.{Bytes, is_space, is_empty}
use peer_to_peer_file_sharin.Bytes.Decimal.{digits, to_string}
use peer_to_peer_file_sharin.Common.Message.Words.{IsWord}
use peer_to_peer_file_sharin.Common.Message.Numbers.{
  read_digits, is_digit, to_ll, parse_ll, parse_int, ll_limit, int_limit,
}

-- Reading goes on with what has been read.
abbrev read_on : Option ℕ → Bytes → Option ℕ
read_on none s = none
read_on (some n) s = read_digits n s

read_digits-append : (n : ℕ) (s t : Bytes) → read_digits n (s ++ t) ≡ read_on (read_digits n s) t
unfolding read_digits
read_digits-append n [] t = refl
read_digits-append n (c ∷ s) t = ground (arith, read_digits-append (n * 10 + (c - 48)) s t)

read_digits-digit : (n d : ℕ) → d < 10 → read_digits n ((48 + d) ∷ []) ≡ some (n * 10 + d)
unfolding read_digits is_digit
read_digits-digit n d h = ground arith

read_digits-digits : (fuel n : ℕ) → n ≤ fuel → read_digits 0 (digits fuel n) ≡ some n
unfolding digits
read_digits-digits zero n h = read_digits-digit 0 (n % 10) (omega arith) ∙ ap some (omega arith)
read_digits-digits (suc fuel) n h = elim (Bool-cases (ltb n 10)) [
  | inl small ↦ rw small (read_digits-digit 0 n (ground arith) ∙ ap some (omega arith))
  | inr large ↦
      rw (large, read_digits-append, read_digits-digits fuel (n / 10) (ground arith))
        (read_digits-digit (n / 10) (n % 10) (omega arith) ∙ ap some (omega arith))
]

-- A text of digits alone, with one at least.
pub record IsNumeral (s : Bytes) : Type 0 where
  pub nonempty : is_empty s ≡ false
  pub numeric : All (λ c. is_digit c ≡ true) s

is_digit-digit : (d : ℕ) → d < 10 → is_digit (48 + d) ≡ true
unfolding is_digit
is_digit-digit d h = ground arith

append-IsNumeral : (s : Bytes) (c : ℕ) → IsNumeral s → is_digit c ≡ true → IsNumeral (s ++ c ∷ [])
append-IsNumeral [] c h e = cc (h.nonempty)
append-IsNumeral (d ∷ []) c h e = record { nonempty = refl; numeric = (h.numeric.0, (e, tt)) }
append-IsNumeral (d ∷ d' ∷ s) c h e =
    let r = append-IsNumeral (d' ∷ s) c (record { nonempty = refl; numeric = h.numeric.1 }) e in
    record { nonempty = refl; numeric = (h.numeric.0, r.numeric) }

one-IsNumeral : (d : ℕ) → d < 10 → IsNumeral ((48 + d) ∷ [])
one-IsNumeral d h = record { nonempty = refl; numeric = (is_digit-digit d h, tt) }

digits-IsNumeral : (fuel n : ℕ) → IsNumeral (digits fuel n)
unfolding digits
digits-IsNumeral zero n = one-IsNumeral (n % 10) (omega arith)
digits-IsNumeral (suc fuel) n =
    if_elim IsNumeral (ltb n 10) _ _ (λ small. one-IsNumeral n (ground arith))
      λ _.
        append-IsNumeral (digits fuel (n / 10)) (48 + n % 10) (digits-IsNumeral fuel (n / 10))
          (is_digit-digit (n % 10) (omega arith))

pub to_string-IsNumeral : (n : ℕ) → IsNumeral (to_string n)
unfolding to_string
to_string-IsNumeral n = digits-IsNumeral n n

solid_digits : (s : Bytes) → All (λ c. is_digit c ≡ true) s → All (λ c. is_space c ≡ false) s
solid_digits [] h = tt
solid_digits (c ∷ s) h = (space c h.0, solid_digits s h.1)
  where
    space : (c : ℕ) → is_digit c ≡ true → is_space c ≡ false
    space c e = unfold is_digit is_space in ground arith

-- A number that was written is a word.
pub to_string-IsWord : (n : ℕ) → IsWord (to_string n)
to_string-IsWord n =
    let r = to_string-IsNumeral n in
    record { nonempty = r.nonempty; solid = solid_digits (to_string n) r.numeric }

parse_ll-IsNumeral : (s : Bytes) → IsNumeral s → parse_ll s ≡ to_ll (read_digits 0 s)
unfolding parse_ll is_digit
parse_ll-IsNumeral [] h = cc (h.nonempty)
parse_ll-IsNumeral (c ∷ s) h = ground (arith, h.numeric.0)

pub read_digits-to_string : (n : ℕ) → read_digits 0 (to_string n) ≡ some n
unfolding to_string
read_digits-to_string n = read_digits-digits n n (omega arith)

-- parse_ll reads the decimal form of every number below 2^63 back as that number.
pub parse_ll-to_string : (n : ℕ) → n < ll_limit → parse_ll (to_string n) ≡ some (pos n)
unfolding to_string to_ll
parse_ll-to_string n h =
    rw
      (
        parse_ll-IsNumeral (digits n n) (to_string-IsNumeral n),
        read_digits-digits n n (omega arith),
      )
      (ground arith)

-- parse_int reads the decimal form of a number below 2^31 back, and refuses that of a number from
-- there to 2^63.
pub parse_int-to_string :
    (n : ℕ)
    → n < ll_limit
    → parse_int (to_string n) ≡ (if ltb n int_limit then some (pos n) else none)
unfolding parse_int
parse_int-to_string n h = rw (parse_ll-to_string n h)
