-- ===== src/Bytes/Lines.antt =====
-- The lines of a text, as src/ reads files and records: `std::getline` in a loop.
use peer_to_peer_file_sharin.Prelude.{
  ℕ, ◌≡◌, refl, false, List, [], ◌∷◌, ◌++◌, nat_eq, if◌then◌else◌, arith, All,
}
use peer_to_peer_file_sharin.Bytes.{Bytes, is_space}

-- `std::getline` until the text ends; a line break at the very end begins no further line.
abbrev pub onto_first : ℕ → List Bytes → List Bytes
onto_first c [] = (c ∷ []) ∷ []
onto_first c (l ∷ ls) = (c ∷ l) ∷ ls

unfoldable pub lines : Bytes → List Bytes
lines [] = []
lines (c ∷ s) = let rest = lines s in if nat_eq c b'\n' then [] ∷ rest else onto_first c rest

pub lines-append :
    (l s : Bytes) → All (λ c. nat_eq c b'\n' ≡ false) l → lines (l ++ b'\n' ∷ s) ≡ l ∷ lines s
unfolding lines
lines-append [] s h = refl
lines-append (c ∷ l) s h = rw (h.0, lines-append l s h.1)

-- A text without white space has no line break.
pub no_break : (w : Bytes) → All (λ c. is_space c ≡ false) w → All (λ c. nat_eq c b'\n' ≡ false) w
no_break [] h = tt
no_break (c ∷ w) h = (solid c h.0, no_break w h.1)
  where
    solid : (c : ℕ) → is_space c ≡ false → nat_eq c b'\n' ≡ false
    solid c e = unfold is_space in ground arith

pub All-append {ℓ κ} :
    {A : Type ℓ} (P : A → Type κ) (xs ys : List A) → All P xs → All P ys → All P (xs ++ ys)
All-append P [] ys hx hy = hy
All-append P (x ∷ xs) ys hx hy = (hx.0, All-append P xs ys hx.1 hy)
