-- ===== src/Client/Http/Json/Containment.antt =====
-- A text that `json_escape` of src/client/http_server.cpp has escaped stays within its string.
use peer_to_peer_file_sharin.Prelude.{
  ℕ, ◌/◌, ◌%◌, ◌<◌, ◌≡◌, refl, ap, ◌∙◌, Bool, true, false, [], ◌∷◌, ◌++◌, append_assoc, Option,
  none, some, nat_eq, ltb, if◌then◌else◌, if_elim, arith,
}
use peer_to_peer_file_sharin.Bytes.{Bytes}
use peer_to_peer_file_sharin.Common.Hash.{hex_digit}
use peer_to_peer_file_sharin.Client.Http.Json.{escape_byte, json_escape}

-- What a JSON reader finds behind the end of a string that it has entered: a backslash takes the
-- next byte with it, and a control character is an error.
pub string_end : Bool → Bytes → Option Bytes
string_end escaped [] = none
string_end true (c ∷ s) = string_end false s
string_end false (c ∷ s) =
    let plain = string_end false s in
    let escaped = string_end true s in
    if nat_eq c b'"'
    then some s
    else if nat_eq c b'\\'
    then escaped
    else if ltb c 32
    then none
    else plain

string_end-plain :
    (c : ℕ) (s : Bytes)
    → nat_eq c b'"' ≡ false
    → nat_eq c b'\\' ≡ false
    → ltb c 32 ≡ false
    → string_end false (c ∷ s) ≡ string_end false s
unfolding string_end
string_end-plain c s q b l = rw (q, b, l) refl

hex_digit-plain :
    (n : ℕ)
    → n < 16
    → (nat_eq (hex_digit n) b'"' ≡ false)
      × ((nat_eq (hex_digit n) b'\\' ≡ false) × (ltb (hex_digit n) 32 ≡ false))
unfolding hex_digit
hex_digit-plain n h = ground arith

string_end-hex :
    (n : ℕ) (s : Bytes) → n < 16 → string_end false (hex_digit n ∷ s) ≡ string_end false s
string_end-hex n s h =
    let r = hex_digit-plain n h in string_end-plain (hex_digit n) s r.0 r.1.0 r.1.1

-- A reader goes over an escaped byte.
string_end-escape_byte :
    (c : ℕ) (s : Bytes) → string_end false (escape_byte c ++ s) ≡ string_end false s
unfolding escape_byte string_end
string_end-escape_byte c s =
    if_elim Passes (nat_eq c b'"') _ _ (λ _. refl)
      (λ q.
        if_elim Passes (nat_eq c b'\\') _ _ (λ _. refl)
          (λ b.
            if_elim Passes (nat_eq c 10) _ _ (λ _. refl)
              (λ _.
                if_elim Passes (nat_eq c 13) _ _ (λ _. refl)
                  (λ _.
                    if_elim Passes (nat_eq c 9) _ _ (λ _. refl)
                      (λ _.
                        if_elim Passes (ltb c 32) _ _
                          (λ l.
                            string_end-hex (c / 16) _ (ground (arith, l))
                            ∙ string_end-hex (c % 16) s (ground arith))
                          (λ l. string_end-plain c s q b l))))))
  where
    Passes : Bytes → Type 0
    Passes w = string_end false (w ++ s) ≡ string_end false s

-- Whatever the text, control characters and quotes included, a reader that has entered its string
-- leaves it at the closing quote and nowhere before.
pub string_end-json_escape :
    (s rest : Bytes) → string_end false (json_escape s ++ b'"' ∷ rest) ≡ some rest
unfolding json_escape string_end
string_end-json_escape [] rest = refl
string_end-json_escape (c ∷ s) rest =
    ap (string_end false) (append_assoc (escape_byte c) (json_escape s) (b'"' ∷ rest))
    ∙ string_end-escape_byte c (json_escape s ++ b'"' ∷ rest)
    ∙ string_end-json_escape s rest
