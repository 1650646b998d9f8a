-- ===== src/Common/Socket/Delivery.antt =====
-- What `recv_all` and `send_all` of src/common/socket_io.cpp deliver, however the stream is cut.
use peer_to_peer_file_sharin.Prelude.{
  ℕ, zero, suc, ◌-◌, ◌≤◌, ◌<◌, ◌≡◌, refl, ap, sym, ◌∙◌, true, false, List, [], ◌∷◌, ◌++◌, Option,
  none, some, All, length, length-append, take, drop, arith, if_elim, nat_eq, leb,
}
use peer_to_peer_file_sharin.Bytes.{Bytes, is_empty}
use peer_to_peer_file_sharin.Common.Socket.{Incoming, recv_all, received, send_all}

-- The bytes of the chunks, one behind the other.
abbrev pub stream : Incoming → Bytes
stream [] = []
stream (c ∷ cs) = c ++ stream cs

-- No end of the stream and no error among the chunks.
abbrev pub IsLive : Incoming → Type 0
IsLive = All (λ c. is_empty c ≡ false)

-- The reader has got the first `n` bytes and what it left is the rest.
pub record Delivers (n : ℕ) (s : Bytes) (r : Option Bytes × Incoming) : Type 0 where
  pub got : r.0 ≡ some (take n s)
  pub left : stream r.1 ≡ drop n s
  pub live : IsLive r.1

minus_zero : (n : ℕ) → n ≡ n - 0
minus_zero n = omega arith

minus_suc : (n m : ℕ) → n - m ≡ suc n - suc m
minus_suc n m = omega arith

take-past :
    (n : ℕ) (xs ys : Bytes) → length xs ≤ n → take n (xs ++ ys) ≡ xs ++ take (n - length xs) ys
take-past n [] ys h = ap (λ k. take k ys) (minus_zero n)
take-past zero (x ∷ xs) ys h = ground (arith, h)
take-past (suc n) (x ∷ xs) ys h =
    ap (◌∷◌ x)
      (take-past n xs ys (omega (arith, h)) ∙ ap (λ k. xs ++ take k ys) (minus_suc n (length xs)))

drop-past : (n : ℕ) (xs ys : Bytes) → length xs ≤ n → drop n (xs ++ ys) ≡ drop (n - length xs) ys
drop-past n [] ys h = ap (λ k. drop k ys) (minus_zero n)
drop-past zero (x ∷ xs) ys h = ground (arith, h)
drop-past (suc n) (x ∷ xs) ys h =
    drop-past n xs ys (omega (arith, h)) ∙ ap (λ k. drop k ys) (minus_suc n (length xs))

take-within : (n : ℕ) (xs ys : Bytes) → n ≤ length xs → take n (xs ++ ys) ≡ take n xs
take-within zero xs ys h = refl
take-within (suc n) [] ys h = ground (arith, h)
take-within (suc n) (x ∷ xs) ys h = ap (◌∷◌ x) (take-within n xs ys (omega (arith, h)))

drop-within : (n : ℕ) (xs ys : Bytes) → n ≤ length xs → drop n (xs ++ ys) ≡ drop n xs ++ ys
drop-within zero xs ys h = refl
drop-within (suc n) [] ys h = ground (arith, h)
drop-within (suc n) (x ∷ xs) ys h = drop-within n xs ys (omega (arith, h))

-- Less than the whole list leaves something.
pub drop-nonempty : (n : ℕ) (xs : Bytes) → n < length xs → is_empty (drop n xs) ≡ false
drop-nonempty zero [] h = ground (arith, h)
drop-nonempty zero (x ∷ xs) h = refl
drop-nonempty (suc n) [] h = ground (arith, h)
drop-nonempty (suc n) (x ∷ xs) h = drop-nonempty n xs (omega (arith, h))

received-some :
    (c s : Bytes) (r : Option Bytes × Incoming) → r.0 ≡ some s → received c r ≡ (some (c ++ s), r.1)
unfolding received
received-some c s (none, cs) e = ground (arith, e)
received-some c s (some x, cs) e = ground (arith, e)

received-Delivers :
    (n : ℕ) (c s : Bytes) (r : Option Bytes × Incoming)
    → length c ≤ n
    → Delivers (n - length c) s r
    → Delivers n (c ++ s) (received c r)
received-Delivers n c s r h d = rw (received-some c (take (n - length c) s) r d.got) (record {
  got = ap some (sym (take-past n c s h));
  left = d.left ∙ sym (drop-past n c s h);
  live = d.live;
})

nonzero : (n : ℕ) → nat_eq (suc n) 0 ≡ false
nonzero n = ground arith

-- `recv_all` gets its bytes from every live stream that has as many.
pub recv_all-Delivers :
    (n : ℕ) (cs : Incoming)
    → IsLive cs
    → n ≤ length (stream cs)
    → Delivers n (stream cs) (recv_all n cs)
unfolding recv_all
recv_all-Delivers zero [] l h = record { got = refl; left = refl; live = tt }
recv_all-Delivers (suc n) [] l h = ground (arith, h)
recv_all-Delivers zero (c ∷ cs) l h = record { got = refl; left = refl; live = l }
recv_all-Delivers (suc n) (c ∷ cs) l h =
    rw (nonzero n, l.0)
      (if_elim (λ r. Delivers (suc n) (c ++ stream cs) r) (leb (length c) (suc n)) _ _
        (λ fits.
          received-Delivers (suc n) c (stream cs) (recv_all (suc n - length c) cs)
            (ground (arith, fits))
            (recv_all-Delivers (suc n - length c) cs l.1
              (ground (arith, h, length-append c (stream cs)))))
        (λ over. record {
          got = ap some (sym (take-within (suc n) c (stream cs) (ground (arith, over))));
          left = sym (drop-within (suc n) c (stream cs) (ground (arith, over)));
          live = (drop-nonempty (suc n) c (ground (arith, over)), l.1);
        }))

splits : (k : ℕ) (s : Bytes) → take k s ++ drop k s ≡ s
splits zero s = refl
splits (suc k) [] = refl
splits (suc k) (c ∷ s) = ap (◌∷◌ c) (splits k s)

-- A write that succeeded put out its bytes, all of them and in order.
pub send_all-wire :
    (ks : List ℕ) (buf : Bytes) → (send_all ks buf).ok ≡ true → (send_all ks buf).wire ≡ buf
unfolding send_all
send_all-wire [] [] h = refl
send_all-wire [] (c ∷ buf) h = ground (arith, h)
send_all-wire (k ∷ ks) [] h = refl
send_all-wire (k ∷ ks) (c ∷ buf) h =
    ground (arith, h, send_all-wire ks (drop k (c ∷ buf)), splits k (c ∷ buf))
