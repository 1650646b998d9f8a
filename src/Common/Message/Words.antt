-- ===== src/Common/Message/Words.antt =====
-- `split_args` of src/common/message.cpp: `iss >> tok` skips white space and reads up to the next.
use peer_to_peer_file_sharin.Prelude.{
  ℕ, ◌≡◌, refl, true, false, List, [], ◌∷◌, ◌++◌, if◌then◌else◌, ap, All, append-nil, sym, ◌≡⟨◌⟩◌,
  ◌∎,
}
use peer_to_peer_file_sharin.Bytes.{Bytes, is_space, is_empty}

-- A word that is complete; a run of white space completes none.
unfoldable pub emit : Bytes → List Bytes → List Bytes
emit [] ws = ws
emit (c ∷ w) ws = (c ∷ w) ∷ ws

-- The bytes up to the first white space, and the words behind it.
unfoldable pub split_head : Bytes → Bytes × List Bytes
split_head [] = ([], [])
split_head (c ∷ s) =
    let r = split_head s in if is_space c then ([], emit r.0 r.1) else (c ∷ r.0, r.1)

unfoldable pub split_args : Bytes → List Bytes
unfolding split_head emit is_space
split_args s = let r = split_head s in emit r.0 r.1

-- A word: not empty, and without white space.
pub record IsWord (w : Bytes) : Type 0 where
  pub nonempty : is_empty w ≡ false
  pub solid : All (λ c. is_space c ≡ false) w

split_head-solid :
    (w s : Bytes)
    → All (λ c. is_space c ≡ false) w
    → split_head (w ++ s) ≡ (w ++ (split_head s).0, (split_head s).1)
unfolding split_head
split_head-solid [] s h = refl
split_head-solid (c ∷ w) s h = rw (h.0, split_head-solid w s h.1)

split_head-space : (s : Bytes) → split_head (32 ∷ s) ≡ ([], split_args s)
unfolding split_args
split_head-space s = refl

split_args_lem : (s : Bytes) → split_args s ≡ emit (split_head s).0 (split_head s).1
unfolding split_args
split_args_lem s = refl

emit-nonempty : (w : Bytes) (ws : List Bytes) → is_empty w ≡ false → emit w ws ≡ w ∷ ws
unfolding emit
emit-nonempty [] ws h = cc
emit-nonempty (c ∷ w) ws h = refl

-- A word, a space and a rest split into the word and the words of the rest.
pub split_args-cons : (w s : Bytes) → IsWord w → split_args (w ++ 32 ∷ s) ≡ w ∷ split_args s
split_args-cons w s h =
    rw (split_args_lem, split_head-solid w (32 ∷ s) h.solid, split_head-space, append-nil)
      (emit-nonempty w (split_args s) h.nonempty)

split_head-nil : split_head [] ≡ ([], [])
unfolding split_head
split_head-nil = refl

-- One word alone.
pub split_args-single : (w : Bytes) → IsWord w → split_args w ≡ w ∷ []
split_args-single w h =
    split_args w
    ≡⟨ ap split_args (sym (append-nil w)) ⟩ split_args (w ++ [])
    ≡⟨ rw (split_args_lem, split_head-solid w [] h.solid, split_head-nil, append-nil) refl ⟩
      emit w []
    ≡⟨ emit-nonempty w [] h.nonempty ⟩ w ∷ [] ∎

split_head-any : (c : ℕ) (s : Bytes) → is_space c ≡ true → split_head (c ∷ s) ≡ ([], split_args s)
unfolding split_args split_head
split_head-any c s e = rw e refl

-- A word, any white space and a rest split in the same way.
pub split_args-word :
    (w : Bytes) (c : ℕ) (s : Bytes)
    → IsWord w
    → is_space c ≡ true
    → split_args (w ++ c ∷ s) ≡ w ∷ split_args s
split_args-word w c s h e =
    rw (split_args_lem, split_head-solid w (c ∷ s) h.solid, split_head-any c s e, append-nil)
      (emit-nonempty w (split_args s) h.nonempty)
