-- ===== src/Tracker/Sharing/FileKey.antt =====
-- `file_key` and `valid_filename` of src/tracker/tracker_state.cpp: the last '/' of a key separates
-- the group from the file.
use peer_to_peer_file_sharin.Prelude.{◌≡◌, refl, ap, ap₂, true, false, [], ◌∷◌, ◌++◌, arith}
use peer_to_peer_file_sharin.Bytes.{Bytes, has_byte, has_byte-append}
use peer_to_peer_file_sharin.Tracker.State.{file_key, valid_filename}

has_byte-middle : (s t : Bytes) → has_byte b'/' (s ++ b'/' ∷ t) ≡ true
unfolding has_byte
has_byte-middle s t = ground (arith, has_byte-append b'/' s (b'/' ∷ t))

split_unique :
    (a b f g : Bytes)
    → has_byte b'/' f ≡ false
    → has_byte b'/' g ≡ false
    → a ++ b'/' ∷ f ≡ b ++ b'/' ∷ g
    → (a ≡ b) × (f ≡ g)
split_unique [] [] f g hf hg e = (refl, cc)
split_unique [] (y ∷ b) f g hf hg e =
    let e' : f ≡ b ++ b'/' ∷ g = cc in absurd (cc (ap (has_byte b'/') e', has_byte-middle b g))
split_unique (x ∷ a) [] f g hf hg e =
    let e' : g ≡ a ++ b'/' ∷ f = cc in absurd (cc (ap (has_byte b'/') e', has_byte-middle a f))
split_unique (x ∷ a) (y ∷ b) f g hf hg e =
    let r = split_unique a b f g hf hg (cc) in let h : x ≡ y = cc in (ap₂ ◌∷◌ h r.0, r.1)

valid_filename-no_slash : (f : Bytes) → valid_filename f ≡ true → has_byte b'/' f ≡ false
unfolding valid_filename
valid_filename-no_slash f h = ground arith

-- Files with valid names share a key only if group and name are the same.
pub file_key-injective :
    (gid gid' fname fname' : Bytes)
    → valid_filename fname ≡ true
    → valid_filename fname' ≡ true
    → file_key gid fname ≡ file_key gid' fname'
    → (gid ≡ gid') × (fname ≡ fname')
unfolding file_key
file_key-injective gid gid' fname fname' h h' e =
    split_unique gid gid' fname fname' (valid_filename-no_slash fname h)
      (valid_filename-no_slash fname' h') e
