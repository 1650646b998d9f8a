-- ===== src/Client/Downloader/Reply/Rounds.antt =====
-- The loop over words in src/client/downloader.cpp, on the header of a description of a file.
use peer_to_peer_file_sharin.Prelude.{
  ℕ, suc, ◌<◌, ◌≡◌, refl, ◌∙◌, true, false, ◌∷◌, ◌++◌, some, pos,
}
use peer_to_peer_file_sharin.Bytes.{Bytes, lit, ◌==◌, is_space}
use peer_to_peer_file_sharin.Bytes.Decimal.{to_string}
use peer_to_peer_file_sharin.Common.Message.{IsWord, ll_limit}
use peer_to_peer_file_sharin.Client.Downloader.Reply.{
  Header, Stream, get_word, read_field, store_hash, read_header,
}
use peer_to_peer_file_sharin.Client.Downloader.Reply.Streams.{
  get_word-space, get_word-before, get_number-to_string, SpacedText,
}

-- A word that the loop passes over.
pub record IsOther (w : Bytes) : Type 0 where
  pub not_size : (w == lit "SIZE") ≡ false
  pub not_hash : (w == lit "HASH") ≡ false
  pub not_pieces : (w == lit "PIECES") ≡ false
  pub not_hashes : (w == lit "PIECE_HASHES") ≡ false

pub read_header-word :
    (fuel : ℕ) (h : Header) (s : Stream) (word rest : Bytes)
    → get_word s ≡ some (word, rest)
    → (word == lit "PIECE_HASHES") ≡ false
    → read_header (suc fuel) h s
      ≡ read_header fuel (read_field word rest h).0 (read_field word rest h).1
unfolding read_header
read_header-word fuel h s word rest e n = rw (e, read_header, n) refl

pub read_header-last :
    (fuel : ℕ) (h : Header) (s : Stream) (rest : Bytes)
    → get_word s ≡ some (lit "PIECE_HASHES", rest)
    → read_header (suc fuel) h s ≡ (h, some rest)
unfolding read_header lit ◌==◌
read_header-last fuel h s rest e = rw (e, read_header) refl

pub space_is_space : is_space b' ' ≡ true
unfolding is_space
space_is_space = refl

-- A space, a word and what follows.
pub get_word-next :
    (w t : Bytes) → IsWord w → SpacedText t → get_word (some (b' ' ∷ (w ++ t))) ≡ some (w, t)
get_word-next w t h e = get_word-space b' ' (w ++ t) space_is_space ∙ get_word-before w t h e

-- One round at a word that is passed over.
pub other-round :
    (fuel : ℕ) (h : Header) (w t : Bytes)
    → IsWord w
    → IsOther w
    → SpacedText t
    → read_header (suc fuel) h (some (b' ' ∷ (w ++ t))) ≡ read_header fuel h (some t)
unfolding read_field
other-round fuel h w t word o e =
    read_header-word fuel h (some (b' ' ∷ (w ++ t))) w t (get_word-next w t word e) o.not_hashes
    ∙ rw (o.not_size, o.not_hash, o.not_pieces) refl

module _ (fuel : ℕ) (h : Header) (c : ℕ) (t : Bytes) (e : is_space c ≡ true) where
  pub size-round :
      (n : ℕ)
      → n < ll_limit
      → read_header (suc fuel) h (some (b' ' ∷ (lit "SIZE" ++ b' ' ∷ (to_string n ++ c ∷ t))))
        ≡ read_header fuel (record h { size = pos n }) (some (c ∷ t))
  unfolding read_field lit ◌==◌ is_space
  size-round n l =
      read_header-word fuel h _ (lit "SIZE") (b' ' ∷ (to_string n ++ c ∷ t))
        (get_word-next (lit "SIZE") _
          (record { nonempty = refl; solid = (refl, (refl, (refl, (refl, tt)))) }) refl)
        refl
      ∙ rw (get_number-to_string n c t l e) refl

  pub pieces-round :
      (n : ℕ)
      → n < ll_limit
      → read_header (suc fuel) h (some (b' ' ∷ (lit "PIECES" ++ b' ' ∷ (to_string n ++ c ∷ t))))
        ≡ read_header fuel (record h { num_pieces = pos n }) (some (c ∷ t))
  unfolding read_field lit ◌==◌ is_space
  pieces-round n l =
      read_header-word fuel h _ (lit "PIECES") (b' ' ∷ (to_string n ++ c ∷ t))
        (get_word-next (lit "PIECES") _
          (record { nonempty = refl; solid = (refl, (refl, (refl, (refl, (refl, (refl, tt)))))) })
          refl)
        refl
      ∙ rw (get_number-to_string n c t l e) refl

  pub hash-round :
      (w : Bytes)
      → IsWord w
      → read_header (suc fuel) h (some (b' ' ∷ (lit "HASH" ++ b' ' ∷ (w ++ c ∷ t))))
        ≡ read_header fuel (record h { fullhash = w }) (some (c ∷ t))
  unfolding read_field store_hash lit ◌==◌ is_space
  hash-round w word =
      read_header-word fuel h _ (lit "HASH") (b' ' ∷ (w ++ c ∷ t))
        (get_word-next (lit "HASH") _
          (record { nonempty = refl; solid = (refl, (refl, (refl, (refl, tt)))) }) refl)
        refl
      ∙ rw (get_word-next w (c ∷ t) word e, store_hash) refl
