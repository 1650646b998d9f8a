-- ===== src/Tracker/Recovery/Accounts.antt =====
-- The USER records of a snapshot (src/tracker/persistence.cpp).
use peer_to_peer_file_sharin.Prelude.{◌≡◌, refl, ap, ◌∙◌, false, List, [], ◌∷◌, ◌++◌, arith}
use peer_to_peer_file_sharin.Bytes.{Bytes, lit, ◌==◌, is_space}
use peer_to_peer_file_sharin.Container.Map.{Map, assign}
use peer_to_peer_file_sharin.Container.NameSet.{member}
use peer_to_peer_file_sharin.Container.Distinct.{keys, assign-absent}
use peer_to_peer_file_sharin.Common.Message.{IsWord}
use peer_to_peer_file_sharin.Tracker.State.{TrackerState, Peer, new_peer}
use peer_to_peer_file_sharin.Tracker.Persistence.{record_line, user_lines, Progress, apply_record}
use peer_to_peer_file_sharin.Tracker.Recovery.Wire.{Reads, RecordKind}

-- An account that a snapshot carries: with credentials, under its own name, all of them words.
pub record AccountIsGood (name : Bytes) (p : Peer) : Type 0 where
  pub key : IsWord name
  pub named : p.peername ≡ name
  pub salt : IsWord p.password.salt
  pub hash : IsWord p.password.hash

-- What is not a property of a live connection.
abbrev pub disconnected : Peer → Peer
disconnected p = record p { hostip = []; hostport = []; connected = false }

abbrev pub account_words : Bytes → Peer → List Bytes
account_words name p = name ∷ p.password.salt ∷ p.password.hash ∷ []

pub user_lines-cons :
    (name : Bytes) (p : Peer) (m : Map Peer)
    → AccountIsGood name p
    → user_lines ((name, p) ∷ m) ≡ record_line (lit "USER") (account_words name p) ++ user_lines m
unfolding user_lines
user_lines-cons name p m g = ground (arith, g.salt.nonempty, g.hash.nonempty)

pub new_peer-disconnected :
    (name : Bytes) (p : Peer)
    → p.peername ≡ name
    → new_peer name (record { salt = p.password.salt; hash = p.password.hash }) ≡ disconnected p
new_peer-disconnected name p e = ground arith

pub account_step :
    (s : TrackerState) (name : Bytes) (v : Peer) (done : Map Peer) (p : Progress)
    → p.state ≡ record s { peers = done }
    → member name (keys done) ≡ false
    → AccountIsGood name v
    → Reads
        (lit "USER" ∷ account_words name v)
        p
        (record s { peers = done ++ (name, disconnected v) ∷ [] })
unfolding apply_record lit ◌==◌
account_step s name v done p e new g = record {
  after = _;
  read = refl;
  leaves =
      ap (λ (t : TrackerState). record t { peers = assign name added t.peers }) e
      ∙ ap (λ (m : Map Peer). record s { peers = m })
          (assign-absent name added done new
            ∙ ap (λ (q : Peer). done ++ (name, q) ∷ []) (new_peer-disconnected name v g.named));
}
  where
    added : Peer
    added = new_peer name (record { salt = v.password.salt; hash = v.password.hash })

pub user_verb-IsWord : IsWord (lit "USER")
unfolding lit is_space
user_verb-IsWord = record { nonempty = refl; solid = (refl, (refl, (refl, (refl, tt)))) }

pub user_lines-nil : user_lines [] ≡ []
unfolding user_lines
user_lines-nil = refl

unfoldable pub account_kind : TrackerState → RecordKind Peer Peer
account_kind s = record {
  verb = lit "USER";
  words = account_words;
  text = user_lines;
  restore = disconnected;
  at = λ m. record s { peers = m };
  IsGood = AccountIsGood;
  verb-IsWord = user_verb-IsWord;
  words-Words = λ k v g. (g.key, (g.salt, (g.hash, tt)));
  text-nil = user_lines-nil;
  text-cons = user_lines-cons;
  step = account_step s;
}
