-- ===== src/Tracker/Recovery/Groups.antt =====
-- The GROUP records of a snapshot (src/tracker/persistence.cpp).
use peer_to_peer_file_sharin.Prelude.{
  ◌<◌, ◌≡◌, ◌⊎◌, inl, inr, refl, ap, ◌∙◌, false, [], ◌∷◌, ◌++◌, Option, none, some, length, arith,
}
use peer_to_peer_file_sharin.Bytes.{Bytes, lit, ◌==◌, is_space}
use peer_to_peer_file_sharin.Container.Map.{Map, assign, find}
use peer_to_peer_file_sharin.Container.NameSet.{member}
use peer_to_peer_file_sharin.Container.Distinct.{
  Distinct, keys, assign-absent, find-absent, insert_all-nil,
}
use peer_to_peer_file_sharin.Common.Message.{IsWord, ll_limit}
use peer_to_peer_file_sharin.Tracker.State.{TrackerState, Group}
use peer_to_peer_file_sharin.Tracker.Persistence.{
  record_line, group_records, group_words, master_word, master_of, counted, Progress, apply_record,
  apply_group, apply_group_parts, apply_group_lists, union_group,
}
use peer_to_peer_file_sharin.Tracker.Recovery.Lines.{
  Words, take_list-counted, take_list-counted_end, counted-Words, Words-append,
}
use peer_to_peer_file_sharin.Tracker.Recovery.Wire.{Reads, RecordKind}

-- A group that a snapshot carries: under its own id, of words without repetitions, and not owned
-- by a user called "-", which is how the format says that nobody owns it.
pub record GroupIsGood (gid : Bytes) (g : Group) : Type 0 where
  pub key : IsWord gid
  pub named : g.gid ≡ gid
  pub master : (g.groupmaster ≡ []) ⊎ (IsWord g.groupmaster × ((g.groupmaster == lit "-") ≡ false))
  pub members : Words g.participants
  pub members-Distinct : Distinct g.participants
  pub members-few : length g.participants < ll_limit
  pub applied : Words g.applicants
  pub applied-Distinct : Distinct g.applicants
  pub applied-few : length g.applicants < ll_limit

master_word-IsWord :
    (m : Bytes) → (m ≡ []) ⊎ (IsWord m × ((m == lit "-") ≡ false)) → IsWord (master_word m)
unfolding master_word is_space
master_word-IsWord m (inl e) = rw e (record { nonempty = refl; solid = (refl, tt) })
master_word-IsWord m (inr (w, _)) = rw w.nonempty w

master_of-master_word :
    (m : Bytes) → (m ≡ []) ⊎ (IsWord m × ((m == lit "-") ≡ false)) → master_of (master_word m) ≡ m
unfolding master_word ◌==◌
master_of-master_word m (inl e) = rw e
master_of-master_word m (inr (w, other)) = ground (arith, w.nonempty)

pub group_words-Words : (gid : Bytes) (g : Group) → GroupIsGood gid g → Words (group_words gid g)
unfolding group_words
group_words-Words gid g h = (
  h.key,
  (
    master_word-IsWord g.groupmaster h.master,
    Words-append (counted g.participants) (counted g.applicants)
        (counted-Words g.participants h.members) (counted-Words g.applicants h.applied),
  ),
)

group_restored :
    (gid : Bytes) (g : Group)
    → GroupIsGood gid g
    → (union_group none gid (master_word g.groupmaster) g.participants g.applicants).0 ≡ g
unfolding union_group
group_restored gid g h = ground (
  arith,
  h.named,
  master_of-master_word g.groupmaster h.master,
  insert_all-nil g.participants h.members-Distinct,
  insert_all-nil g.applicants h.applied-Distinct,
)

apply_group-group_words :
    (gid : Bytes) (g : Group) (p : Progress)
    → GroupIsGood gid g
    → apply_group (group_words gid g) p
      ≡ apply_group_lists gid (master_word g.groupmaster) g.participants (some (g.applicants, [])) p
unfolding apply_group group_words
apply_group-group_words gid g p h = rw (
  take_list-counted g.participants (counted g.applicants) h.members-few,
  apply_group_parts,
  take_list-counted_end g.applicants h.applied-few,
)

pub group_step :
    (s : TrackerState) (gid : Bytes) (g : Group) (done : Map Group) (p : Progress)
    → p.state ≡ record s { groups = done }
    → member gid (keys done) ≡ false
    → GroupIsGood gid g
    → Reads (lit "GROUP" ∷ group_words gid g) p (record s { groups = done ++ (gid, g) ∷ [] })
unfolding apply_record lit ◌==◌
group_step s gid g done p e new h = record {
  after = _;
  read = apply_group-group_words gid g p h;
  leaves =
      ap
        (λ (t : TrackerState). record t {
          groups = assign gid (merged (find gid t.groups)) t.groups;
        })
        e
      ∙ ap (λ (m : Map Group). record s { groups = m })
          (ap (λ (o : Option Group). assign gid (merged o) done) (find-absent gid done new)
            ∙ ap (λ (q : Group). assign gid q done) (group_restored gid g h)
            ∙ assign-absent gid g done new);
}
  where
    merged : Option Group → Group
    merged o = (union_group o gid (master_word g.groupmaster) g.participants g.applicants).0

pub group_verb-IsWord : IsWord (lit "GROUP")
unfolding lit is_space
group_verb-IsWord = record { nonempty = refl; solid = (refl, (refl, (refl, (refl, (refl, tt))))) }

pub group_records-nil : group_records [] ≡ []
unfolding group_records
group_records-nil = refl

pub group_records-cons :
    (k : Bytes) (v : Group) (m : Map Group)
    → group_records ((k, v) ∷ m) ≡ record_line (lit "GROUP") (group_words k v) ++ group_records m
unfolding group_records
group_records-cons k v m = refl

unfoldable pub group_kind : TrackerState → RecordKind Group Group
group_kind s = record {
  verb = lit "GROUP";
  words = group_words;
  text = group_records;
  restore = λ g. g;
  at = λ m. record s { groups = m };
  IsGood = GroupIsGood;
  verb-IsWord = group_verb-IsWord;
  words-Words = group_words-Words;
  text-nil = group_records-nil;
  text-cons = λ k v m g. group_records-cons k v m;
  step = group_step s;
}
