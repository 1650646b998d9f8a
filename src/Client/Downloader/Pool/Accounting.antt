-- ===== src/Client/Downloader/Pool/Accounting.antt =====
-- No piece is lost between the workers of src/client/downloader.cpp: each is completed or failed,
-- or in the queue, or in the hands of a worker.
use peer_to_peer_file_sharin.Prelude.{
  ℕ, zero, suc, ◌+◌, ◌<◌, ◌≡◌, ◌≢◌, refl, ap, ◌∙◌, Bool, true, false, ◌&&◌, ◌||◌, List, [], ◌∷◌,
  Option, none, some, if◌then◌else◌, ltb, nat_eq, length, length-set, set, if_elim, get_elem?,
  arith,
}
use peer_to_peer_file_sharin.Common.Hash.{Evp}
use peer_to_peer_file_sharin.Client.Downloader.Reply.{Seeder}
use peer_to_peer_file_sharin.Client.Downloader.Fetch.{
  Turn, Outcome, skipped, refused, stored, visit,
}
use peer_to_peer_file_sharin.Client.Downloader.Pool.Statuses.{
  Place, own, table, statuses, commits, committed, advance-statuses,
}
use peer_to_peer_file_sharin.Client.Downloader.Pool.{
  Status, downloading, completed, failed, code, Position, idle, finished, trying, listing, writing,
  saving, counting, Worker, Pool, Plan, save_state, take_piece, end_pass, after_visit, after_saving,
  advance, turn, turns, max_retries,
}

-- Completed or failed.
abbrev pub settled : Option ℕ → Bool
settled none = false
settled (some st) = nat_eq st 2 || nat_eq st 3

abbrev pub queued : ℕ → List ℕ → Bool
queued i [] = false
queued i (j ∷ js) = nat_eq j i || queued i js

abbrev begun : Status → Bool
begun downloading = true
begun completed = false
begun failed = false

-- A worker holds a piece until it has written that the piece is completed or failed.
abbrev pub working : Place → ℕ → Position → Bool
working v i idle = false
working v i finished = false
working v i (trying j attempt rest) = nat_eq j i
working v i (listing j st) = nat_eq j i
working own i (writing j st) = nat_eq j i
working table i (writing j st) = begun st && nat_eq j i
working v i (saving j st) = begun st && nat_eq j i
working v i (counting j) = false

abbrev pub in_progress : Place → ℕ → List Worker → Bool
in_progress v i [] = false
in_progress v i (w ∷ ws) = working v i w.doing || in_progress v i ws

abbrev pub accounted : ℕ → Bool → List ℕ → List ℕ → Bool
accounted i held sts pending = settled (get_elem? sts i) || queued i pending || held

settled-set :
    (xs : List ℕ) (i j v : ℕ)
    → settled (get_elem? (set xs i v) j)
      ≡ (if nat_eq i j && ltb j (length xs) then settled (some v) else settled (get_elem? xs j))
settled-set [] i j v = ground arith
settled-set (x ∷ xs) zero zero v = ground arith
settled-set (x ∷ xs) zero (suc j) v = ground arith
settled-set (x ∷ xs) (suc i) zero v = ground arith
settled-set (x ∷ xs) (suc i) (suc j) v = ground (arith, settled-set xs i j v)

save_state-pending : (saves : Bool) (p : Pool) → (save_state saves p).pending ≡ p.pending
unfolding save_state
save_state-pending true p = refl
save_state-pending false p = refl

pub after_visit-pending :
    (i attempt : ℕ) (rest : List Seeder) (o : Outcome) (p : Pool)
    → (after_visit i attempt rest o p).1.pending ≡ p.pending
unfolding after_visit
after_visit-pending i attempt rest skipped p = refl
after_visit-pending i attempt rest (refused output) p = refl
after_visit-pending i attempt rest (stored output) p = refl

-- Only an idle worker changes the queue.
pub advance-pending :
    (evp : Evp) (plan : Plan) (order : List Seeder) (d : Position) (t : Turn) (p : Pool)
    → d ≢ idle
    → (advance evp plan order d t p).1.pending ≡ p.pending
unfolding advance
advance-pending evp plan order idle t p h = absurd (h refl)
advance-pending evp plan order finished t p h = refl
advance-pending evp plan order (trying i attempt []) t p h = refl
advance-pending evp plan order (trying i attempt (peer ∷ rest)) t p h =
    after_visit-pending i attempt rest (visit evp plan.fname plan.piece_hashes i peer t p.output) p
advance-pending evp plan order (listing i st) t p h = refl
advance-pending evp plan order (writing i st) t p h = refl
advance-pending evp plan order (saving i st) t p h = save_state-pending t.saves p
advance-pending evp plan order (counting i) t p h = refl

same-accounted :
    (i : ℕ) (held : Bool) (xs ys is js : List ℕ)
    → ys ≡ xs
    → js ≡ is
    → accounted i held xs is ≡ true
    → accounted i held ys js ≡ true
same-accounted i held xs ys is js e f h = rw (e, f) h

-- A piece that its holder gives a status to stays accounted for.
begin-accounted :
    (i j : ℕ) (st : Status) (xs is : List ℕ)
    → i < length xs
    → accounted i (nat_eq j i) xs is ≡ true
    → accounted i (begun st && nat_eq j i) (set xs j (code st)) is ≡ true
begin-accounted i j downloading xs is l h = rw (settled-set xs j i 1) (ground (arith, l, h))
begin-accounted i j completed xs is l h = rw (settled-set xs j i 2) (ground (arith, l, h))
begin-accounted i j failed xs is l h = rw (settled-set xs j i 3) (ground (arith, l, h))

working-end_pass :
    (v : Place) (i j attempt : ℕ) (order : List Seeder)
    → working v i (end_pass j attempt order) ≡ nat_eq j i
unfolding end_pass
working-end_pass v i j attempt order =
    if_elim (λ d. working v i d ≡ nat_eq j i) (ltb (attempt + 1) max_retries) _ _ (λ _. refl)
      (λ _. refl)

working-after_visit :
    (v : Place) (i j attempt : ℕ) (rest : List Seeder) (o : Outcome) (p : Pool)
    → working v i (after_visit j attempt rest o p).0 ≡ nat_eq j i
unfolding after_visit
working-after_visit v i j attempt rest skipped p = refl
working-after_visit v i j attempt rest (refused output) p = refl
working-after_visit v i j attempt rest (stored output) p = refl

working-after_saving :
    (v : Place) (order : List Seeder) (i j : ℕ) (st : Status)
    → working v i (after_saving order j st) ≡ (begun st && nat_eq j i)
unfolding after_saving
working-after_saving v order i j downloading = refl
working-after_saving v order i j completed = refl
working-after_saving v order i j failed = refl

take_piece-accounted :
    (v : Place) (i : ℕ) (is xs : List ℕ) (p : Pool)
    → p.pending ≡ is
    → accounted i false xs is ≡ true
    → accounted i (working v i (take_piece is p).0) xs (take_piece is p).1.pending ≡ true
unfolding take_piece
take_piece-accounted v i [] xs p e h = rw e h
take_piece-accounted v i (j ∷ rest) xs p e h = ground (arith, h)

committed-length : (o : Option (ℕ × Status)) (xs : List ℕ) → length (committed o xs) ≡ length xs
committed-length none xs = refl
committed-length (some (i, st)) xs = length-set xs i (code st)

module _ (evp : Evp) (plan : Plan) (v : Place) (i : ℕ) where
  -- What a turn of a worker does to the piece `i`: it stays accounted for.
  abbrev Kept : Position → Pool → Position × Pool → Type 0
  Kept d p r =
      i < length (statuses plan.fname v p)
      → accounted i (working v i d) (statuses plan.fname v p) p.pending ≡ true
      → accounted i (working v i r.0) (statuses plan.fname v r.1) r.1.pending ≡ true

  -- A step that leaves the queue, and changes the statuses as it should.
  stepped :
      (order : List Seeder) (d : Position) (held : Bool) (t : Turn) (p : Pool)
      → d ≢ idle
      → working v i (advance evp plan order d t p).0 ≡ held
      → (i < length (statuses plan.fname v p)
          → accounted i (working v i d) (statuses plan.fname v p) p.pending ≡ true
          → accounted i held (committed (commits v d) (statuses plan.fname v p)) p.pending ≡ true)
      → Kept d p (advance evp plan order d t p)
  stepped order d held t p ne w k l h =
      same-accounted i (working v i (advance evp plan order d t p).0)
        (committed (commits v d) (statuses plan.fname v p)) _ p.pending _
        (advance-statuses evp plan v order d t p) (advance-pending evp plan order d t p ne)
        (rw w (k l h))

module _ (evp : Evp) (plan : Plan) (i : ℕ) where
  advance-Kept :
      (v : Place) (order : List Seeder) (d : Position) (t : Turn) (p : Pool)
      → Kept evp plan v i d p (advance evp plan order d t p)
  unfolding advance
  advance-Kept v order idle t p = λ l h.
      same-accounted i (working v i (take_piece p.pending p).0) (statuses plan.fname v p) _
        (take_piece p.pending p).1.pending (take_piece p.pending p).1.pending
        (advance-statuses evp plan v order idle t p) refl
        (take_piece-accounted v i p.pending (statuses plan.fname v p) p refl h)
  advance-Kept v order finished t p =
      stepped evp plan v i order finished false t p (λ e. cc) refl (λ l h. h)
  advance-Kept v order (trying j attempt []) t p =
      stepped evp plan v i order (trying j attempt []) (nat_eq j i) t p (λ e. cc)
        (working-end_pass v i j attempt order) (λ l h. h)
  advance-Kept v order (trying j attempt (peer ∷ rest)) t p =
      stepped evp plan v i order (trying j attempt (peer ∷ rest)) (nat_eq j i) t p (λ e. cc)
        (working-after_visit v i j attempt rest
          (visit evp plan.fname plan.piece_hashes j peer t p.output) p)
        (λ l h. h)
  advance-Kept own order (listing j st) t p =
      stepped evp plan own i order (listing j st) (nat_eq j i) t p (λ e. cc) refl (λ l h. h)
  advance-Kept table order (listing j st) t p =
      stepped evp plan table i order (listing j st) (begun st && nat_eq j i) t p (λ e. cc) refl
        (begin-accounted i j st (statuses plan.fname table p) p.pending)
  advance-Kept own order (writing j st) t p =
      stepped evp plan own i order (writing j st) (begun st && nat_eq j i) t p (λ e. cc) refl
        (begin-accounted i j st (statuses plan.fname own p) p.pending)
  advance-Kept table order (writing j st) t p =
      stepped evp plan table i order (writing j st) (begun st && nat_eq j i) t p (λ e. cc) refl
        (λ l h. h)
  advance-Kept v order (saving j st) t p =
      stepped evp plan v i order (saving j st) (begun st && nat_eq j i) t p (λ e. cc)
        (working-after_saving v order i j st) (λ l h. h)
  advance-Kept v order (counting j) t p =
      stepped evp plan v i order (counting j) false t p (λ e. cc) refl (λ l h. h)

  advance-total :
      (v : Place) (order : List Seeder) (d : Position) (t : Turn) (p : Pool)
      → length (statuses plan.fname v (advance evp plan order d t p).1)
        ≡ length (statuses plan.fname v p)
  advance-total v order d t p =
      ap length (advance-statuses evp plan v order d t p)
      ∙ committed-length (commits v d) (statuses plan.fname v p)

  module _ (v : Place) where
    -- What turns do to the piece: the statuses keep their number, and it stays accounted for.
    pub record Keeps (ws : List Worker) (p : Pool) (r : List Worker × Pool) : Type 0 where
      pub total : length (statuses plan.fname v r.1) ≡ length (statuses plan.fname v p)
      pub kept :
          i < length (statuses plan.fname v p)
          → accounted i (in_progress v i ws) (statuses plan.fname v p) p.pending ≡ true
          → accounted i (in_progress v i r.0) (statuses plan.fname v r.1) r.1.pending ≡ true

    turn-Keeps :
        (n : ℕ) (t : Turn) (ws : List Worker) (p : Pool) → Keeps ws p (turn evp plan n t ws p)
    unfolding turn
    turn-Keeps n t [] p = record { total = refl; kept = λ l h. h }
    turn-Keeps zero t (w ∷ ws) p =
        let a = advance-Kept v w.order w.doing t p in
        record {
          total = advance-total v w.order w.doing t p;
          kept = λ l h. ground (arith, l, h, a);
        }
    turn-Keeps (suc n) t (w ∷ ws) p =
        let a = turn-Keeps n t ws p in
        record { total = a.total; kept = λ l h. ground (arith, l, h, a.kept) }

    pub turns-Keeps :
        (schedule : List (ℕ × Turn)) (ws : List Worker) (p : Pool)
        → Keeps ws p (turns evp plan schedule ws p)
    unfolding turns
    turns-Keeps [] ws p = record { total = refl; kept = λ l h. h }
    turns-Keeps ((n, t) ∷ schedule) ws p =
        let a = turn-Keeps n t ws p in
        let b = turns-Keeps schedule (turn evp plan n t ws p).0 (turn evp plan n t ws p).1 in
        record {
          total = b.total ∙ a.total;
          kept = λ l h. b.kept (omega (arith, l, a.total)) (a.kept l h);
        }
