-- ===== src/Client/Downloader/Pool/Integrity.antt =====
-- What any turns of the workers of src/client/downloader.cpp leave in the output file: the pieces
-- that are marked as completed are the file's.
use peer_to_peer_file_sharin.Prelude.{
  ℕ, zero, suc, ◌+◌, ◌≡◌, ◌⊎◌, refl, ap, sym, ◌∙◌, Bool, true, false, List, [], ◌∷◌, some, ltb,
  length, set, get_elem?, arith, All, if_elim, inl, inr,
}
use mathlib.Core.Option.{some-injective}
use peer_to_peer_file_sharin.Bytes.{Bytes}
use peer_to_peer_file_sharin.Common.Hash.{Evp}
use peer_to_peer_file_sharin.Client.Downloader.Reply.{Seeder}
use peer_to_peer_file_sharin.Client.Downloader.Fetch.{
  Turn, Outcome, skipped, refused, stored, visit,
}
use peer_to_peer_file_sharin.Client.Downloader.Pool.{
  Status, downloading, completed, failed, code, Position, idle, finished, trying, listing, writing,
  saving, counting, Worker, Pool, Plan, save_state, take_piece, end_pass, after_visit, after_saving,
  max_retries, advance, turn, turns,
}
use peer_to_peer_file_sharin.Client.Downloader.Pool.Statuses.{
  Place, own, table, statuses, commits, committed, advance-statuses,
}
use peer_to_peer_file_sharin.Client.Downloader.Pool.Visits.{
  Stored, Improves, Improves-Stored, Improves-Right, same-Improves, Fair, NoCollision, hashes,
  visit-Fair,
}
use peer_to_peer_file_sharin.Client.Downloader.Pool.Writes.{Right}

-- An element of a list after a write is the one that was written or was there.
set_cases :
    (xs : List ℕ) (i j v x : ℕ)
    → get_elem? (set xs i v) j ≡ some x
    → ((i ≡ j) × (v ≡ x)) ⊎ (get_elem? xs j ≡ some x)
set_cases [] i j v x e = inr e
set_cases (y ∷ ys) zero zero v x e = inl (refl, some-injective v x e)
set_cases (y ∷ ys) zero (suc j) v x e = inr e
set_cases (y ∷ ys) (suc i) zero v x e = inr e
set_cases (y ∷ ys) (suc i) (suc j) v x e = elim (set_cases ys i j v x e) [
  | inl same ↦ inl (ap suc same.0, same.1)
  | inr old ↦ inr old
]

module _ (file : Bytes) where
  abbrev HasBytes : ℕ → Status → Bytes → Type 0
  HasBytes i completed output = Right file output i
  HasBytes i _ output = Unit

  Stored-listing :
      (i : ℕ) (st : Status) (output : Bytes)
      → Stored file output (listing i st)
      → HasBytes i st output
  Stored-listing i downloading output s = tt
  Stored-listing i completed output s = s
  Stored-listing i failed output s = tt

  Stored-writing :
      (i : ℕ) (st : Status) (output : Bytes)
      → Stored file output (writing i st)
      → HasBytes i st output
  Stored-writing i downloading output s = tt
  Stored-writing i completed output s = s
  Stored-writing i failed output s = tt

  by_status :
      (i : ℕ) (st : Status) (output : Bytes) (xs : List ℕ) (j : ℕ)
      → HasBytes i st output
      → get_elem? (set xs i (code st)) j ≡ some 2
      → (get_elem? xs j ≡ some 2) ⊎ Right file output j
  by_status i downloading output xs j s e = elim (set_cases xs i j 1 2 e) [
    | inl both ↦ absurd (omega (arith, both.1))
    | inr old ↦ inl old
  ]
  by_status i completed output xs j s e = elim (set_cases xs i j 2 2 e) [
    | inl both ↦ inr (rw (← both.0) s)
    | inr old ↦ inl old
  ]
  by_status i failed output xs j s e = elim (set_cases xs i j 3 2 e) [
    | inl both ↦ absurd (omega (arith, both.1))
    | inr old ↦ inl old
  ]

  -- A piece is marked as completed only by a worker that has its bytes in place.
  committed_cases :
      (v : Place) (d : Position) (output : Bytes) (xs : List ℕ) (j : ℕ)
      → Stored file output d
      → get_elem? (committed (commits v d) xs) j ≡ some 2
      → (get_elem? xs j ≡ some 2) ⊎ Right file output j
  committed_cases v idle output xs j s e = inl e
  committed_cases v finished output xs j s e = inl e
  committed_cases v (trying i a ps) output xs j s e = inl e
  committed_cases own (listing i st) output xs j s e = inl e
  committed_cases table (listing i st) output xs j s e =
      by_status i st output xs j (Stored-listing i st output s) e
  committed_cases own (writing i st) output xs j s e =
      by_status i st output xs j (Stored-writing i st output s) e
  committed_cases table (writing i st) output xs j s e = inl e
  committed_cases v (saving i st) output xs j s e = inl e
  committed_cases v (counting i) output xs j s e = inl e

  module _ (evp : Evp) (fname : Bytes) where
    abbrev plan : Plan
    plan = record { fname = fname; piece_hashes = hashes file evp }

    -- What a turn may do to the pool: improve the output file, and mark a piece as completed only if
    -- its bytes are in place.
    record Advances (p q : Pool) : Type 0 where
      improves : Improves file p.output q.output
      completes :
          (v : Place) (i : ℕ)
          → get_elem? (statuses fname v q) i ≡ some 2
          → (get_elem? (statuses fname v p) i ≡ some 2) ⊎ Right file q.output i

    -- A turn of a worker: what it does to the pool, and that what it has stored is in place.
    abbrev Turned : Pool → Position × Pool → Type 0
    Turned p r = Advances p r.1 × Stored file r.1.output r.0

    after_visit-Stored :
        (i attempt : ℕ) (rest : List Seeder) (o : Outcome) (p : Pool)
        → length p.output ≡ length file
        → Fair file i p.output o
        → Improves file p.output (after_visit i attempt rest o p).1.output
          × Stored file (after_visit i attempt rest o p).1.output (after_visit i attempt rest o p).0
    unfolding after_visit
    after_visit-Stored i attempt rest skipped p h f = (same-Improves file p.output h, tt)
    after_visit-Stored i attempt rest (refused output) p h f = (f, tt)
    after_visit-Stored i attempt rest (stored output) p h f = f

    end_pass-Stored :
        (i attempt : ℕ) (order : List Seeder) (output : Bytes)
        → Stored file output (end_pass i attempt order)
    unfolding end_pass
    end_pass-Stored i attempt order output =
        if_elim (Stored file output) (ltb (attempt + 1) max_retries) _ _ (λ _. tt) (λ _. tt)

    take_piece-Stored :
        (is : List ℕ) (p : Pool)
        → ((take_piece is p).1.output ≡ p.output)
          × Stored file (take_piece is p).1.output (take_piece is p).0
    unfolding take_piece
    take_piece-Stored [] p = (refl, tt)
    take_piece-Stored (i ∷ rest) p = (refl, tt)

    after_saving-Stored :
        (order : List Seeder) (i : ℕ) (st : Status) (output : Bytes)
        → Stored file output (after_saving order i st)
    unfolding after_saving
    after_saving-Stored order i downloading output = tt
    after_saving-Stored order i completed output = tt
    after_saving-Stored order i failed output = tt

    save_state-output : (saves : Bool) (p : Pool) → (save_state saves p).output ≡ p.output
    unfolding save_state
    save_state-output true p = refl
    save_state-output false p = refl

    -- What a turn does to the output file.
    advance-output :
        (order : List Seeder) (d : Position) (t : Turn) (p : Pool)
        → NoCollision file evp t
        → length p.output ≡ length file
        → Stored file p.output d
        → Improves file p.output (advance evp plan order d t p).1.output
          × Stored file (advance evp plan order d t p).1.output (advance evp plan order d t p).0
    unfolding advance
    advance-output order idle t p u h s =
        let r = take_piece-Stored p.pending p in (rw r.0 (same-Improves file p.output h), r.1)
    advance-output order finished t p u h s = (same-Improves file p.output h, tt)
    advance-output order (trying i attempt []) t p u h s =
        (same-Improves file p.output h, end_pass-Stored i attempt order p.output)
    advance-output order (trying i attempt (peer ∷ rest)) t p u h s =
        after_visit-Stored i attempt rest (visit evp fname (hashes file evp) i peer t p.output) p h
          (visit-Fair file evp fname i peer t p.output u h)
    advance-output order (listing i downloading) t p u h s = (same-Improves file p.output h, tt)
    advance-output order (listing i completed) t p u h s = (same-Improves file p.output h, s)
    advance-output order (listing i failed) t p u h s = (same-Improves file p.output h, tt)
    advance-output order (writing i st) t p u h s = (same-Improves file p.output h, tt)
    advance-output order (saving i st) t p u h s = (
      rw (save_state-output t.saves p) (same-Improves file p.output h),
      after_saving-Stored order i st (save_state t.saves p).output,
    )
    advance-output order (counting i) t p u h s = (same-Improves file p.output h, tt)

    advance-Turned :
        (order : List Seeder) (d : Position) (t : Turn) (p : Pool)
        → NoCollision file evp t
        → length p.output ≡ length file
        → Stored file p.output d
        → Turned p (advance evp plan order d t p)
    advance-Turned order d t p u h s =
        let r = advance-output order d t p u h s in
        (
          record {
            improves = r.0;
            completes = λ v j e. later j (
                committed_cases v d p.output (statuses fname v p) j s
                  (ap (λ xs. get_elem? xs j) (sym (advance-statuses evp plan v order d t p)) ∙ e));
          },
          r.1,
        )
      where
        later :
            {A : Type 0} (j : ℕ)
            → A ⊎ Right file p.output j
            → A ⊎ Right file (advance evp plan order d t p).1.output j
        later j (inl a) = inl a
        later j (inr r) =
            inr (Improves-Right file p.output _ j (advance-output order d t p u h s).0 r)

    -- What every worker has stored is in place.
    abbrev AllStored : Bytes → List Worker → Type 0
    AllStored output = All (λ w. Stored file output w.doing)

    Improves-AllStored :
        (before after : Bytes) (ws : List Worker)
        → Improves file before after
        → AllStored before ws
        → AllStored after ws
    Improves-AllStored before after [] h s = tt
    Improves-AllStored before after (w ∷ ws) h s =
        (Improves-Stored file before after w.doing h s.0, Improves-AllStored before after ws h s.1)

    turn-Turned :
        (n : ℕ) (t : Turn) (ws : List Worker) (p : Pool)
        → NoCollision file evp t
        → length p.output ≡ length file
        → AllStored p.output ws
        → Advances p (turn evp plan n t ws p).1
          × AllStored (turn evp plan n t ws p).1.output (turn evp plan n t ws p).0
    unfolding turn
    turn-Turned n t [] p u h s =
        (record { improves = same-Improves file p.output h; completes = λ v i e. inl e }, tt)
    turn-Turned zero t (w ∷ ws) p u h s =
        let r = advance-Turned w.order w.doing t p u h s.0 in
        (r.0, (r.1, Improves-AllStored p.output _ ws r.0.improves s.1))
    turn-Turned (suc n) t (w ∷ ws) p u h s =
        let r = turn-Turned n t ws p u h s.1 in
        (r.0, (Improves-Stored file p.output _ w.doing r.0.improves s.0, r.1))

    -- The pool and the workers between two turns.
    pub record IsSound (ws : List Worker) (p : Pool) : Type 0 where
      pub sized : length p.output ≡ length file
      pub right :
          (v : Place) (i : ℕ) → get_elem? (statuses fname v p) i ≡ some 2 → Right file p.output i
      pub in_place : AllStored p.output ws

    turn-IsSound :
        (n : ℕ) (t : Turn) (ws : List Worker) (p : Pool)
        → NoCollision file evp t
        → IsSound ws p
        → IsSound (turn evp plan n t ws p).0 (turn evp plan n t ws p).1
    turn-IsSound n t ws p u h =
        let r = turn-Turned n t ws p u h.sized h.in_place in
        record {
          sized = r.0.improves.sized;
          right = λ v i e. elim (r.0.completes v i e) [
            | inl old ↦ Improves-Right file p.output _ i r.0.improves (h.right v i old)
            | inr new ↦ new
          ];
          in_place = r.1;
        }

    -- If no payload has the hash of a piece that it is not, turns of the workers in any order keep what
    -- is sound: the output file has the size of the file that was uploaded, and the bytes of each piece
    -- that is marked as completed, in the run's vector or in the table of downloads, or that a worker
    -- has stored and not yet marked, are its bytes.
    pub turns-IsSound :
        (schedule : List (ℕ × Turn)) (ws : List Worker) (p : Pool)
        → All (λ s. NoCollision file evp s.1) schedule
        → IsSound ws p
        → IsSound (turns evp plan schedule ws p).0 (turns evp plan schedule ws p).1
    unfolding turns
    turns-IsSound [] ws p u h = h
    turns-IsSound ((n, t) ∷ schedule) ws p u h =
        turns-IsSound schedule _ _ u.1 (turn-IsSound n t ws p u.0 h)
