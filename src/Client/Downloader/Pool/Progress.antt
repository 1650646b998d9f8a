-- ===== src/Client/Downloader/Pool/Progress.antt =====
-- The workers of src/client/downloader.cpp come to an end: each turn of a worker that has not
-- returned lowers a bound on the turns that are left.
use peer_to_peer_file_sharin.Prelude.{
  ℕ, zero, suc, ◌+◌, ◌-◌, ◌*◌, ◌≤◌, ◌<◌, ◌≡◌, refl, Bool, true, false, List, [], ◌∷◌, if◌then◌else◌,
  ltb, length, All, arith, Bool-cases, inl, inr,
}
use peer_to_peer_file_sharin.Common.Hash.{Evp}
use peer_to_peer_file_sharin.Client.Downloader.Reply.{Seeder}
use peer_to_peer_file_sharin.Client.Downloader.Fetch.{
  Turn, Outcome, skipped, refused, stored, visit,
}
use peer_to_peer_file_sharin.Client.Downloader.Pool.{
  Status, downloading, completed, failed, Position, idle, finished, trying, listing, writing,
  saving, counting, Worker, Pool, Plan, take_piece, end_pass, after_visit, after_saving, advance,
  turn, max_retries,
}
use peer_to_peer_file_sharin.Client.Downloader.Pool.Accounting.{
  advance-pending, after_visit-pending,
}

-- Whether the turn is one of a worker that has not returned.
abbrev pub is_running : Position → Bool
is_running finished = false
is_running _ = true

abbrev pub runs : ℕ → List Worker → Bool
runs n [] = false
runs zero (w ∷ ws) = is_running w.doing
runs (suc n) (w ∷ ws) = runs n ws

module _ (m : ℕ) where
  -- At most so many turns for a piece that stands in the queue: five passes over `m` peers.
  abbrev pub piece_budget : ℕ
  piece_budget = 5 * (m + 1) + 8

  -- What is left when the sidecar has been written.
  abbrev pub rest_budget : Status → ℕ
  rest_budget downloading = 5 * (m + 1) + 5
  rest_budget completed = 2
  rest_budget failed = 1

  -- The turns that a worker may still take with its piece, and one to return.
  abbrev pub budget : Position → ℕ
  budget idle = 1
  budget finished = 0
  budget (trying i attempt rest) = length rest + ((4 - attempt) * (m + 1) + 6)
  budget (listing i st) = 3 + rest_budget st
  budget (writing i st) = 2 + rest_budget st
  budget (saving i st) = 1 + rest_budget st
  budget (counting i) = 2

  abbrev pub workers_budget : List Worker → ℕ
  workers_budget [] = 0
  workers_budget (w ∷ ws) = budget w.doing + workers_budget ws

  passes-step :
      (attempt : ℕ)
      → attempt < 4
      → (4 - attempt) * (m + 1) ≡ (4 - (attempt + 1)) * (m + 1) + (m + 1)
  passes-step zero h = omega arith
  passes-step (suc zero) h = omega arith
  passes-step (suc (suc zero)) h = omega arith
  passes-step (suc (suc (suc zero))) h = omega arith
  passes-step (suc (suc (suc (suc a)))) h = ground (arith, h)

  passes-le : (attempt : ℕ) → (4 - (attempt + 1)) * (m + 1) ≤ (4 - attempt) * (m + 1)
  passes-le attempt = grind arith

  end_pass-budget :
      (i attempt : ℕ) (order : List Seeder)
      → length order ≤ m
      → budget (end_pass i attempt order) < (4 - attempt) * (m + 1) + 6
  unfolding end_pass
  end_pass-budget i attempt order h = elim (Bool-cases (ltb (attempt + 1) max_retries)) [
    | inl more ↦ rw more (ground (arith, more, passes-step attempt, h))
    | inr over ↦ rw over (omega arith)
  ]

  after_visit-budget :
      (i attempt : ℕ) (rest : List Seeder) (o : Outcome) (p : Pool)
      → budget (after_visit i attempt rest o p).0 ≤ length rest + (4 - attempt) * (m + 1) + 6
  unfolding after_visit
  after_visit-budget i attempt rest skipped p = omega arith
  after_visit-budget i attempt rest (refused output) p = omega (arith, passes-le attempt)
  after_visit-budget i attempt rest (stored output) p = omega arith

  after_saving-budget :
      (order : List Seeder) (i : ℕ) (st : Status)
      → length order ≤ m
      → budget (after_saving order i st) ≤ rest_budget st
  unfolding after_saving
  after_saving-budget order i downloading h = omega (arith, h)
  after_saving-budget order i completed h = omega arith
  after_saving-budget order i failed h = omega arith

  -- What is left for a position and the queue.
  abbrev pub left : Position → List ℕ → ℕ
  left d pending = budget d + length pending * piece_budget

  taken-left : (i : ℕ) (rest : List ℕ) → left (listing i downloading) rest < left idle (i ∷ rest)
  taken-left i rest = omega arith

  take_piece-left :
      (is : List ℕ) (p : Pool)
      → is ≡ p.pending
      → left (take_piece is p).0 (take_piece is p).1.pending < left idle is
  unfolding take_piece
  take_piece-left [] p e = rw (← e) (omega arith)
  take_piece-left (i ∷ rest) p e = taken-left i rest

  module _ (evp : Evp) (plan : Plan) where
    -- A turn of a worker that has not returned uses up something; no other changes anything.
    advance-left :
        (order : List Seeder) (d : Position) (t : Turn) (p : Pool)
        → length order ≤ m
        → is_running d ≡ true
        → left (advance evp plan order d t p).0 (advance evp plan order d t p).1.pending
          < left d p.pending
    unfolding advance
    advance-left order idle t p h e = take_piece-left p.pending p refl
    advance-left order finished t p h e = cc
    advance-left order (trying i attempt []) t p h e =
        omega (arith, end_pass-budget i attempt order h)
    advance-left order (trying i attempt (peer ∷ rest)) t p h e =
        let o = visit evp plan.fname plan.piece_hashes i peer t p.output in
        rw (after_visit-pending i attempt rest o p)
          (omega (arith, after_visit-budget i attempt rest o p))
    advance-left order (listing i st) t p h e = omega arith
    advance-left order (writing i st) t p h e = omega arith
    advance-left order (saving i st) t p h e =
        rw (advance-pending evp plan order (saving i st) t p (λ c. cc))
          (omega (arith, after_saving-budget order i st h))
    advance-left order (counting i) t p h e = omega arith

    -- What is left for all the workers and the queue.
    abbrev pub all_left : List Worker → List ℕ → ℕ
    all_left ws pending = workers_budget ws + length pending * piece_budget

    abbrev pub ShortOrders : List Worker → Type 0
    ShortOrders = All (λ w. length w.order ≤ m)

    turn-left :
        (n : ℕ) (t : Turn) (ws : List Worker) (p : Pool)
        → ShortOrders ws
        → runs n ws ≡ true
        → all_left (turn evp plan n t ws p).0 (turn evp plan n t ws p).1.pending
          < all_left ws p.pending
    unfolding turn
    turn-left n t [] p h e = cc
    turn-left zero t (w ∷ ws) p h e = omega (arith, advance-left w.order w.doing t p h.0 e)
    turn-left (suc n) t (w ∷ ws) p h e = omega (arith, turn-left n t ws p h.1 e)

    turn-orders :
        (n : ℕ) (t : Turn) (ws : List Worker) (p : Pool)
        → ShortOrders ws
        → ShortOrders (turn evp plan n t ws p).0
    unfolding turn
    turn-orders n t [] p h = tt
    turn-orders zero t (w ∷ ws) p h = h
    turn-orders (suc n) t (w ∷ ws) p h = (h.0, turn-orders n t ws p h.1)

    -- How many turns of a schedule fall on a worker that has not returned.
    abbrev pub running_turns : List (ℕ × Turn) → List Worker → Pool → ℕ
    running_turns [] ws p = 0
    running_turns ((n, t) ∷ schedule) ws p =
        (if runs n ws then 1 else 0)
        + running_turns schedule (turn evp plan n t ws p).0 (turn evp plan n t ws p).1

    finished-still :
        (order : List Seeder) (d : Position) (t : Turn) (p : Pool)
        → is_running d ≡ false
        → advance evp plan order d t p ≡ (d, p)
    unfolding advance
    finished-still order finished t p e = refl
    finished-still order idle t p e = cc
    finished-still order (trying i attempt rest) t p e = cc
    finished-still order (listing i st) t p e = cc
    finished-still order (writing i st) t p e = cc
    finished-still order (saving i st) t p e = cc
    finished-still order (counting i) t p e = cc

    turn-still :
        (n : ℕ) (t : Turn) (ws : List Worker) (p : Pool)
        → runs n ws ≡ false
        → all_left (turn evp plan n t ws p).0 (turn evp plan n t ws p).1.pending
          ≡ all_left ws p.pending
    unfolding turn
    turn-still n t [] p e = refl
    turn-still zero t (w ∷ ws) p e = rw (finished-still w.order w.doing t p e) refl
    turn-still (suc n) t (w ∷ ws) p e = omega (arith, turn-still n t ws p e)

    pub running_turns-le :
        (schedule : List (ℕ × Turn)) (ws : List Worker) (p : Pool)
        → ShortOrders ws
        → running_turns schedule ws p ≤ all_left ws p.pending
    running_turns-le [] ws p h = omega arith
    running_turns-le ((n, t) ∷ schedule) ws p h =
        let rest =
          running_turns-le schedule (turn evp plan n t ws p).0 (turn evp plan n t ws p).1
            (turn-orders n t ws p h) in
        elim (Bool-cases (runs n ws)) [
          | inl e ↦ rw e (omega (arith, turn-left n t ws p h e))
          | inr e ↦ rw e (omega (arith, turn-still n t ws p e))
        ]
