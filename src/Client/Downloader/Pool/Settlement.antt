-- ===== src/Client/Downloader/Pool/Settlement.antt =====
-- When the workers of src/client/downloader.cpp have returned, every piece is completed or failed.
use peer_to_peer_file_sharin.Prelude.{
  ℕ, zero, suc, ◌+◌, ◌<◌, ◌≡◌, refl, ap, ◌∙◌, Bool, true, false, ◌||◌, List, [], ◌∷◌, length,
  get_elem?, All, arith,
}
use peer_to_peer_file_sharin.Common.Hash.{Evp}
use peer_to_peer_file_sharin.Client.Downloader.Reply.{Seeder}
use peer_to_peer_file_sharin.Client.Downloader.Fetch.{
  Turn, Outcome, skipped, refused, stored, visit,
}
use peer_to_peer_file_sharin.Client.Downloader.Pool.{
  Status, downloading, completed, failed, Position, idle, finished, trying, listing, writing,
  saving, counting, Worker, Pool, Plan, take_piece, end_pass, after_visit, after_saving, advance,
  turn, turns, spawn, unfinished,
}
use peer_to_peer_file_sharin.Client.Downloader.Pool.Statuses.{Place, own, statuses}
use peer_to_peer_file_sharin.Client.Downloader.Pool.Progress.{is_running}
use peer_to_peer_file_sharin.Client.Downloader.Pool.Accounting.{
  settled, queued, in_progress, accounted, advance-pending, turns-Keeps,
}

abbrev is_nil : List ℕ → Bool
is_nil [] = true
is_nil (j ∷ js) = false

-- A turn adds nothing to the queue, and a worker returns only if the queue is empty.
record Drains (d : Position) (p : Pool) (r : Position × Pool) : Type 0 where
  stays : is_nil p.pending ≡ true → is_nil r.1.pending ≡ true
  returned :
      (is_running d || is_nil p.pending) ≡ true → (is_running r.0 || is_nil r.1.pending) ≡ true

running-Drains :
    (d d' : Position) (p q : Pool)
    → q.pending ≡ p.pending
    → is_running d' ≡ true
    → Drains d p (d', q)
running-Drains d d' p q e h = record { stays = λ n. rw e n; returned = λ n. rw h refl }

take_piece-Drains : (is : List ℕ) (p : Pool) → is ≡ p.pending → Drains idle p (take_piece is p)
unfolding take_piece
take_piece-Drains [] p e = record { stays = λ n. n; returned = λ n. rw (← e) refl }
take_piece-Drains (j ∷ rest) p e = record {
  stays = λ n. ground (arith, e, n, ap is_nil e);
  returned = λ n. refl;
}

after_saving-running :
    (order : List Seeder) (j : ℕ) (st : Status) → is_running (after_saving order j st) ≡ true
unfolding after_saving
after_saving-running order j downloading = refl
after_saving-running order j completed = refl
after_saving-running order j failed = refl

end_pass-running :
    (j attempt : ℕ) (order : List Seeder) → is_running (end_pass j attempt order) ≡ true
unfolding end_pass
end_pass-running j attempt order = ground arith

after_visit-Drains :
    (d : Position) (j attempt : ℕ) (rest : List Seeder) (o : Outcome) (p : Pool)
    → Drains d p (after_visit j attempt rest o p)
unfolding after_visit
after_visit-Drains d j attempt rest skipped p = record { stays = λ n. n; returned = λ n. refl }
after_visit-Drains d j attempt rest (refused out) p = record {
  stays = λ n. n;
  returned = λ n. refl;
}
after_visit-Drains d j attempt rest (stored out) p = record { stays = λ n. n; returned = λ n. refl }

-- A worker that has returned has found the queue empty.
abbrev AllDrained : List Worker → Pool → Type 0
AllDrained ws p = All (λ w. (is_running w.doing || is_nil p.pending) ≡ true) ws

still-AllDrained :
    (ws : List Worker) (p q : Pool)
    → (is_nil p.pending ≡ true → is_nil q.pending ≡ true)
    → AllDrained ws p
    → AllDrained ws q
still-AllDrained [] p q e h = tt
still-AllDrained (w ∷ ws) p q e h = (ground (arith, e, h.0), still-AllDrained ws p q e h.1)

module _ (evp : Evp) (plan : Plan) where
  advance-Drains :
      (order : List Seeder) (d : Position) (t : Turn) (p : Pool)
      → Drains d p (advance evp plan order d t p)
  unfolding advance
  advance-Drains order idle t p = take_piece-Drains p.pending p refl
  advance-Drains order finished t p = record { stays = λ n. n; returned = λ n. n }
  advance-Drains order (trying j attempt []) t p =
      running-Drains (trying j attempt []) (end_pass j attempt order) p p refl
        (end_pass-running j attempt order)
  advance-Drains order (trying j attempt (peer ∷ rest)) t p =
      after_visit-Drains (trying j attempt (peer ∷ rest)) j attempt rest
        (visit evp plan.fname plan.piece_hashes j peer t p.output) p
  advance-Drains order (listing j st) t p =
      running-Drains (listing j st) (writing j st) p _ refl refl
  advance-Drains order (writing j st) t p =
      running-Drains (writing j st) (saving j st) p _ refl refl
  advance-Drains order (saving j st) t p =
      running-Drains (saving j st) (after_saving order j st) p _
        (advance-pending evp plan order (saving j st) t p (λ e. cc))
        (after_saving-running order j st)
  advance-Drains order (counting j) t p = running-Drains (counting j) idle p _ refl refl

  turn-AllDrained :
      (n : ℕ) (t : Turn) (ws : List Worker) (p : Pool)
      → AllDrained ws p
      → (is_nil p.pending ≡ true → is_nil (turn evp plan n t ws p).1.pending ≡ true)
        × AllDrained (turn evp plan n t ws p).0 (turn evp plan n t ws p).1
  unfolding turn
  turn-AllDrained n t [] p h = (λ e. e, tt)
  turn-AllDrained zero t (w ∷ ws) p h =
      let a = advance-Drains w.order w.doing t p in
      (
        a.stays,
        (
          a.returned h.0,
          still-AllDrained ws p (advance evp plan w.order w.doing t p).1 a.stays h.1,
        ),
      )
  turn-AllDrained (suc n) t (w ∷ ws) p h =
      let a = turn-AllDrained n t ws p h.1 in (a.0, (ground (arith, a.0, h.0), a.1))

  turns-AllDrained :
      (schedule : List (ℕ × Turn)) (ws : List Worker) (p : Pool)
      → AllDrained ws p
      → AllDrained (turns evp plan schedule ws p).0 (turns evp plan schedule ws p).1
  unfolding turns
  turns-AllDrained [] ws p h = h
  turns-AllDrained ((n, t) ∷ schedule) ws p h =
      turns-AllDrained schedule _ _ (turn-AllDrained n t ws p h).1

-- Every worker has returned.
abbrev pub AllReturned : List Worker → Type 0
AllReturned = All (λ w. w.doing ≡ finished)

spawn-AllDrained :
    (id more : ℕ) (peers : List Seeder) (p : Pool) → AllDrained (spawn id more peers) p
unfolding spawn
spawn-AllDrained id zero peers p = tt
spawn-AllDrained id (suc more) peers p = (refl, spawn-AllDrained (id + 1) more peers p)

unfinished-queued :
    (i j : ℕ) (statuses : List ℕ)
    → i < length statuses
    → (settled (get_elem? statuses i) || queued (j + i) (unfinished j statuses)) ≡ true
unfolding unfinished
unfinished-queued i j [] l = ground (arith, l)
unfinished-queued zero j (st ∷ sts) l = ground arith
unfinished-queued (suc i) j (st ∷ sts) l = ground (
  arith,
  unfinished-queued i (j + 1) sts,
  let e : j + 1 + i ≡ j + suc i = omega arith in ap (λ k. queued k (unfinished (j + 1) sts)) e,
)

none-in_progress :
    (v : Place) (i : ℕ) (ws : List Worker) → AllReturned ws → in_progress v i ws ≡ false
none-in_progress v i [] h = refl
none-in_progress v i (w ∷ ws) h = rw (h.0, none-in_progress v i ws h.1) refl

none-queued : (i : ℕ) (is : List ℕ) → is_nil is ≡ true → queued i is ≡ false
none-queued i [] h = refl
none-queued i (j ∷ js) h = cc

head-drained :
    (ws : List Worker) (p : Pool)
    → 0 < length ws
    → AllReturned ws
    → AllDrained ws p
    → is_nil p.pending ≡ true
head-drained [] p l h d = ground (arith, l)
head-drained (w ∷ ws) p l h d = rw h.0 at d.0

-- When the queue is empty and nothing is in progress, what is accounted for is settled.
accounted-settled :
    (v : Place) (i : ℕ) (ws : List Worker) (sts is : List ℕ)
    → AllReturned ws
    → is_nil is ≡ true
    → accounted i (in_progress v i ws) sts is ≡ true
    → settled (get_elem? sts i) ≡ true
accounted-settled v i ws sts is r e h =
    ground (arith, h, none-in_progress v i ws r, none-queued i is e)

spawn-some : (more : ℕ) (peers : List Seeder) → 0 < length (spawn 0 (suc more) peers)
unfolding spawn
spawn-some more peers = omega arith

-- At the start every piece is completed or failed, or in the queue.
start-accounted :
    (i : ℕ) (held : Bool) (sts is : List ℕ)
    → is ≡ unfinished 0 sts
    → i < length sts
    → accounted i held sts is ≡ true
start-accounted i held sts is e l = ground (
  arith,
  unfinished-queued i 0 sts l,
  ap (queued i) e,
  let z : 0 + i ≡ i = omega arith in ap (λ k. queued k (unfinished 0 sts)) z,
)

module _ (evp : Evp) (plan : Plan) where
  turn-some :
      (n : ℕ) (t : Turn) (ws : List Worker) (p : Pool)
      → length (turn evp plan n t ws p).0 ≡ length ws
  unfolding turn
  turn-some n t [] p = refl
  turn-some zero t (w ∷ ws) p = refl
  turn-some (suc n) t (w ∷ ws) p = ap suc (turn-some n t ws p)

  turns-some :
      (schedule : List (ℕ × Turn)) (ws : List Worker) (p : Pool)
      → length (turns evp plan schedule ws p).0 ≡ length ws
  unfolding turns
  turns-some [] ws p = refl
  turns-some ((n, t) ∷ schedule) ws p = turns-some schedule _ _ ∙ turn-some n t ws p

  -- In the vector and in the table alike.
  pub turns-settled_in :
      (v : Place) (schedule : List (ℕ × Turn)) (more : ℕ) (peers : List Seeder) (p : Pool)
      → p.pending ≡ unfinished 0 (statuses plan.fname v p)
      → AllReturned (turns evp plan schedule (spawn 0 (suc more) peers) p).0
      → (i : ℕ) → i < length (statuses plan.fname v p)
      → settled (
          get_elem?
            (statuses plan.fname v (turns evp plan schedule (spawn 0 (suc more) peers) p).1)
            i)
        ≡ true
  turns-settled_in v schedule more peers p e r i l =
      let q = turns evp plan schedule (spawn 0 (suc more) peers) p in
      accounted-settled v i q.0 (statuses plan.fname v q.1) q.1.pending r
        (head-drained q.0 q.1
          (omega (arith, spawn-some more peers, turns-some schedule (spawn 0 (suc more) peers) p)) r
          (turns-AllDrained evp plan schedule (spawn 0 (suc more) peers) p
            (spawn-AllDrained 0 (suc more) peers p)))
        ((turns-Keeps evp plan i v schedule (spawn 0 (suc more) peers) p).kept l
          (start-accounted i _ (statuses plan.fname v p) p.pending e l))

  -- Of the pieces that the queue was made from, none is lost: after any turns at whose end all the
  -- workers, one at least, have returned, every piece is completed or failed.
  pub turns-settled :
      (schedule : List (ℕ × Turn)) (more : ℕ) (peers : List Seeder) (p : Pool)
      → p.pending ≡ unfinished 0 p.piece_status
      → AllReturned (turns evp plan schedule (spawn 0 (suc more) peers) p).0
      → (i : ℕ) → i < length p.piece_status
      → settled (get_elem? (turns evp plan schedule (spawn 0 (suc more) peers) p).1.piece_status i)
        ≡ true
  turns-settled schedule more peers p e r i l = turns-settled_in own schedule more peers p e r i l
