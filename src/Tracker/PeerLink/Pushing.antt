-- ===== src/Tracker/PeerLink/Pushing.antt =====
-- No change is lost between two pushes (src/tracker/peer_link.cpp).
use peer_to_peer_file_sharin.Prelude.{
  ℕ, ◌+◌, ◌^◌, ◌≤◌, ◌<◌, ◌≡◌, inl, inr, refl, ap, sym, ◌∙◌, Bool, true, suc, false, List, [], ◌∷◌,
  some, length, nat_eq, arith, if_elim,
}
use peer_to_peer_file_sharin.Bytes.{Bytes}
use peer_to_peer_file_sharin.Common.Hash.{Evp}
use peer_to_peer_file_sharin.Tracker.State.{TrackerState, bump}
use peer_to_peer_file_sharin.Tracker.Operation.{Operation, apply, run}
use peer_to_peer_file_sharin.Tracker.Operation.Version.{Counted, apply-Counted}
use peer_to_peer_file_sharin.Tracker.Persistence.{merge_from}
use peer_to_peer_file_sharin.Tracker.PeerLink.{
  Link, Round, state_message, push, clients, push_round, push_rounds, linked,
}

-- `t` is reached from `s` by at most `n` counted changes, and is `s` if its version is.
pub record Later (n : ℕ) (s t : TrackerState) : Type 0 where
  pub least : s.version ≤ t.version
  pub most : t.version ≤ s.version + n
  pub same : (t.version ≡ s.version) → t ≡ s

Later-cons :
    (n : ℕ) (s t u : TrackerState)
    → s.version + suc n < 2 ^ 64
    → Counted s t
    → Later n t u
    → Later (suc n) s u
unfolding bump
Later-cons n s t u h (inl e) l = record {
  least = omega (arith, l.least, ap TrackerState.version e);
  most = omega (arith, l.most, ap TrackerState.version e);
  same = λ q. l.same (q ∙ sym (ap TrackerState.version e)) ∙ e;
}
Later-cons n s t u h (inr e) l = record {
  least = omega (arith, l.least, e, h);
  most = omega (arith, l.most, e, h);
  same = λ q. absurd (omega (arith, l.least, e, h, q));
}

Counted-within :
    (n : ℕ) (s t : TrackerState) → s.version + suc n < 2 ^ 64 → Counted s t → t.version + n < 2 ^ 64
unfolding bump
Counted-within n s t h (inl e) = omega (arith, h, ap TrackerState.version e)
Counted-within n s t h (inr e) = omega (arith, h, e)

-- What was acknowledged is the state, if the version that was pushed is still the state's.
pub record IsInStep (l : Link) : Type 0 where
  pub behind : l.last_pushed_version ≤ l.state.version
  pub known :
      0 < l.last_pushed_version
      → l.state.version ≡ l.last_pushed_version
      → l.acknowledged ≡ some (state_message l.state)

Later-IsInStep :
    (n : ℕ) (l : Link) (t : TrackerState)
    → Later n l.state t
    → IsInStep l
    → IsInStep (record l { state = t })
Later-IsInStep n l t h i = record {
  behind = omega (arith, h.least, i.behind);
  known = λ p e.
      i.known p (omega (arith, h.least, i.behind, e))
      ∙ ap (λ u. some (state_message u)) (sym (h.same (omega (arith, h.least, i.behind, e))));
}

push-IsInStep :
    (sends answers : Bool) (v : ℕ) (l : Link)
    → v ≤ l.state.version
    → IsInStep l
    → IsInStep (push sends answers v l).1
unfolding push
push-IsInStep false answers v l h i = i
push-IsInStep true false v l h i = i
push-IsInStep true true v l h i = record { behind = h; known = λ p e. refl }

push-state : (sends answers : Bool) (v : ℕ) (l : Link) → (push sends answers v l).1.state ≡ l.state
unfolding push
push-state false answers v l = refl
push-state true false v l = refl
push-state true true v l = refl

-- A round whose push succeeds.
abbrev pub quiet_round : List Operation → Round
quiet_round ops = record { before = ops; between = []; sends = true; answers = true }

-- How many operations the clients carry out in these rounds.
abbrev pub operations : List Round → ℕ
operations [] = 0
operations (r ∷ rs) = length r.before + length r.between + operations rs

module _ (evp : Evp) where
  run-Later :
      (ops : List Operation) (s : TrackerState)
      → s.version + length ops < 2 ^ 64
      → Later (length ops) s (run evp ops s)
  unfolding run
  run-Later [] s h = record { least = omega arith; most = omega arith; same = λ e. refl }
  run-Later (op ∷ ops) s h =
      Later-cons (length ops) s (apply evp op s).0 (run evp ops (apply evp op s).0) h
        (apply-Counted evp s op)
        (run-Later ops (apply evp op s).0
          (Counted-within (length ops) s (apply evp op s).0 h (apply-Counted evp s op)))

  -- A round leaves the link in step, and the version at most that many operations further.
  push_round-IsInStep :
      (r : Round) (l : Link)
      → l.state.version + (length r.before + length r.between) < 2 ^ 64
      → IsInStep l
      → (IsInStep (push_round evp r l).1
          × ((push_round evp r l).1.state.version
              ≤ l.state.version + (length r.before + length r.between)))
  unfolding push_round clients
  push_round-IsInStep r l h i =
      if_elim
        (λ (q : Bool × Link).
          IsInStep q.1
          × (q.1.state.version ≤ l.state.version + (length r.before + length r.between)))
        (nat_eq l1.state.version l.last_pushed_version) _ _ (λ e. (i2, bound))
        (λ e. (
          push-IsInStep r.sends r.answers l1.state.version l2 b.least i2,
          rw (push-state r.sends r.answers l1.state.version l2) bound,
        ))
    where
      l1 : Link
      l1 = clients evp r.before l

      l2 : Link
      l2 = clients evp r.between l1

      a : Later (length r.before) l.state l1.state
      a = run-Later r.before l.state (omega (arith, h))

      b : Later (length r.between) l1.state l2.state
      b = run-Later r.between l1.state (omega (arith, h, a.most))

      i2 : IsInStep l2
      i2 =
          Later-IsInStep (length r.between) l1 l2.state b
            (Later-IsInStep (length r.before) l l1.state a i)

      bound : l2.state.version ≤ l.state.version + (length r.before + length r.between)
      bound = omega (arith, a.most, b.most)

  pub push_rounds-IsInStep :
      (rs : List Round) (l : Link)
      → l.state.version + operations rs < 2 ^ 64
      → IsInStep l
      → IsInStep (push_rounds evp rs l).1
  unfolding push_rounds
  push_rounds-IsInStep [] l h i = i
  push_rounds-IsInStep (r ∷ rs) l h i =
      if_elim (λ (q : Bool × Link). IsInStep q.1) (push_round evp r l).0 _ _
        (λ e. push_rounds-IsInStep rs (push_round evp r l).1 (omega (arith, h, st.1)) st.0)
        (λ e. st.0)
    where
      st :
          IsInStep (push_round evp r l).1
          × ((push_round evp r l).1.state.version
              ≤ l.state.version + (length r.before + length r.between))
      st = push_round-IsInStep r l (omega (arith, h)) i

  linked-IsInStep :
      (theirs : Bytes) (rs : List Round) (l : Link)
      → (merge_from theirs l.state).1.version + operations rs < 2 ^ 64
      → IsInStep (linked evp (some theirs) rs l).1
  unfolding linked
  linked-IsInStep theirs rs l h =
      push_rounds-IsInStep rs
        (record l {
          state = (merge_from theirs l.state).1;
          connected = true;
          last_pushed_version = 0;
        })
        h (record { behind = omega arith; known = λ p e. absurd (omega (arith, p)) })

  -- In a round whose push goes out and is answered, and in which the clients are quiet between the
  -- reads of the version and of the state, what is acknowledged is the state.
  push_round-IsInStep_quiet :
      (ops : List Operation) (l : Link)
      → l.state.version + length ops < 2 ^ 64
      → 0 < (run evp ops l.state).version
      → IsInStep l
      → (push_round evp (quiet_round ops) l).1.acknowledged
        ≡ some (state_message (run evp ops l.state))
  unfolding push_round push clients run
  push_round-IsInStep_quiet ops l h p i =
      if_elim (λ (q : Bool × Link). q.1.acknowledged ≡ some (state_message (run evp ops l.state)))
        (nat_eq (run evp ops l.state).version l.last_pushed_version) _ _
        (λ e. after.known (ground (arith, e, p)) (ground (arith, e))) (λ e. refl)
    where
      after : IsInStep (record l { state = run evp ops l.state })
      after = Later-IsInStep (length ops) l (run evp ops l.state) (run-Later ops l.state h) i

  -- Once the link stands, whatever rounds follow and wherever clients' operations overtake a
  -- push: after a round whose push goes out and is answered, with no client operation between its
  -- reads of the version and of the state, the other tracker has acknowledged exactly the present
  -- state, if the version is not 0 and does not wrap around and only clients' operations change
  -- the state after the first merge.
  pub push_round-linked :
      (theirs : Bytes) (rs : List Round) (ops : List Operation) (l : Link)
      → (merge_from theirs l.state).1.version + operations rs < 2 ^ 64
      → (linked evp (some theirs) rs l).1.state.version + length ops < 2 ^ 64
      → 0 < (run evp ops (linked evp (some theirs) rs l).1.state).version
      → (push_round evp (quiet_round ops) (linked evp (some theirs) rs l).1).1.acknowledged
        ≡ some (state_message (run evp ops (linked evp (some theirs) rs l).1.state))
  push_round-linked theirs rs ops l h h' p =
      push_round-IsInStep_quiet ops (linked evp (some theirs) rs l).1 h' p
        (linked-IsInStep theirs rs l h)
