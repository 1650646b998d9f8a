-- ===== src/Client/PeerServer/Queue.antt =====
-- The queue of connections between the accepting thread and the workers of
-- src/client/peer_server.cpp, and its end. The mutex makes each section under it one step, and the
-- threads are any sequence of steps. A connection is its descriptor.
use peer_to_peer_file_sharin.Prelude.{
  ℕ, ◌-◌, ◌≡◌, refl, ap, sym, ◌∙◌, Bool-cases, inl, inr, Bool, true, false, List, [], ◌∷◌, ◌++◌,
  append_assoc, append-nil, if◌then◌else◌, nat_eq, if_elim,
}

-- What waits, the flag, whether the accepting thread still runs, and how many workers do; and the
-- connections that workers took, and those that were closed unanswered, in order.
pub record Listening : Type 0 where
  pub pending : List ℕ
  pub stopping : Bool
  pub accepting : Bool
  pub workers : ℕ
  pub taken : List ℕ
  pub closed : List ℕ

-- accept returned a descriptor.
unfoldable pub accepted : ℕ → Listening → Listening
accepted fd q =
    if q.stopping
    then record q { accepting = false; closed = q.closed ++ fd ∷ [] }
    else record q { pending = q.pending ++ fd ∷ [] }

-- accept failed.
unfoldable pub accept_failed : Listening → Listening
accept_failed q = if q.stopping then record q { accepting = false } else q

-- A worker wakes: with nothing to do it waits again or returns.
unfoldable pub worker_turn : List ℕ → Listening → Listening
worker_turn [] q = if q.stopping then record q { workers = q.workers - 1 } else q
worker_turn (fd ∷ rest) q = record q { pending = rest; taken = q.taken ++ fd ∷ [] }

-- The first section of `stop`, which a second call leaves as it is, and its last, once all threads
-- have been joined.
unfoldable pub stop_asked : Listening → Listening
stop_asked q = if q.stopping then q else record q { stopping = true }

unfoldable pub stop_joined : Listening → Listening
stop_joined q = record q { pending = []; closed = q.closed ++ q.pending }

pub data Event : Type 0 where
  accept_gave : ℕ → Event
  accept_gave_none worker_woke stop_called : Event

unfoldable pub step : Event → Listening → Listening
unfolding accepted accept_failed worker_turn stop_asked
step (accept_gave fd) q = if q.accepting then accepted fd q else q
step accept_gave_none q = if q.accepting then accept_failed q else q
step worker_woke q = if nat_eq q.workers 0 then q else worker_turn q.pending q
step stop_called q = stop_asked q

unfoldable pub steps : List Event → Listening → Listening
unfolding step
steps [] q = q
steps (e ∷ es) q = steps es (step e q)

-- The connections that an event puts into the queue.
abbrev pub queued_by : Event → Listening → List ℕ
queued_by (accept_gave fd) q = if q.accepting then (if q.stopping then [] else fd ∷ []) else []
queued_by accept_gave_none q = []
queued_by worker_woke q = []
queued_by stop_called q = []

abbrev pub queued : List Event → Listening → List ℕ
queued [] q = []
queued (e ∷ es) q = queued_by e q ++ queued es (step e q)

-- What workers took, and what waits, in order.
abbrev line : Listening → List ℕ
line q = q.taken ++ q.pending

worker_turn-line : (is : List ℕ) (q : Listening) → q.pending ≡ is → line (worker_turn is q) ≡ line q
unfolding worker_turn
worker_turn-line [] q e = if_elim (λ r. line r ≡ line q) q.stopping _ _ (λ _. refl) (λ _. refl)
worker_turn-line (fd ∷ rest) q e = rw e (append_assoc q.taken (fd ∷ []) rest)

accepted-line :
    (fd : ℕ) (q : Listening) → line (accepted fd q) ≡ line q ++ (if q.stopping then [] else fd ∷ [])
unfolding accepted
accepted-line fd q = elim (Bool-cases q.stopping) [
  | inl on ↦ rw on (sym (append-nil (line q)))
  | inr off ↦ rw off (sym (append_assoc q.taken q.pending (fd ∷ [])))
]

-- A step that keeps the line.
kept : (q r : Listening) → line r ≡ line q → line r ≡ line q ++ []
kept q r e = e ∙ sym (append-nil (line q))

either :
    (b : Bool) (r s q : Listening)
    → line r ≡ line q
    → line s ≡ line q
    → line (if b then r else s) ≡ line q
either true r s q e f = e
either false r s q e f = f

if_accepted-line :
    (accepting : Bool) (fd : ℕ) (q : Listening)
    → line (if accepting then accepted fd q else q)
      ≡ line q ++ (if accepting then (if q.stopping then [] else fd ∷ []) else [])
if_accepted-line true fd q = accepted-line fd q
if_accepted-line false fd q = kept q q refl

step-line : (e : Event) (q : Listening) → line (step e q) ≡ line q ++ queued_by e q
unfolding step accept_failed stop_asked
step-line (accept_gave fd) q = if_accepted-line q.accepting fd q
step-line accept_gave_none q = kept q (step accept_gave_none q) (
    either q.accepting (accept_failed q) q q
      (either q.stopping (record q { accepting = false }) q q refl refl) refl)
step-line worker_woke q = kept q (step worker_woke q) (
    either (nat_eq q.workers 0) q (worker_turn q.pending q) q refl
      (worker_turn-line q.pending q refl))
step-line stop_called q =
    kept q (stop_asked q) (either q.stopping q (record q { stopping = true }) q refl refl)

-- Connections are taken in the order in which they were queued, and none is lost: after any events of
-- the threads and calls of stop, before its last section, what workers took, followed by what waits, is
-- what it was before, followed by each connection that the accepting thread was given while it ran and
-- no stop had been asked for.
pub steps-line :
    (es : List Event) (q : Listening)
    → (steps es q).taken ++ (steps es q).pending ≡ (q.taken ++ q.pending) ++ queued es q
unfolding steps
steps-line [] q = sym (append-nil (line q))
steps-line (e ∷ es) q =
    steps-line es (step e q)
    ∙ ap (λ l. l ++ queued es (step e q)) (step-line e q)
    ∙ append_assoc (line q) (queued_by e q) (queued es (step e q))
