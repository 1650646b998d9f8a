-- ===== src/Tracker/Operation/Soundness/Groups.antt =====
-- What holds of every group between two operations of src/tracker/tracker_state.cpp: it is stored
-- under its own id, it is led, and its members and applicants have accounts.
use peer_to_peer_file_sharin.Prelude.{
  ◌≡◌, inl, refl, true, false, not, [], Option, none, some, arith, if_elim, ap, sym, ◌∙◌,
}
use peer_to_peer_file_sharin.Bytes.{Bytes, ◌==◌, ==_iff, ==_refl, is_empty}
use peer_to_peer_file_sharin.Container.Map.{Map, find, assign_elim, contains}
use peer_to_peer_file_sharin.Container.NameSet.{
  member, member-remove, member-insert, remove, insert,
}
use peer_to_peer_file_sharin.Tracker.State
use peer_to_peer_file_sharin.Tracker.State.{
  Peer, Group, TrackerState, deluser, acceptreq, user_exists_locked, partofgroup,
}
use peer_to_peer_file_sharin.Tracker.Operation.Ownership.{IsLed, deluser-IsLed}

pub record GroupIsSound (peers : Map Peer) (gid : Bytes) (h : Group) : Type 0 where
  pub named : h.gid ≡ gid
  pub led : IsLed h
  pub members : (x : Bytes) → member x h.participants ≡ true → contains x peers ≡ true
  pub applied : (x : Bytes) → member x h.applicants ≡ true → contains x peers ≡ true

pub record GroupsAreSound (s : TrackerState) : Type 0 where
  pub each : (gid : Bytes) (h : Group) → find gid s.groups ≡ some h → GroupIsSound s.peers gid h

module _ (s : TrackerState) (v : GroupsAreSound s) where
  -- A sound group in place of another.
  put_group-GroupsAreSound :
      (gid : Bytes) (h : Group)
      → GroupIsSound s.peers gid h
      → GroupsAreSound (State.put_group gid h s)
  put_group-GroupsAreSound gid h good = record {
    each = assign_elim (GroupIsSound s.peers) gid h s.groups good v.each;
  }

  abbrev Keeps : TrackerState × State.Result → Type 0
  Keeps r = GroupsAreSound r.0

  module _ (gid user : Bytes) where
    founded :
        user_exists_locked user s ≡ true
        → GroupIsSound s.peers gid (record {
          gid = gid;
          groupmaster = user;
          participants = insert user [];
          applicants = [];
        })
    unfolding user_exists_locked insert member
    founded known = record {
      named = refl;
      led = inl (ground (arith, ==_refl user));
      members = λ x m. ground (arith, ==_iff user x);
      applied = λ x m. cc;
    }

    pub create_group-GroupsAreSound : Keeps (State.create_group gid user s)
    unfolding State.create_group
    create_group-GroupsAreSound =
        if_elim Keeps (not (user_exists_locked user s)) _ _ (λ _. v)
          λ known.
            if_elim Keeps (State.group_exists_locked gid s) _ _ (λ _. v)
              λ _. put_group-GroupsAreSound gid _ (founded (ground arith))

    module _ (h : Group) (good : GroupIsSound s.peers gid h) where
      applicant_added :
          user_exists_locked user s ≡ true
          → GroupIsSound s.peers gid (record h { applicants = insert user h.applicants })
      unfolding user_exists_locked
      applicant_added known = record {
        named = good.named;
        led = good.led;
        members = good.members;
        applied =
            λ x m. ground (arith, ==_iff user x, member-insert user x h.applicants, good.applied x);
      }

      member_left : GroupIsSound s.peers gid (deluser user h)
      unfolding deluser
      member_left = record {
        named = ground (arith, good.named);
        led = deluser-IsLed user h good.led;
        members = λ x m. ground (arith, member-remove user x h.participants, good.members x);
        applied = λ x m. ground (arith, good.applied x);
      }

      member_accepted :
          (owner : Bytes)
          → user_exists_locked user s ≡ true
          → is_empty owner ≡ false
          → (h.groupmaster == owner) ≡ true
          → GroupIsSound s.peers gid (acceptreq user h)
      unfolding user_exists_locked acceptreq
      member_accepted owner known real owns = record {
        named = good.named;
        led = ground (
          arith,
          ==_iff h.groupmaster owner,
          good.led,
          member-insert user h.groupmaster h.participants,
        );
        members = λ x m.
            ground (arith, ==_iff user x, member-insert user x h.participants, good.members x);
        applied = λ x m. ground (arith, member-remove user x h.applicants, good.applied x);
      }

      applicant_rejected :
          GroupIsSound s.peers gid (record h { applicants = remove user h.applicants })
      applicant_rejected = record {
        named = good.named;
        led = good.led;
        members = good.members;
        applied = λ x m. ground (arith, member-remove user x h.applicants, good.applied x);
      }

    join_found-GroupsAreSound :
        user_exists_locked user s ≡ true
        → (o : Option Group) → find gid s.groups ≡ o
        → Keeps (State.join_found o gid user s)
    unfolding State.join_found
    join_found-GroupsAreSound known none e = v
    join_found-GroupsAreSound known (some h) e =
        if_elim Keeps (partofgroup user h) _ _ (λ _. v)
          λ _. put_group-GroupsAreSound gid _ (applicant_added h (v.each gid h e) known)

    pub join_group-GroupsAreSound : Keeps (State.join_group gid user s)
    unfolding State.join_group
    join_group-GroupsAreSound =
        if_elim Keeps (not (user_exists_locked user s)) _ _ (λ _. v)
          λ known. join_found-GroupsAreSound (ground arith) (find gid s.groups) refl

    leave_found-GroupsAreSound :
        (o : Option Group) → find gid s.groups ≡ o → Keeps (State.leave_found o gid user s)
    unfolding State.leave_found
    leave_found-GroupsAreSound none e = v
    leave_found-GroupsAreSound (some h) e =
        if_elim Keeps (not (partofgroup user h)) _ _ (λ _. v)
          λ _. put_group-GroupsAreSound gid _ (member_left h (v.each gid h e))

    pub leave_group-GroupsAreSound : Keeps (State.leave_group gid user s)
    unfolding State.leave_group
    leave_group-GroupsAreSound =
        if_elim Keeps (not (user_exists_locked user s)) _ _ (λ _. v)
          λ _. leave_found-GroupsAreSound (find gid s.groups) refl

    module _ (owner : Bytes) where
      accept_found-GroupsAreSound :
          user_exists_locked user s ≡ true
          → is_empty owner ≡ false
          → (o : Option Group) → find gid s.groups ≡ o
          → Keeps (State.accept_found o gid user owner s)
      unfolding State.accept_found
      accept_found-GroupsAreSound known real none e = v
      accept_found-GroupsAreSound known real (some h) e =
          if_elim Keeps (not (h.groupmaster == owner)) _ _ (λ _. v)
            λ owns.
              if_elim Keeps (not (State.isapplicant user h)) _ _ (λ _. v)
                λ _.
                  put_group-GroupsAreSound gid _
                    (member_accepted h (v.each gid h e) owner known real (ground arith))

      pub accept_request-GroupsAreSound :
          is_empty owner ≡ false → Keeps (State.accept_request gid user owner s)
      unfolding State.accept_request
      accept_request-GroupsAreSound real =
          if_elim Keeps (not (user_exists_locked user s)) _ _ (λ _. v)
            λ known. accept_found-GroupsAreSound (ground arith) real (find gid s.groups) refl

      reject_found-GroupsAreSound :
          (o : Option Group) → find gid s.groups ≡ o → Keeps (State.reject_found o gid user owner s)
      unfolding State.reject_found
      reject_found-GroupsAreSound none e = v
      reject_found-GroupsAreSound (some h) e =
          if_elim Keeps (not (h.groupmaster == owner)) _ _ (λ _. v)
            λ _.
              if_elim Keeps (not (State.isapplicant user h)) _ _ (λ _. v)
                λ _. put_group-GroupsAreSound gid _ (applicant_rejected h (v.each gid h e))

      pub reject_request-GroupsAreSound : Keeps (State.reject_request gid user owner s)
      unfolding State.reject_request
      reject_request-GroupsAreSound =
          if_elim Keeps (not (user_exists_locked user s)) _ _ (λ _. v)
            λ _. reject_found-GroupsAreSound (find gid s.groups) refl

  -- Accounts are only added: what is sound stays so where every account is still there.
  pub GroupsAreSound-grow :
      (t : TrackerState)
      → t.groups ≡ s.groups
      → ((x : Bytes) → contains x s.peers ≡ true → contains x t.peers ≡ true)
      → GroupsAreSound t
  GroupsAreSound-grow t same grows = record {
    each = λ gid h e.
        let good = v.each gid h (ap (find gid) (sym same) ∙ e) in
        record {
          named = good.named;
          led = good.led;
          members = λ x m. grows x (good.members x m);
          applied = λ x m. grows x (good.applied x m);
        };
  }
