-- ===== src/Tracker/Operation/Membership.antt =====
-- Who belongs to a group, across every operation of src/tracker/tracker_state.cpp.
use peer_to_peer_file_sharin.Prelude.{
  ◌≡◌, refl, Bool, false, not, ◌&&◌, ◌||◌, [], ◌∷◌, Option, none, some, arith,
}
use peer_to_peer_file_sharin.Bytes.{Bytes, ◌==◌, ==_iff}
use peer_to_peer_file_sharin.Container.Map.{find, find-assign}
use peer_to_peer_file_sharin.Container.NameSet.{
  member, member-insert, member-remove, insert, remove,
}
use peer_to_peer_file_sharin.Common.Hash.{Evp}
use peer_to_peer_file_sharin.Tracker.State
use peer_to_peer_file_sharin.Tracker.State.{Group, TrackerState, user_exists_locked}
use peer_to_peer_file_sharin.Tracker.Operation.Frame.{
  groups-create_user, groups-login, groups-logout, groups-handle_disconnect, groups-upload_file,
  groups-file_downloaded, groups-stop_share,
}
use peer_to_peer_file_sharin.Tracker.Operation.{
  Operation, create_user, login, logout, create_group, join_group, leave_group, accept_request,
  reject_request, upload_file, file_downloaded, stop_share, handle_disconnect, apply,
}

abbrev pub member_of : Bytes → Option Group → Bool
member_of x none = false
member_of x (some g) = member x g.participants

abbrev pub applied_to : Bytes → Option Group → Bool
applied_to x none = false
applied_to x (some g) = member x g.applicants

abbrev pub owned_by : Bytes → Option Group → Bool
owned_by x none = false
owned_by x (some g) = g.groupmaster == x

-- Whether a user belongs to a group.
abbrev pub in_group : Bytes → Bytes → TrackerState → Bool
in_group gid x s = member_of x (find gid s.groups)

-- What an operation that is carried out adds to a group, and takes from it.
abbrev pub admits : Operation → Bytes → Bytes → Bool
admits (create_group gid owner) g x = gid == g && owner == x
admits (accept_request gid user owner) g x = gid == g && user == x
admits _ g x = false

abbrev pub expels : Operation → Bytes → Bytes → Bool
expels (leave_group gid user) g x = gid == g && user == x
expels _ g x = false

module _ (gid user g x : Bytes) (s : TrackerState) where
  create_group-membership :
      let r = State.create_group gid user s in
      in_group g x r.0 ≡ (in_group g x s || (r.1.ok && (gid == g && user == x)))
  unfolding State.create_group insert member
  create_group-membership = ground (
    arith,
    ==_iff gid g,
    find-assign gid g
        (record { gid = gid; groupmaster = user; participants = user ∷ []; applicants = [] })
        s.groups,
  )

  leave_found-membership :
      (o : Option Group)
      → find gid s.groups ≡ o
      → let r = State.leave_found o gid user s in
        in_group g x r.0 ≡ (in_group g x s && not (r.1.ok && (gid == g && user == x)))
  unfolding State.leave_found
  leave_found-membership none e = ground arith
  leave_found-membership (some h) e = ground (
    arith,
    ==_iff gid g,
    ==_iff user x,
    member-remove user x h.participants,
    find-assign gid g (State.deluser user h) s.groups,
  )

  leave_group-membership :
      let r = State.leave_group gid user s in
      in_group g x r.0 ≡ (in_group g x s && not (r.1.ok && (gid == g && user == x)))
  unfolding State.leave_group
  leave_group-membership = ground (arith, leave_found-membership (find gid s.groups))

  join_found-membership :
      (o : Option Group)
      → find gid s.groups ≡ o
      → in_group g x (State.join_found o gid user s).0 ≡ in_group g x s
  unfolding State.join_found
  join_found-membership none e = refl
  join_found-membership (some h) e = ground (
    arith,
    ==_iff gid g,
    find-assign gid g (record h { applicants = insert user h.applicants }) s.groups,
  )

  join_group-membership : in_group g x (State.join_group gid user s).0 ≡ in_group g x s
  unfolding State.join_group
  join_group-membership = ground (arith, join_found-membership (find gid s.groups))

  module _ (owner : Bytes) where
    accept_found-membership :
        (o : Option Group)
        → find gid s.groups ≡ o
        → let r = State.accept_found o gid user owner s in
          in_group g x r.0 ≡ (in_group g x s || (r.1.ok && (gid == g && user == x)))
    unfolding State.accept_found
    accept_found-membership none e = ground arith
    accept_found-membership (some h) e = ground (
      arith,
      ==_iff gid g,
      ==_iff user x,
      member-insert user x h.participants,
      find-assign gid g (State.acceptreq user h) s.groups,
    )

    accept_request-membership :
        let r = State.accept_request gid user owner s in
        in_group g x r.0 ≡ (in_group g x s || (r.1.ok && (gid == g && user == x)))
    unfolding State.accept_request
    accept_request-membership = ground (arith, accept_found-membership (find gid s.groups))

    reject_found-membership :
        (o : Option Group)
        → find gid s.groups ≡ o
        → in_group g x (State.reject_found o gid user owner s).0 ≡ in_group g x s
    unfolding State.reject_found
    reject_found-membership none e = refl
    reject_found-membership (some h) e = ground (
      arith,
      ==_iff gid g,
      find-assign gid g (record h { applicants = remove user h.applicants }) s.groups,
    )

    reject_request-membership :
        in_group g x (State.reject_request gid user owner s).0 ≡ in_group g x s
    unfolding State.reject_request
    reject_request-membership = ground (arith, reject_found-membership (find gid s.groups))

module _ (evp : Evp) (g x : Bytes) (s : TrackerState) where
  -- For every operation and outcome, the users in a group afterwards are those before, with whom
  -- create_group or accept_request admitted and without whom leave_group expelled.
  pub in_group-apply :
      (op : Operation)
      → let r = apply evp op s in
        in_group g x r.0
        ≡ ((in_group g x s || (r.1.ok && admits op g x)) && not (r.1.ok && expels op g x))
  unfolding apply
  in_group-apply (create_user drawn name pass) =
      ground (arith, groups-create_user evp name pass drawn s)
  in_group-apply (login name pass ip port) = ground (arith, groups-login evp name pass ip port s)
  in_group-apply (logout name) = ground (arith, groups-logout name s)
  in_group-apply (create_group gid owner) = ground (arith, create_group-membership gid owner g x s)
  in_group-apply (join_group gid user) = ground (arith, join_group-membership gid user g x s)
  in_group-apply (leave_group gid user) = ground (arith, leave_group-membership gid user g x s)
  in_group-apply (accept_request gid user owner) =
      ground (arith, accept_request-membership gid user g x s owner)
  in_group-apply (reject_request gid user owner) =
      ground (arith, reject_request-membership gid user g x s owner)
  in_group-apply (upload_file gid fname user size hash n hashes) =
      ground (arith, groups-upload_file gid fname user size hash n hashes s)
  in_group-apply (file_downloaded gid fname user) =
      ground (arith, groups-file_downloaded gid fname user s)
  in_group-apply (stop_share gid fname user) = ground (arith, groups-stop_share gid fname user s)
  in_group-apply (handle_disconnect name) = ground (arith, groups-handle_disconnect name s)

-- accept_request is carried out exactly when the applicant has an account and has applied, and
-- the caller owns the group.
pub accept_request-ok :
    (gid user owner : Bytes) (s : TrackerState)
    → (State.accept_request gid user owner s).1.ok ≡ (
        user_exists_locked user s
        && (owned_by owner (find gid s.groups) && applied_to user (find gid s.groups)))
unfolding State.accept_request
accept_request-ok gid user owner s = ground arith
