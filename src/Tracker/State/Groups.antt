-- ===== src/Tracker/State/Groups.antt =====
-- Group membership of src/tracker/tracker_state.cpp.
use peer_to_peer_file_sharin.Prelude.{Bool, not, [], ◌∷◌, ◌++◌, Option, none, some, if◌then◌else◌}
use peer_to_peer_file_sharin.Bytes.{Bytes, ◌==◌, lit, is_empty}
use peer_to_peer_file_sharin.Container.Map.{Map, find, assign, contains}
use peer_to_peer_file_sharin.Container.NameSet.{NameSet, insert, remove}
use peer_to_peer_file_sharin.Tracker.State.Types.{
  Result, accept, reject, around, Group, isapplicant, partofgroup, acceptreq, deluser, TrackerState,
  bump,
}
use peer_to_peer_file_sharin.Tracker.State.Accounts.{user_exists_locked}

unfoldable pub group_exists_locked : Bytes → TrackerState → Bool
group_exists_locked gid s = contains gid s.groups

abbrev pub no_such_user : Bytes → Result
no_such_user name = reject (around "------- No such User ID: " name " ------")

abbrev pub no_such_group : Bytes → Result
no_such_group gid = reject (around "------- No such group ID: " gid " ------")

abbrev pub not_the_owner : Bytes → Result
not_the_owner gid =
    reject (around "------ Access denied. You are not the group owner of ID " gid " -------")

abbrev pub no_pending_request : Bytes → Result
no_pending_request name =
    reject (around "------- This user (ID: " name ") has no pending requests -------")

-- Replaces a group that was found, and counts the change.
abbrev pub put_group : Bytes → Group → TrackerState → TrackerState
put_group gid g s = record s { groups = assign gid g s.groups; version = bump s.version }

unfoldable pub create_group : Bytes → Bytes → TrackerState → TrackerState × Result
unfolding user_exists_locked group_exists_locked
create_group gid owner s =
    if not (user_exists_locked owner s)
    then (s, no_such_user owner)
    else if group_exists_locked gid s
    then (s, reject (lit "------- This Group ID is already taken ------"))
    else (
      put_group gid
          (record {
            gid = gid;
            groupmaster = owner;
            participants = insert owner [];
            applicants = [];
          })
          s,
      accept (around "******* Group creation successful. Assigned ID: " gid " *******"),
    )

unfoldable pub join_found : Option Group → Bytes → Bytes → TrackerState → TrackerState × Result
unfolding partofgroup
join_found none gid username s = (s, no_such_group gid)
join_found (some g) gid username s =
    if partofgroup username g
    then (s, reject (around "------- You have already joined this group: " gid " -------"))
    else (
      put_group gid (record g { applicants = insert username g.applicants }) s,
      accept (around "******* Request to join group " gid " has been sent ******"),
    )

unfoldable pub join_group : Bytes → Bytes → TrackerState → TrackerState × Result
unfolding user_exists_locked join_found
join_group gid username s =
    if not (user_exists_locked username s)
    then (s, no_such_user username)
    else join_found (find gid s.groups) gid username s

unfoldable pub leave_found : Option Group → Bytes → Bytes → TrackerState → TrackerState × Result
unfolding partofgroup deluser
leave_found none gid username s = (s, no_such_group gid)
leave_found (some g) gid username s =
    if not (partofgroup username g)
    then (s, reject (around "------ Access denied. You are not part of Group ID " gid " -------"))
    else (
      put_group gid (deluser username g) s,
      accept (around "****** Left group successfully. ID: " gid " ******"),
    )

unfoldable pub leave_group : Bytes → Bytes → TrackerState → TrackerState × Result
unfolding user_exists_locked leave_found
leave_group gid username s =
    if not (user_exists_locked username s)
    then (s, no_such_user username)
    else leave_found (find gid s.groups) gid username s

-- Each name on a line of its own.
unfoldable pub name_lines : NameSet → Bytes
name_lines [] = []
name_lines (x ∷ xs) = x ++ (b'\n' ∷ name_lines xs)

unfoldable pub requests_found : Option Group → Bytes → Bytes → Result
unfolding name_lines
requests_found none gid owner = no_such_group gid
requests_found (some g) gid owner =
    if not (g.groupmaster == owner)
    then not_the_owner gid
    else (let msg : Bytes = name_lines g.applicants in
        if is_empty msg
        then accept (around "------- Group ID " gid " has no pending join requests -------")
        else accept msg)

unfoldable pub list_requests : Bytes → Bytes → TrackerState → Result
unfolding user_exists_locked requests_found
list_requests gid owner s =
    if not (user_exists_locked owner s)
    then no_such_user owner
    else requests_found (find gid s.groups) gid owner

unfoldable pub accept_found :
    Option Group → Bytes → Bytes → Bytes → TrackerState → TrackerState × Result
unfolding isapplicant acceptreq
accept_found none gid applicant owner s = (s, no_such_group gid)
accept_found (some g) gid applicant owner s =
    if not (g.groupmaster == owner)
    then (s, not_the_owner gid)
    else if not (isapplicant applicant g)
    then (s, no_pending_request applicant)
    else (
      put_group gid (acceptreq applicant g) s,
      accept (around "******* Approval granted for User ID: " applicant " *******"),
    )

unfoldable pub accept_request : Bytes → Bytes → Bytes → TrackerState → TrackerState × Result
unfolding user_exists_locked accept_found
accept_request gid applicant owner s =
    if not (user_exists_locked applicant s)
    then (s, no_such_user applicant)
    else accept_found (find gid s.groups) gid applicant owner s

unfoldable pub reject_found :
    Option Group → Bytes → Bytes → Bytes → TrackerState → TrackerState × Result
unfolding isapplicant
reject_found none gid applicant owner s = (s, no_such_group gid)
reject_found (some g) gid applicant owner s =
    if not (g.groupmaster == owner)
    then (s, not_the_owner gid)
    else if not (isapplicant applicant g)
    then (s, no_pending_request applicant)
    else (
      put_group gid (record g { applicants = remove applicant g.applicants }) s,
      accept (around "******* Request rejected for User ID: " applicant " *******"),
    )

unfoldable pub reject_request : Bytes → Bytes → Bytes → TrackerState → TrackerState × Result
unfolding user_exists_locked reject_found
reject_request gid applicant owner s =
    if not (user_exists_locked applicant s)
    then (s, no_such_user applicant)
    else reject_found (find gid s.groups) gid applicant owner s

unfoldable pub group_lines : Map Group → Bytes
group_lines [] = []
group_lines ((gid, g) ∷ rest) = b'\n' ∷ (gid ++ group_lines rest)

unfoldable pub list_groups : TrackerState → Result
unfolding group_lines
list_groups s =
    accept (
      lit "############### Available groups on the network ###############" ++ group_lines s.groups)
