-- ===== src/Tests/Spaces.antt =====
-- A small space: Anna invites somebody, who joins, and hands the space over.
use babki_back.Prelude.{◌+◌, ap, arith, ◌≡◌, ◌≢◌, refl, is_some, true, false, none, some, inl, inr}
use babki_back.Mongo.{first}
use babki_back.Mongo.Writes.{Finds}
use babki_back.Http.{
  ok, err, bad_request, forbidden, conflict, invalid_invitation, owner_must_stay,
  space_permission_required,
}
use babki_back.Schemas.{Db, ObjectId}
use babki_back.Access.{space_filter, member_filter, transactions, require_permission}
use babki_back.Access.Runs.{left_by}
use babki_back.Spaces.{to_dto, SpaceDto, Role}
use babki_back.Spaces.Actions.{mutation, leave_space, hand_over}
use babki_back.Spaces.Book.{IsSpaceBook}
use babki_back.Spaces.Invitations.{
  Hash, Accepted, accept_invitation, create_invitation, invite, accept,
}
use babki_back.Spaces.Service.{leave}
use babki_back.Spaces.History.{Reach, here, next, invites, accepts, leaves, reach-IsSpaceBook}
use babki_back.Spaces.Joined.{IsIndexed, IsNewMember, accept_invitation-IsNewMember}
use babki_back.Spaces.Invited.{accept_invitation_once}
use babki_back.Spaces.Leave.{leave_cases}
use babki_back.Spaces.Rights.{hand_over_rights}
use babki_back.Tests.{list_mongo}
use babki_back.Tests.Access.{plain_transactions, home_space}
use babki_back.Tests.Fixture.{all_rights, anna, bert, start, state_of, value_of}
use babki_back.Tests.Machine.{space_machine}

-- The digest of a token is one more than twice the token.
instance abbrev toy_hash : Hash
toy_hash = record { digest = λ t. t + t + 1 }

abbrev carl : ObjectId
carl = 13

other : anna ≢ bert
other e = omega (arith, e)

start_book : IsSpaceBook start
unfolding space_machine
start_book = record {
  space_ids = (λ h. h, tt);
  member_ids = (λ h. elim h [ inl e ↦ omega arith | inr x ↦ x ], (λ h. h, tt));
  once = (
    λ h. elim h [ inl e ↦ other (ap (λ (z : ObjectId × ObjectId). z.1) e) | inr x ↦ x ],
    (λ h. h, tt),
  );
  owned = (λ h. inl refl, tt);
  housed = ((inl refl, λ h. inl refl), ((inl refl, λ h. inl refl), tt));
  open_invites = tt;
}

-- Anna issues the token 7.
abbrev invited : Db
invited = state_of start (create_invitation anna 1 7 100 start)

abbrev joined : Db
joined = state_of invited (accept_invitation carl 7 200 201 202 invited)

abbrev carl_joins : Accepted
carl_joins = record { space_id = 1; role = Role.member }

joins_runs : accept_invitation carl 7 200 201 202 invited ≡ ok (carl_joins, joined)
unfolding space_machine
joins_runs = refl

accept_invitation-IsNewMember_example :
    (first (member_filter 1 carl) invited.memberships ≡ none)
    × IsNewMember 1 carl 202 joined.memberships
accept_invitation-IsNewMember_example =
    accept_invitation-IsNewMember carl 7 200 201 202 carl_joins invited joined joins_runs

invited_unique : IsIndexed invited.invitations
unfolding space_machine
invited_unique = record { ids = (λ h. h, tt); digests = (λ h. h, tt) }

-- Bert comes with the same token a little later.
accept_invitation_once_example :
    accept_invitation bert 7 300 301 302 joined ≡ err (bad_request invalid_invitation)
accept_invitation_once_example =
    accept_invitation_once carl 7 200 201 202 carl_joins invited joined invited_unique joins_runs
      bert 300 301 302

-- Anna invites, Carl joins, and Bert leaves, and then Anna tries to leave, too.
abbrev after_invite : Db
after_invite = left_by (invite anna 1 7 100 start)

abbrev after_accept : Db
after_accept = left_by (accept carl 7 200 201 202 after_invite)

abbrev after_leave : Db
after_leave = left_by (leave bert 1 400 after_accept)

abbrev after_refusal : Db
after_refusal = left_by (leave anna 1 500 after_leave)

history : Reach start after_refusal
history =
    next
      (next (next (next here (invites anna 1 7 100 refl)) (accepts carl 7 200 201 202 refl))
        (leaves bert 1 400 refl))
      (leaves anna 1 500 refl)

reach-IsSpaceBook_example : IsSpaceBook after_refusal
reach-IsSpaceBook_example = reach-IsSpaceBook start_book history

-- The history is what it says: Bert is gone, Carl is a member, and Anna still owns the space.
still_there :
    (first (member_filter 1 bert) after_refusal.memberships ≡ none)
    × (is_some (first (member_filter 1 carl) after_refusal.memberships) ≡ true)
    × (is_some (first (member_filter 1 anna) after_refusal.memberships) ≡ true)
unfolding space_machine
still_there = (refl, refl, refl)

anna_found : first (space_filter 1) start.spaces ≡ some home_space
unfolding space_machine
anna_found = refl

bert_joined : Finds (member_filter 1 bert) start.memberships
unfolding space_machine
bert_joined = inr (inl refl)

leave_cases_example :
    ((home_space.owner_id ≡ bert)
      → mutation bert 1 false (leave_space bert 1 400) start ≡ err (conflict owner_must_stay))
    × ((home_space.owner_id ≢ bert)
        → (db' : Db) × (mutation bert 1 false (leave_space bert 1 400) start ≡ ok (tt, db'))
          × ¬ (Finds (member_filter 1 bert) db'.memberships))
leave_cases_example = leave_cases bert 1 400 home_space start start_book anna_found bert_joined

abbrev handed : Db
handed = state_of start (hand_over anna 1 bert 600 home_space start)

abbrev bert_owns : SpaceDto
bert_owns =
    value_of (to_dto home_space anna all_rights) (hand_over anna 1 bert 600 home_space start)

hand_over_runs : hand_over anna 1 bert 600 home_space start ≡ ok (bert_owns, handed)
unfolding space_machine
hand_over_runs = refl

hand_over_rights_example :
    (require_permission 1 bert transactions handed
      ≡ ok (record home_space { owner_id = bert }, handed))
    × (require_permission 1 anna transactions handed ≡ err (forbidden space_permission_required))
hand_over_rights_example =
    hand_over_rights anna 1 bert 600 home_space bert_owns start handed start_book anna_found refl
      hand_over_runs transactions
