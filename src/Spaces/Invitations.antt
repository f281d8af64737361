-- ===== src/Spaces/Invitations.antt =====
-- Invitations to spaces (src/modules/spaces/space-invitations.service.ts).
use babki_back.Prelude.{
  ◌+◌, ◌*◌, Bool, false, ◌&&◌, not, none, some, List, [], ◌||◌, ◌==◌, is_some, leb, ltb, map,
  if◌then◌else◌,
}
use babki_back.Dates.{Date, day_ms}
use babki_back.Mongo.{Mongo}
use babki_back.Http.{
  Exception, Result, ok, err, bad_request, not_found, conflict, forbidden, service_unavailable,
  other_error, invalid_invitation, invitation_not_found, invitation_not_pending, already_member,
}
use babki_back.Schemas.{
  Db, ObjectId, Text, Token, Digest, Space, SpaceMembership, MembershipStatus, SpaceInvitation,
  InvitationStatus, SpaceMembershipEvent, MembershipEventKind,
}
use babki_back.Tables
use babki_back.Access.{
  Transactions, effective_permissions, space_filter, member_filter, require_owner,
  serialize_mutation, run_transaction,
}
use babki_back.Spaces.{Role, member, no_permissions, is_pending}
use babki_back.Session.{
  Action, pure, or_raise, raise_if, ◌>>=◌, ◌>>◌, find_one, exists, create, update_one,
}

-- `createHash('sha256')`, of the runtime.
pub record Hash : Type 0 where
  pub digest : Token → Digest

pub record IssuedInvitation : Type 0 where
  pub id : ObjectId
  pub token : Token
  pub expires_at : Date

pub record Accepted : Type 0 where
  pub space_id : ObjectId
  pub role : Role

pub record InvitationPreview : Type 0 where
  pub name : Text
  pub expires_at : Date

-- `{ tokenDigest, status: 'pending', expiresAt: { $gt: now } }`
unfoldable pub token_filter : Digest → Date → SpaceInvitation → Bool
unfolding is_pending
token_filter digest now i = i.token_digest == digest && is_pending i.status && ltb now i.expires_at

-- `{ _id, status: 'pending', expiresAt: { $gt: now } }`
unfoldable pub acceptable : ObjectId → Date → SpaceInvitation → Bool
unfolding is_pending
acceptable id now i = i.id == id && is_pending i.status && ltb now i.expires_at

unfoldable pub invitation_document :
    ObjectId → ObjectId → Digest → Date → ObjectId → SpaceInvitation
invitation_document space_id user_id digest expires_at id = record {
  id = id;
  space_id = space_id;
  created_by = user_id;
  token_digest = digest;
  expires_at = expires_at;
  status = InvitationStatus.pending;
  accepted_by = none;
  accepted_at = none;
  revoked_by = none;
  revoked_at = none;
  revocation_reason = none;
}

unfoldable pub mark_accepted : ObjectId → Date → SpaceInvitation → SpaceInvitation
mark_accepted user_id now i = record i {
  status = InvitationStatus.accepted;
  accepted_by = some user_id;
  accepted_at = some now;
}

unfoldable pub mark_revoked : ObjectId → Date → SpaceInvitation → SpaceInvitation
mark_revoked user_id now i = record i {
  status = InvitationStatus.revoked;
  revoked_by = some user_id;
  revoked_at = some now;
}

-- The membership that is updated has no end any more; the reason of its end stays.
unfoldable pub rejoined : Date → SpaceMembership → SpaceMembership
unfolding effective_permissions no_permissions
rejoined now x = record x {
  status = MembershipStatus.active;
  joined_at = now;
  permissions = effective_permissions false no_permissions;
  ended_at = none;
}

unfoldable pub joined_document : ObjectId → ObjectId → Date → ObjectId → SpaceMembership
unfolding effective_permissions no_permissions
joined_document space_id user_id now id = record {
  id = id;
  space_id = space_id;
  user_id = user_id;
  status = MembershipStatus.active;
  joined_at = now;
  permissions = effective_permissions false no_permissions;
  ended_at = none;
  end_reason = none;
}

unfoldable pub joined_event : ObjectId → ObjectId → Date → ObjectId → SpaceMembershipEvent
joined_event space_id user_id now id = record {
  id = id;
  space_id = space_id;
  user_id = user_id;
  actor_id = user_id;
  kind = MembershipEventKind.joined;
  target_user_id = none;
  before = none;
  after = none;
  permission_resets = [];
  occurred_at = now;
  previous_owner_id = none;
  new_owner_id = none;
}

-- `{ spaceId, userId }`
unfoldable pub any_member : ObjectId → ObjectId → SpaceMembership → Bool
any_member space_id user_id x = x.space_id == space_id && x.user_id == user_id

-- The `catch` in `accept`.
unfoldable pub hide_missing : Exception → Exception
hide_missing (not_found msg) = bad_request invalid_invitation
hide_missing (bad_request msg) = bad_request msg
hide_missing (conflict msg) = conflict msg
hide_missing (forbidden msg) = forbidden msg
hide_missing (service_unavailable msg) = service_unavailable msg
hide_missing other_error = other_error

module _ ⦃m : Mongo⦄ where
  -- `updateOne` with `upsert`: the memberships after it.
  unfoldable pub joined_members :
      ObjectId → ObjectId → Date → List SpaceMembership → List SpaceMembership
  joined_members space_id user_id now c =
      if is_some (m.find_one (any_member space_id user_id) c)
      then m.update_one (any_member space_id user_id) (rejoined now) c
      else m.insert (joined_document space_id user_id now (m.object_id (map (λ x. x.id) c))) c

  unfoldable pub join : ObjectId → ObjectId → Date → Action (Unit {0})
  join space_id user_id now db =
      ok (tt, record db { memberships = joined_members space_id user_id now db.memberships })

  unfoldable pub serialize_or_invalid : ObjectId → Action Space
  unfolding serialize_mutation
  serialize_or_invalid space_id db = elim (serialize_mutation space_id db) [
    | ok r ↦ ok r
    | err e ↦ err (hide_missing e)
  ]

  -- `accept`, from the second look at the invitation on.
  unfoldable pub admit : ObjectId → ObjectId → SpaceInvitation → Date → Action Accepted
  unfolding join
  admit user_id space_id i now = do
    is_member ← exists Tables.memberships (member_filter space_id user_id)
    raise_if is_member (conflict already_member)
    matched ← update_one Tables.invitations (acceptable i.id now) (mark_accepted user_id now)
    raise_if (not matched) (bad_request invalid_invitation)
    join space_id user_id now
    create Tables.events (λ e. e.id) (joined_event space_id user_id now)
    pure (record { space_id = space_id; role = member })

  module _ ⦃hash : Hash⦄ where
    unfoldable pub pending_invitation : Token → Date → Action SpaceInvitation
    pending_invitation token now = do
      found ← find_one Tables.invitations (token_filter (hash.digest token) now)
      or_raise found (bad_request invalid_invitation)

    unfoldable pub create_invitation : ObjectId → ObjectId → Token → Date → Action IssuedInvitation
    unfolding require_owner serialize_mutation
    create_invitation user_id space_id token now = do
      serialize_mutation space_id
      require_owner space_id user_id
      let expires_at = now + 7 * day_ms
      i ←
          create Tables.invitations (λ x. x.id)
            (invitation_document space_id user_id (hash.digest token) expires_at)
      pure (record { id = i.id; token = token; expires_at = expires_at })

    unfoldable pub revoke_invitation : ObjectId → ObjectId → ObjectId → Date → Action (Unit {0})
    unfolding require_owner serialize_mutation
    revoke_invitation user_id space_id invitation_id now = do
      serialize_mutation space_id
      require_owner space_id user_id
      found ← find_one Tables.invitations (λ i. i.id == invitation_id && i.space_id == space_id)
      i ← or_raise found (not_found invitation_not_found)
      raise_if (not (is_pending i.status) || leb i.expires_at now) (conflict invitation_not_pending)
      update_one Tables.invitations (λ x. x.id == invitation_id && is_pending x.status)
          (mark_revoked user_id now)
      pure tt

    unfoldable pub preview_invitation : Token → Date → Action InvitationPreview
    unfolding pending_invitation
    preview_invitation token now = do
      i ← pending_invitation token now
      found ← find_one Tables.spaces (space_filter i.space_id)
      space ← or_raise found (bad_request invalid_invitation)
      pure (record { name = space.name; expires_at = i.expires_at })

    -- The clock is read three times.
    unfoldable pub accept_invitation : ObjectId → Token → Date → Date → Date → Action Accepted
    unfolding pending_invitation serialize_or_invalid admit
    accept_invitation user_id token early late now = do
      found ← pending_invitation token early
      serialize_or_invalid found.space_id
      i ← pending_invitation token late
      admit user_id found.space_id i now

    module _ ⦃t : Transactions⦄ where
      unfoldable pub invite : ObjectId → ObjectId → Token → Date → Db → Result IssuedInvitation × Db
      unfolding run_transaction create_invitation
      invite user_id space_id token now =
          run_transaction (create_invitation user_id space_id token now)

      unfoldable pub revoke : ObjectId → ObjectId → ObjectId → Date → Db → Result (Unit {0}) × Db
      unfolding run_transaction revoke_invitation
      revoke user_id space_id invitation_id now =
          run_transaction (revoke_invitation user_id space_id invitation_id now)

      unfoldable pub preview : Token → Date → Db → Result InvitationPreview × Db
      unfolding run_transaction preview_invitation
      preview token now = run_transaction (preview_invitation token now)

      unfoldable pub accept : ObjectId → Token → Date → Date → Date → Db → Result Accepted × Db
      unfolding run_transaction accept_invitation
      accept user_id token early late now =
          run_transaction (accept_invitation user_id token early late now)
