-- ===== src/Spaces/Actions.antt =====
-- What each operation on a space does in its transaction
-- (src/modules/spaces/spaces.service.ts).
use babki_back.Prelude.{Bool, true, false, not, Option, none, some, ◌==◌, if◌then◌else◌}
use babki_back.Dates.{Date}
use babki_back.Mongo.{Mongo}
use babki_back.Http.{
  not_found, conflict, member_not_found, owner_must_stay, already_owner, owner_permissions_fixed,
  cannot_remove_owner,
}
use babki_back.Schemas.{
  ObjectId, Space, SpacePermissions, SpaceMembership, MembershipStatus, MembershipEndReason,
  SpaceMembershipEvent, MembershipEventKind, permissions_updated,
}
use babki_back.Tables
use babki_back.Access.{
  effective_permissions, member_filter, require_member, require_owner, member_context,
  serialize_mutation,
}
use babki_back.Session.{
  Action, pure, or_raise, raise_if, ◌>>=◌, ◌>>◌, find_one, exists, create, update_one, update_many,
}
use babki_back.Spaces.{
  CreateSpace, UpdateSpace, UpdateSpacePermissions, SpaceDto, to_dto, no_permissions,
  changed_permissions, space_document, owner_membership, renamed, set_permissions, ended, active_in,
  pending_in, revoked_with_space, event_document, transfer_event,
}

module _ ⦃m : Mongo⦄ where
  unfoldable pub event :
      ObjectId
      → ObjectId
      → ObjectId
      → MembershipEventKind
      → Date
      → Option (SpacePermissions × SpacePermissions)
      → Action SpaceMembershipEvent
  event space_id user_id actor_id kind occurred_at permissions =
      create Tables.events (λ e. e.id)
        (event_document space_id user_id actor_id kind occurred_at permissions)

  -- `space.save`
  unfoldable pub save_space : Space → (Space → Space) → Action Space
  save_space space f = do update_one Tables.spaces (λ s. s.id == space.id) f; pure (f space)

  -- `member.save` after its permissions are set
  unfoldable pub save_permissions : SpaceMembership → SpacePermissions → Action Bool
  unfolding set_permissions
  save_permissions x permissions =
      update_one Tables.memberships (λ y. y.id == x.id) (set_permissions permissions)

  unfoldable pub reset_permissions : ObjectId → ObjectId → Action SpacePermissions
  unfolding save_permissions no_permissions
  reset_permissions space_id user_id = do
    found ← find_one Tables.memberships (member_filter space_id user_id)
    x ← or_raise found (not_found member_not_found)
    save_permissions x (effective_permissions false no_permissions)
    pure (effective_permissions false x.permissions)

  -- What `mutate` does in its transaction.
  unfoldable pub mutation :
      {A : Type 0} → ObjectId → ObjectId → Bool → (Space → Action A) → Action A
  unfolding require_owner require_member serialize_mutation
  mutation user_id space_id owner_only callback = do
    serialize_mutation space_id
    space ← if owner_only then require_owner space_id user_id else require_member space_id user_id
    callback space

  unfoldable pub create_space : ObjectId → CreateSpace → Date → Action SpaceDto
  unfolding to_dto event
  create_space user_id dto now = do
    space ← create Tables.spaces (λ s. s.id) (space_document user_id dto)
    create Tables.memberships (λ x. x.id) (owner_membership space.id user_id now)
    event space.id user_id user_id MembershipEventKind.joined now none
    pure (to_dto space user_id (effective_permissions true no_permissions))

  unfoldable pub find_space : ObjectId → ObjectId → Action SpaceDto
  unfolding to_dto member_context
  find_space user_id space_id = do
    (space, permissions) ← member_context space_id user_id
    pure (to_dto space user_id permissions)

  unfoldable pub update_space : ObjectId → UpdateSpace → Space → Action SpaceDto
  unfolding to_dto save_space
  update_space user_id dto space = do
    saved ← save_space space (renamed dto)
    pure (to_dto saved user_id (effective_permissions true no_permissions))

  unfoldable pub remove_space : ObjectId → ObjectId → Date → Space → Action (Unit {0})
  unfolding save_space event
  remove_space user_id space_id now space = do
    save_space space (λ s. record s { deleted_at = some now })
    update_many Tables.memberships (active_in space_id)
        (ended MembershipStatus.removed now MembershipEndReason.space_deleted)
    update_many Tables.invitations (pending_in space_id) (revoked_with_space user_id now)
    event space_id user_id user_id MembershipEventKind.space_deleted now none
    pure tt

  unfoldable pub change_permissions :
      ObjectId
      → ObjectId
      → ObjectId
      → UpdateSpacePermissions
      → Date
      → Space
      → Action SpacePermissions
  unfolding save_permissions event
  change_permissions actor_id space_id user_id dto now space = do
    raise_if (space.owner_id == user_id) (conflict owner_permissions_fixed)
    found ← find_one Tables.memberships (member_filter space_id user_id)
    x ← or_raise found (not_found member_not_found)
    let before = effective_permissions false x.permissions
    let after = changed_permissions dto before
    save_permissions x after
    event space_id user_id actor_id permissions_updated now (some (before, after))
    pure after

  unfoldable pub leave_space : ObjectId → ObjectId → Date → Space → Action (Unit {0})
  unfolding reset_permissions event
  leave_space user_id space_id now space = do
    raise_if (space.owner_id == user_id) (conflict owner_must_stay)
    before ← reset_permissions space_id user_id
    update_one Tables.memberships (member_filter space_id user_id)
        (ended MembershipStatus.left now MembershipEndReason.member_left)
    event space_id user_id user_id MembershipEventKind.left now
        (some (before, effective_permissions false no_permissions))
    pure tt

  unfoldable pub expel_member : ObjectId → ObjectId → ObjectId → Date → Space → Action (Unit {0})
  unfolding reset_permissions event
  expel_member actor_id space_id user_id now space = do
    raise_if (space.owner_id == user_id) (conflict cannot_remove_owner)
    before ← reset_permissions space_id user_id
    matched ←
        update_one Tables.memberships (member_filter space_id user_id)
          (ended MembershipStatus.removed now MembershipEndReason.member_removed)
    raise_if (not matched) (not_found member_not_found)
    event space_id user_id actor_id MembershipEventKind.removed now
        (some (before, effective_permissions false no_permissions))
    pure tt

  unfoldable pub hand_over : ObjectId → ObjectId → ObjectId → Date → Space → Action SpaceDto
  unfolding reset_permissions save_space to_dto
  hand_over actor_id space_id user_id now space = do
    raise_if (space.owner_id == user_id) (conflict already_owner)
    is_member ← exists Tables.memberships (member_filter space_id user_id)
    raise_if (not is_member) (not_found member_not_found)
    previous ← reset_permissions space_id actor_id
    next ← reset_permissions space_id user_id
    saved ← save_space space (λ s. record s { owner_id = user_id })
    create Tables.events (λ e. e.id) (transfer_event space_id user_id actor_id previous next now)
    pure (to_dto saved actor_id (effective_permissions false no_permissions))
