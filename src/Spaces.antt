-- ===== src/Spaces.antt =====
-- Spaces and their members (src/modules/spaces/spaces.service.ts): requests, and the documents
-- that the operations write.
pub mod Actions
pub mod Service
pub mod Book
pub mod Changes
pub mod Delete
pub mod Started
pub mod Keeps
pub mod Ownership
pub mod Invitations
pub mod Accept
pub mod Joined
pub mod Invited
pub mod Leave
pub mod Rights
pub mod History
use babki_back.Prelude.{
  ◌+◌, Bool, true, false, ◌&&◌, ◌||◌, not, Option, none, some, [], ◌∷◌, ◌==◌, is_some, get_or,
  if◌then◌else◌,
}
use babki_back.Dates.{Date}
use babki_back.Mongo.{Mongo}
use babki_back.Http.{
  Result, err, bad_request, not_found, conflict, empty_update, member_not_found, owner_must_stay,
  already_owner, owner_permissions_fixed, cannot_remove_owner,
}
use babki_back.Schemas.{
  Db, ObjectId, Text, Space, SpacePermissions, SpaceMembership, MembershipStatus,
  MembershipEndReason, SpaceMembershipEvent, MembershipEventKind, PermissionReset, SpaceInvitation,
  InvitationStatus, InvitationRevocationReason, permissions_updated, ownership_transferred,
}
use babki_back.Tables
use babki_back.Access.{
  Transactions, effective_permissions, is_active, space_filter, member_filter, require_member,
  require_owner, member_context, serialize_mutation, run_transaction,
}
use babki_back.Session.{
  Action, pure, or_raise, raise_if, ◌>>=◌, ◌>>◌, find_one, exists, create, update_one, update_many,
}

pub record CreateSpace : Type 0 where
  pub name : Text
  pub description : Option Text

pub record UpdateSpace : Type 0 where
  pub name : Option Text
  pub description : Option Text

-- The permissions to change; an absent one is left alone.
pub record UpdateSpacePermissions : Type 0 where
  pub manage_accounts : Option Bool
  pub manage_categories : Option Bool
  pub manage_limits : Option Bool
  pub manage_transactions : Option Bool

pub data Role : Type 0 where
  owner member : Role

pub record SpaceDto : Type 0 where
  pub id : ObjectId
  pub name : Text
  pub description : Option Text
  pub owner_id : ObjectId
  pub role : Role
  pub permissions : SpacePermissions

unfoldable pub to_dto : Space → ObjectId → SpacePermissions → SpaceDto
to_dto space user_id permissions = record {
  id = space.id;
  name = space.name;
  description = space.description;
  owner_id = space.owner_id;
  role = if space.owner_id == user_id then owner else member;
  permissions = permissions;
}

-- No permission is granted.
unfoldable pub no_permissions : SpacePermissions
no_permissions = record {
  manage_accounts = false;
  manage_categories = false;
  manage_limits = false;
  manage_transactions = false;
}

-- `Object.values(dto).every((value) => value === undefined)`
unfoldable pub changes_nothing : UpdateSpacePermissions → Bool
changes_nothing dto = not (
    is_some dto.manage_accounts
    || is_some dto.manage_categories
    || is_some dto.manage_limits
    || is_some dto.manage_transactions)

-- The loop over the keys of `before`.
unfoldable pub changed_permissions : UpdateSpacePermissions → SpacePermissions → SpacePermissions
changed_permissions dto before = record {
  manage_accounts = get_or dto.manage_accounts before.manage_accounts;
  manage_categories = get_or dto.manage_categories before.manage_categories;
  manage_limits = get_or dto.manage_limits before.manage_limits;
  manage_transactions = get_or dto.manage_transactions before.manage_transactions;
}

unfoldable pub space_document : ObjectId → CreateSpace → ObjectId → Space
space_document user_id dto id = record {
  id = id;
  name = dto.name;
  description = dto.description;
  owner_id = user_id;
  deleted_at = none;
  mutation_version = 0;
}

unfoldable pub owner_membership : ObjectId → ObjectId → Date → ObjectId → SpaceMembership
unfolding no_permissions
owner_membership space_id user_id now id = record {
  id = id;
  space_id = space_id;
  user_id = user_id;
  status = MembershipStatus.active;
  joined_at = now;
  permissions = no_permissions;
  ended_at = none;
  end_reason = none;
}

unfoldable pub renamed : UpdateSpace → Space → Space
renamed dto s = record s {
  name = get_or dto.name s.name;
  description = elim dto.description [ none ↦ s.description | some d ↦ some d ];
}

unfoldable pub set_permissions : SpacePermissions → SpaceMembership → SpaceMembership
set_permissions permissions x = record x { permissions = permissions }

unfoldable pub ended :
    MembershipStatus → Date → MembershipEndReason → SpaceMembership → SpaceMembership
ended status now reason x = record x {
  status = status;
  ended_at = some now;
  end_reason = some reason;
}

-- `{ spaceId, status: 'active' }`
unfoldable pub active_in : ObjectId → SpaceMembership → Bool
active_in space_id x = x.space_id == space_id && is_active x.status

unfoldable pub is_pending : InvitationStatus → Bool
is_pending InvitationStatus.pending = true
is_pending InvitationStatus.accepted = false
is_pending InvitationStatus.revoked = false

-- `{ spaceId, status: 'pending' }`
unfoldable pub pending_in : ObjectId → SpaceInvitation → Bool
unfolding is_pending
pending_in space_id i = i.space_id == space_id && is_pending i.status

unfoldable pub revoked_with_space : ObjectId → Date → SpaceInvitation → SpaceInvitation
revoked_with_space user_id now i = record i {
  status = InvitationStatus.revoked;
  revoked_at = some now;
  revoked_by = some user_id;
  revocation_reason = some InvitationRevocationReason.space_deleted;
}

-- `event` and the record that a transfer of ownership leaves.
unfoldable pub event_document :
    ObjectId
    → ObjectId
    → ObjectId
    → MembershipEventKind
    → Date
    → Option (SpacePermissions × SpacePermissions)
    → ObjectId
    → SpaceMembershipEvent
event_document space_id user_id actor_id kind occurred_at permissions id = record {
  id = id;
  space_id = space_id;
  user_id = user_id;
  actor_id = actor_id;
  kind = kind;
  target_user_id = some user_id;
  before = elim permissions [ none ↦ none | some (b, a) ↦ some b ];
  after = elim permissions [ none ↦ none | some (b, a) ↦ some a ];
  permission_resets = [];
  occurred_at = occurred_at;
  previous_owner_id = none;
  new_owner_id = none;
}

unfoldable pub transfer_event :
    ObjectId
    → ObjectId
    → ObjectId
    → SpacePermissions
    → SpacePermissions
    → Date
    → ObjectId
    → SpaceMembershipEvent
unfolding no_permissions
transfer_event space_id user_id actor_id previous next now id = record {
  id = id;
  space_id = space_id;
  user_id = user_id;
  actor_id = actor_id;
  kind = ownership_transferred;
  target_user_id = none;
  before = none;
  after = none;
  permission_resets =
      record { user_id = actor_id; before = previous; after = no_permissions }
      ∷ record { user_id = user_id; before = next; after = no_permissions }
      ∷ [];
  occurred_at = now;
  previous_owner_id = some actor_id;
  new_owner_id = some user_id;
}
