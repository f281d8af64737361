-- ===== src/Schemas/Spaces.antt =====
-- Spaces, their members, and what the members' history records (src/modules/spaces/schemas).
use babki_back.Prelude.{ℕ, Bool, Option, List}
use babki_back.Dates.{Date}
use babki_back.Schemas.Ids.{ObjectId, Text, Digest}

pub record Space : Type 0 where
  pub id : ObjectId
  pub name : Text
  pub description : Option Text
  pub owner_id : ObjectId
  pub deleted_at : Option Date
  pub mutation_version : ℕ

pub record SpacePermissions : Type 0 where
  pub manage_accounts : Bool
  pub manage_categories : Bool
  pub manage_limits : Bool
  pub manage_transactions : Bool

pub data MembershipStatus : Type 0 where
  active left removed : MembershipStatus

pub data MembershipEndReason : Type 0 where
  member_left member_removed space_deleted user_deleted : MembershipEndReason

pub record SpaceMembership : Type 0 where
  pub id : ObjectId
  pub space_id : ObjectId
  pub user_id : ObjectId
  pub status : MembershipStatus
  pub joined_at : Date
  pub permissions : SpacePermissions
  pub ended_at : Option Date
  pub end_reason : Option MembershipEndReason

pub data MembershipEventKind : Type 0 where
  permissions_updated joined left removed ownership_transferred space_deleted : MembershipEventKind

pub record PermissionReset : Type 0 where
  pub user_id : ObjectId
  pub before : SpacePermissions
  pub after : SpacePermissions

pub record SpaceMembershipEvent : Type 0 where
  pub id : ObjectId
  pub space_id : ObjectId
  pub user_id : ObjectId
  pub actor_id : ObjectId
  pub kind : MembershipEventKind
  pub target_user_id : Option ObjectId
  pub before : Option SpacePermissions
  pub after : Option SpacePermissions
  pub permission_resets : List PermissionReset
  pub occurred_at : Date
  pub previous_owner_id : Option ObjectId
  pub new_owner_id : Option ObjectId

pub data InvitationStatus : Type 0 where
  pending accepted revoked : InvitationStatus

pub data InvitationRevocationReason : Type 0 where
  manual space_deleted : InvitationRevocationReason

pub record SpaceInvitation : Type 0 where
  pub id : ObjectId
  pub space_id : ObjectId
  pub created_by : ObjectId
  pub token_digest : Digest
  pub expires_at : Date
  pub status : InvitationStatus
  pub accepted_by : Option ObjectId
  pub accepted_at : Option Date
  pub revoked_by : Option ObjectId
  pub revoked_at : Option Date
  pub revocation_reason : Option InvitationRevocationReason
