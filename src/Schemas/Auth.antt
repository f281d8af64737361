-- ===== src/Schemas/Auth.antt =====
-- Users, the deletion of their accounts, and what authentication keeps
-- (src/modules/users/schemas, src/modules/auth/schemas).
use babki_back.Prelude.{ℕ, Option, List}
use babki_back.Dates.{Date}
use babki_back.Schemas.Ids.{ObjectId, Text, Digest}

pub data UserStatus : Type 0 where
  active deletion_pending deleted : UserStatus

-- A text that the tombstone takes away is missing afterwards.
pub record User : Type 0 where
  pub id : ObjectId
  pub status : UserStatus
  pub deleted_at : Option Date
  pub first_name : Option Text
  pub last_name : Option Text
  pub email : Option Text
  pub password_hash : Option Digest
  pub auth_version : ℕ
  pub description : Option Text

pub data UserDeletionStage : Type 0 where
  memberships auth_data tombstone completed : UserDeletionStage

pub record UserDeletionJob : Type 0 where
  pub id : ObjectId
  pub user_id : ObjectId
  pub stage : UserDeletionStage
  pub lease_owner : Option ObjectId
  pub lease_expires_at : Option Date
  pub attempts : ℕ
  -- The stage of which the last error says that it failed.
  pub last_error : Option UserDeletionStage
  pub requested_at : Date
  pub completed_at : Option Date

pub record AuthChallenge : Type 0 where
  pub id : ObjectId
  pub token_digest : Digest
  pub user_id : ObjectId
  pub auth_version : ℕ
  pub failed_attempts : ℕ
  pub expires_at : Date
  pub consumed_at : Option Date

pub data TwoFactorStatus : Type 0 where
  pending enabled : TwoFactorStatus

-- What the cipher makes of a secret.
pub record EncryptedSecretEnvelope : Type 0 where
  pub key_id : ObjectId
  pub iv : Digest
  pub ciphertext : Digest
  pub auth_tag : Digest

pub record RecoveryCodeDigest : Type 0 where
  pub key_id : ObjectId
  pub digest : Digest

pub record UserTwoFactor : Type 0 where
  pub id : ObjectId
  pub user_id : ObjectId
  pub status : TwoFactorStatus
  pub secret_envelope : EncryptedSecretEnvelope
  pub pending_expires_at : Option Date
  pub recovery_codes : List RecoveryCodeDigest
  pub last_accepted_time_step : Option ℕ
  pub failed_window_started_at : Option Date
  pub failed_attempts : ℕ
  pub blocked_until : Option Date

pub data AuthRateLimitScope : Type 0 where
  password_email password_ip : AuthRateLimitScope

pub record AuthRateLimit : Type 0 where
  pub id : ObjectId
  pub scope : AuthRateLimitScope
  pub subject_digest : Digest
  pub window_started_at : Date
  pub failed_attempts : ℕ
  pub blocked_until : Option Date
  pub expires_at : Date

pub data SecurityAuditEventType : Type 0 where
  enrolled disabled blocked recovery_code_used recovery_codes_regenerated : SecurityAuditEventType

pub record SecurityRequestContext : Type 0 where
  pub ip : Option Text
  pub user_agent : Option Text

pub record SecurityAuditEvent : Type 0 where
  pub id : ObjectId
  pub user_id : ObjectId
  pub kind : SecurityAuditEventType
  pub context : SecurityRequestContext
