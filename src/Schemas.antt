-- ===== src/Schemas.antt =====
-- The documents of the collections (src/modules/*/schemas). Time stamps that Mongoose keeps, and
-- fields that no code under study reads or writes, are left out.
mod Ids
mod Spaces
mod Auth
pub use Ids.*
pub use Spaces.*
pub use Auth.*
use babki_back.Prelude.{ℕ, Bool, Option, List}
use babki_back.Money.{Amount, Currency}
use babki_back.Dates.{Date}

pub data AccountType : Type 0 where
  balance saving : AccountType

pub record Account : Type 0 where
  pub id : ObjectId
  pub space_id : ObjectId
  pub mutation_version : ℕ
  pub archived_at : Option Date
  pub name : Option Text
  pub currency : Option Currency
  pub initial_amount : Option Amount
  pub opened_at : Option Date
  pub kind : AccountType

pub record AccountSnapshot : Type 0 where
  pub id : ObjectId
  pub account_id : ObjectId
  pub amount : Amount
  pub date : Date

pub data TransactionOrigin : Type 0 where
  plan debt : ObjectId → TransactionOrigin

pub record ExpenseItem : Type 0 where
  pub name : Text
  pub price : Amount
  pub quantity : ℕ

-- The fields that an income and an expense share.
pub record Posting : Type 0 where
  pub account_id : ObjectId
  pub snapshot_id : ObjectId
  pub amount : Amount
  pub currency : Option Currency

pub record ExpenseDetail : Type 0 where
  pub participant_id : ObjectId
  pub category : ObjectId
  pub merchant : Option Text
  pub items : List ExpenseItem

pub record TransferEffect : Type 0 where
  pub account_id : ObjectId
  pub snapshot_id : ObjectId
  pub amount : Amount
  pub currency : Currency

-- The discriminator `type` with the fields of each kind.
pub data TransactionDetail : Type 0 where
  income : Posting → TransactionDetail
  expense : Posting → ExpenseDetail → TransactionDetail
  transfer : TransferEffect → TransferEffect → TransactionDetail

pub record Transaction : Type 0 where
  pub id : ObjectId
  pub space_id : ObjectId
  pub created_by : ObjectId
  pub deleted_at : Option Date
  pub deleted_by : Option ObjectId
  pub origin : Option TransactionOrigin
  pub transaction_date : Date
  pub description : Option Text
  pub detail : TransactionDetail

pub record ExpenseCategory : Type 0 where
  pub id : ObjectId
  pub space_id : ObjectId
  pub name : Text
  pub is_archived : Bool
  pub description : Option Text
  pub color : Option Text
  pub mutation_version : ℕ

pub data Status : Type 0 where
  active closed : Status

pub record Plan : Type 0 where
  pub id : ObjectId
  pub space_id : ObjectId
  pub created_by : ObjectId
  pub description : Text
  pub target_date : Date
  pub amount : Amount
  pub currency : Currency
  pub category_id : ObjectId
  pub status : Status
  pub archived_at : Option Date
  pub closed_at : Option Date
  pub expense_id : Option ObjectId

pub record Debt : Type 0 where
  pub id : ObjectId
  pub space_id : ObjectId
  pub created_by : ObjectId
  pub debtor : Text
  pub principal_amount : Amount
  pub remaining_amount : Amount
  pub currency : Currency
  pub description : Option Text
  pub due_date : Option Date
  pub status : Status
  pub archived_at : Option Date

pub record DebtTransaction : Type 0 where
  pub id : ObjectId
  pub space_id : ObjectId
  pub created_by : ObjectId
  pub debt_id : ObjectId
  pub amount : Amount
  pub transaction_date : Date
  pub is_income : Option Bool
  pub income_id : Option ObjectId
  pub cancelled_at : Option Date
  pub cancelled_by : Option ObjectId
  pub description : Option Text

pub record ExpenseLimit : Type 0 where
  pub id : ObjectId
  pub space_id : ObjectId
  pub category : ObjectId
  pub start_date : Date
  pub end_date : Date
  pub total : Amount
  pub currency : Option Currency

-- The collections.
pub record Db : Type 0 where
  pub spaces : List Space
  pub memberships : List SpaceMembership
  pub accounts : List Account
  pub snapshots : List AccountSnapshot
  pub transactions : List Transaction
  pub categories : List ExpenseCategory
  pub plans : List Plan
  pub debts : List Debt
  pub repayments : List DebtTransaction
  pub limits : List ExpenseLimit
  pub events : List SpaceMembershipEvent
  pub invitations : List SpaceInvitation
  pub users : List User
  pub deletion_jobs : List UserDeletionJob
  pub challenges : List AuthChallenge
  pub two_factors : List UserTwoFactor
  pub rate_limits : List AuthRateLimit
  pub audit_events : List SecurityAuditEvent
