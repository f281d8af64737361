-- ===== src/Tables.antt =====
-- The collections as the models of the services name them.
use babki_back.Prelude.{List}
use babki_back.Schemas.{
  Db, Space, SpaceMembership, Account, AccountSnapshot, Transaction, ExpenseCategory, Plan, Debt,
  DebtTransaction, ExpenseLimit, SpaceMembershipEvent, SpaceInvitation, User, UserDeletionJob,
  AuthChallenge, UserTwoFactor, AuthRateLimit, SecurityAuditEvent,
}

-- One collection of the database, to read and to replace.
pub record Table (D : Type 0) : Type 0 where
  pub rows : Db → List D
  pub put : List D → Db → Db

abbrev pub spaces : Table Space
spaces = record { rows = λ db. db.spaces; put = λ c db. record db { spaces = c } }

abbrev pub memberships : Table SpaceMembership
memberships = record { rows = λ db. db.memberships; put = λ c db. record db { memberships = c } }

abbrev pub accounts : Table Account
accounts = record { rows = λ db. db.accounts; put = λ c db. record db { accounts = c } }

abbrev pub snapshots : Table AccountSnapshot
snapshots = record { rows = λ db. db.snapshots; put = λ c db. record db { snapshots = c } }

abbrev pub transactions : Table Transaction
transactions = record { rows = λ db. db.transactions; put = λ c db. record db { transactions = c } }

abbrev pub categories : Table ExpenseCategory
categories = record { rows = λ db. db.categories; put = λ c db. record db { categories = c } }

abbrev pub plans : Table Plan
plans = record { rows = λ db. db.plans; put = λ c db. record db { plans = c } }

abbrev pub debts : Table Debt
debts = record { rows = λ db. db.debts; put = λ c db. record db { debts = c } }

abbrev pub repayments : Table DebtTransaction
repayments = record { rows = λ db. db.repayments; put = λ c db. record db { repayments = c } }

abbrev pub limits : Table ExpenseLimit
limits = record { rows = λ db. db.limits; put = λ c db. record db { limits = c } }

abbrev pub events : Table SpaceMembershipEvent
events = record { rows = λ db. db.events; put = λ c db. record db { events = c } }

abbrev pub invitations : Table SpaceInvitation
invitations = record { rows = λ db. db.invitations; put = λ c db. record db { invitations = c } }

abbrev pub users : Table User
users = record { rows = λ db. db.users; put = λ c db. record db { users = c } }

abbrev pub deletion_jobs : Table UserDeletionJob
deletion_jobs = record {
  rows = λ db. db.deletion_jobs;
  put = λ c db. record db { deletion_jobs = c };
}

abbrev pub challenges : Table AuthChallenge
challenges = record { rows = λ db. db.challenges; put = λ c db. record db { challenges = c } }

abbrev pub two_factors : Table UserTwoFactor
two_factors = record { rows = λ db. db.two_factors; put = λ c db. record db { two_factors = c } }

abbrev pub rate_limits : Table AuthRateLimit
rate_limits = record { rows = λ db. db.rate_limits; put = λ c db. record db { rate_limits = c } }

abbrev pub audit_events : Table SecurityAuditEvent
audit_events = record { rows = λ db. db.audit_events; put = λ c db. record db { audit_events = c } }
