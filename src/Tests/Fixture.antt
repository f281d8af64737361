-- ===== src/Tests/Fixture.antt =====
-- A small database: a space with its owner and a member, two accounts of one currency that were
-- opened in January 1970, and a category.
use babki_back.Prelude.{ℕ, ◌*◌, true, false, none, some, [], ◌∷◌}
use babki_back.Prelude.Int.{pos}
use babki_back.Dates.{Date}
use babki_back.Http.{Result, ok, err}
use babki_back.Schemas.{
  Db, Account, SpaceMembership, SpacePermissions, ExpenseCategory, MembershipStatus, balance,
}
use babki_back.Budget.{BudgetContext, space_budget}

abbrev pub day : ℕ → Date
day n = n * 86400000

abbrev pub home : BudgetContext
home = space_budget 1

abbrev pub anna : ℕ
anna = 11

abbrev pub bert : ℕ
bert = 12

abbrev pub all_rights : SpacePermissions
all_rights = record {
  manage_accounts = true;
  manage_categories = true;
  manage_limits = true;
  manage_transactions = true;
}

abbrev pub no_rights : SpacePermissions
no_rights = record {
  manage_accounts = false;
  manage_categories = false;
  manage_limits = false;
  manage_transactions = false;
}

abbrev pub member : ℕ → ℕ → SpacePermissions → SpaceMembership
member id user_id permissions = record {
  id = id;
  space_id = 1;
  user_id = user_id;
  status = MembershipStatus.active;
  joined_at = 0;
  permissions = permissions;
  ended_at = none;
  end_reason = none;
}

-- An account with a thousand units of currency 3.
abbrev pub account : ℕ → Account
account id = record {
  id = id;
  space_id = 1;
  mutation_version = 0;
  archived_at = none;
  name = some "account";
  currency = some 3;
  initial_amount = some (pos 1000000000);
  opened_at = some (day 2);
  kind = balance;
}

abbrev pub food : ExpenseCategory
food = record {
  id = 31;
  space_id = 1;
  name = "food";
  is_archived = false;
  description = none;
  color = none;
  mutation_version = 0;
}

abbrev pub start : Db
start = record {
  spaces =
      record {
        id = 1;
        name = "home";
        description = none;
        owner_id = 11;
        deleted_at = none;
        mutation_version = 0;
      }
      ∷ [];
  memberships = member 41 anna all_rights ∷ member 42 bert no_rights ∷ [];
  accounts = account 21 ∷ account 22 ∷ [];
  snapshots = [];
  transactions = [];
  categories = food ∷ [];
  plans = [];
  debts = [];
  repayments = [];
  limits = [];
  events = [];
  invitations = [];
  users = [];
  deletion_jobs = [];
  challenges = [];
  two_factors = [];
  rate_limits = [];
  audit_events = [];
}

-- The database and the value that an action leaves.
abbrev pub state_of {ℓ} : {A : Type ℓ} → Db → Result (A × Db) → Db
state_of db (ok (a, db')) = db'
state_of db (err e) = db

abbrev pub value_of {ℓ} : {A : Type ℓ} → A → Result (A × Db) → A
value_of d (ok (a, db)) = a
value_of d (err e) = d
