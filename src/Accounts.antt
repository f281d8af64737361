-- ===== src/Accounts.antt =====
-- Accounts (src/modules/accounts/accounts/accounts.service.ts). The list of snapshots in a response,
-- its time line, is not modelled.
pub mod Remove
use babki_back.Prelude.{
  ◌+◌, Bool, true, false, ◌&&◌, not, Option, none, some, ◌==◌, is_some, get_or,
}
use babki_back.Prelude.Int.{pos, eq_ℤ}
use babki_back.Prelude.Texts.{trim}
use babki_back.Money.{Amount, Currency, Intl, normalize_currency, has_valid_money_precision}
use babki_back.Dates.{Date, utc_month_end}
use babki_back.Mongo.{Mongo}
use babki_back.Http.{
  other_error, bad_request, not_found, conflict, amount_exceeds_precision, account_not_found,
  wallet_has_history,
}
use babki_back.Schemas.{ObjectId, Text, Account, AccountType, balance}
use babki_back.Budget.{BudgetContext, budget_filter}
use babki_back.Snapshots.{balance_for_budget, opening_for_budget}
use babki_back.Snapshots
use babki_back.Transactions.Defs.{has_history_for_budget}
use babki_back.Tables
use babki_back.Session.{
  Action, pure, or_raise, raise_if, ◌>>=◌, ◌>>◌, find_one, create, update_one, find_one_and_update,
  find_one_and_delete,
}

pub record CreateAccount : Type 0 where
  pub kind : Option AccountType
  pub name : Option Text
  pub currency : Option Currency
  pub amount : Option Amount
  pub opened_at : Option Date

pub record AccountResponse : Type 0 where
  pub account : Account
  pub amount : Amount

unfoldable pub account_document :
    BudgetContext → CreateAccount → Text → Currency → Date → ObjectId → Account
unfolding trim
account_document budget dto name currency now id = record {
  id = id;
  space_id = budget.space_id;
  mutation_version = 0;
  archived_at = none;
  name = some (trim name);
  currency = some currency;
  initial_amount = some (get_or dto.amount (pos 0));
  opened_at = some (get_or dto.opened_at now);
  kind = get_or dto.kind balance;
}

unfoldable pub renamed : Text → Account → Account
unfolding trim
renamed name a = record a { name = some (trim name) }

unfoldable pub archived : Date → Account → Account
archived now a = record a { archived_at = some now }

-- `{ _id, ...budgetFilter(budget) }`, archived or not
unfoldable pub account_filter : BudgetContext → ObjectId → Account → Bool
account_filter budget id a = a.id == id && budget_filter budget a.space_id

unfoldable pub unarchived_filter : BudgetContext → ObjectId → Account → Bool
unarchived_filter budget id a =
    a.id == id && budget_filter budget a.space_id && not (is_some a.archived_at)

-- `account.initialAmount !== 0`: an amount that is missing is not zero.
unfoldable pub has_initial_amount : Account → Bool
has_initial_amount a = elim a.initial_amount [ none ↦ true | some n ↦ not (eq_ℤ n (pos 0)) ]

module _ ⦃m : Mongo⦄ ⦃intl : Intl⦄ where
  unfoldable pub create_for_budget : BudgetContext → CreateAccount → Date → Action AccountResponse
  create_for_budget budget dto now = do
    given ← or_raise dto.currency other_error
    currency ← or_raise (normalize_currency given) other_error
    raise_if (not (has_valid_money_precision (get_or dto.amount (pos 0)) currency))
        (bad_request amount_exceeds_precision)
    name ← or_raise dto.name other_error
    account ← create Tables.accounts (λ a. a.id) (account_document budget dto name currency now)
    opening_for_budget account
    amount ← balance_for_budget account (utc_month_end now)
    pure (record { account = account; amount = amount })

  -- `responseForBudget`, of one account
  unfoldable pub response_for_budget : Account → Date → Action AccountResponse
  response_for_budget account now = do
    amount ← balance_for_budget account (utc_month_end now)
    pure (record { account = account; amount = amount })

  unfoldable pub get_for_budget : BudgetContext → ObjectId → Date → Action AccountResponse
  unfolding response_for_budget
  get_for_budget budget id now = do
    found ← find_one Tables.accounts (account_filter budget id)
    account ← or_raise found (not_found account_not_found)
    response_for_budget account now

  unfoldable pub rename_for_budget : BudgetContext → ObjectId → Text → Date → Action AccountResponse
  unfolding response_for_budget
  rename_for_budget budget id name now = do
    found ← find_one_and_update Tables.accounts (account_filter budget id) (renamed name)
    account ← or_raise found (not_found account_not_found)
    response_for_budget account now

  unfoldable pub lock_account_for_lifecycle : BudgetContext → ObjectId → Action (Unit {0})
  lock_account_for_lifecycle budget id = do
    matched ←
        update_one Tables.accounts (account_filter budget id)
          (λ a. record a { mutation_version = a.mutation_version + 1 })
    raise_if (not matched) (not_found account_not_found)

  unfoldable pub remove_for_budget : BudgetContext → ObjectId → Action (Unit {0})
  unfolding lock_account_for_lifecycle has_initial_amount
  remove_for_budget budget id = do
    lock_account_for_lifecycle budget id
    found ← find_one Tables.accounts (account_filter budget id)
    account ← or_raise found (not_found account_not_found)
    raise_if (has_initial_amount account) (conflict wallet_has_history)
    has_history ← has_history_for_budget budget id
    raise_if has_history (conflict wallet_has_history)
    Snapshots.delete_for_budget budget id
    deleted ← find_one_and_delete Tables.accounts (account_filter budget id)
    raise_if (not deleted) (not_found account_not_found)

  unfoldable pub archive_for_budget : BudgetContext → ObjectId → Date → Action (Unit {0})
  unfolding lock_account_for_lifecycle
  archive_for_budget budget id now = do
    lock_account_for_lifecycle budget id
    found ← find_one_and_update Tables.accounts (unarchived_filter budget id) (archived now)
    or_raise found (not_found account_not_found)
    pure tt
