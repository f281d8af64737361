-- ===== src/Debts.antt =====
-- Debts and their repayments (src/modules/debts/debts.service.ts).
pub mod Book
pub mod Changes
pub mod Repay
pub mod Cancel
pub mod Keeps
pub mod Archive
pub mod RoundTrip
use Prim.Native.String.{◌++◌}
use babki_back.Prelude.{
  Bool, true, false, ◌&&◌, ◌||◌, not, Option, none, some, ◌==◌, if◌then◌else◌, is_some, get_or,
}
use babki_back.Prelude.Int.{pos, leb_ℤ, ltb_ℤ, eq_ℤ, ◌-ℤ◌, ◌+ℤ◌}
use babki_back.Money.{Amount, Currency, Intl, normalize_money, has_valid_money_precision}
use babki_back.Dates.{Date}
use babki_back.Mongo.{Mongo}
use babki_back.Http.{
  other_error, not_found, bad_request, conflict, amount_exceeds_precision, amount_not_positive,
  debt_not_found, debt_managed_by_repayments, debt_remaining_exceeds_principal, debt_has_repayments,
  debt_closed, repayment_exceeds_remaining, invalid_repayment, repayment_account_required,
  debt_currency_differs, debt_changed, repayment_not_found, repayment_cancelled,
  repayment_income_inconsistent, repayment_balance_inconsistent, debt_has_history,
}
use babki_back.Schemas.{
  ObjectId, Text, Status, active, closed, Debt, DebtTransaction, Transaction, TransactionDetail,
  TransactionOrigin, plan, debt, income, expense, transfer,
}
use babki_back.Budget.{BudgetContext, budget_filter}
use babki_back.Transactions.Incomes.{IncomeCommand}
use babki_back.Transactions.Incomes
use babki_back.Transactions.Defs.{delete_for_budget}
use babki_back.Tables
use babki_back.Session.{
  Action, pure, raise, or_raise, raise_if, ◌>>=◌, ◌>>◌, find_one, exists, create,
  find_one_and_update, find_one_and_delete,
}

pub record CreateDebtCommand : Type 0 where
  pub debtor : Text
  pub principal_amount : Amount
  pub currency : Currency
  pub description : Option Text
  pub due_date : Option Date

-- A due date may be set to `null`.
pub record UpdateDebtCommand : Type 0 where
  pub debtor : Option Text
  pub principal_amount : Option Amount
  pub remaining_amount : Option Amount
  pub status : Option Status
  pub description : Option Text
  pub due_date : Option (Option Date)

pub record RepayDebtCommand : Type 0 where
  pub amount : Amount
  pub repayment_date : Date
  pub description : Option Text
  pub is_income : Option Bool
  pub account_id : Option ObjectId

unfoldable pub same_status : Status → Status → Bool
same_status active active = true
same_status closed closed = true
same_status active closed = false
same_status closed active = false

-- `{ _id, ...budgetFilter(budget), ...(activeOnly ? { archivedAt: null } : {}) }`
unfoldable pub debt_filter : BudgetContext → ObjectId → Bool → Debt → Bool
debt_filter budget id active_only d =
    d.id == id
    && budget_filter budget d.space_id
    && (not active_only || not (is_some d.archived_at))

-- The filter that also expects the state that was read.
unfoldable pub unchanged_filter : BudgetContext → Debt → Debt → Bool
unchanged_filter budget current d =
    debt_filter budget current.id true d
    && same_status d.status current.status
    && eq_ℤ d.remaining_amount current.remaining_amount

unfoldable pub set_balance : Amount → Status → Debt → Debt
set_balance remaining status d = record d { remaining_amount = remaining; status = status }

unfoldable pub debt_document : BudgetContext → ObjectId → CreateDebtCommand → ObjectId → Debt
debt_document budget actor_id dto id = record {
  id = id;
  space_id = budget.space_id;
  created_by = actor_id;
  debtor = dto.debtor;
  principal_amount = dto.principal_amount;
  remaining_amount = dto.principal_amount;
  currency = dto.currency;
  description = dto.description;
  due_date = dto.due_date;
  status = active;
  archived_at = none;
}

-- The changes of an update that sets neither the remaining amount nor the status.
unfoldable pub set_debt : UpdateDebtCommand → Debt → Debt
set_debt dto d = record d {
  debtor = get_or dto.debtor d.debtor;
  principal_amount = get_or dto.principal_amount d.principal_amount;
  remaining_amount = get_or dto.principal_amount d.remaining_amount;
  description = if is_some dto.description then dto.description else d.description;
  due_date = get_or dto.due_date d.due_date;
}

-- The description of a repayment that has none.
unfoldable pub default_description : Debt → Text
default_description d = "Погашение долга " ++ d.debtor

unfoldable pub repayment_document :
    BudgetContext
    → ObjectId
    → Debt
    → RepayDebtCommand
    → Text
    → Bool
    → Option ObjectId
    → ObjectId
    → DebtTransaction
repayment_document budget actor_id current dto description is_income income_id id = record {
  id = id;
  space_id = budget.space_id;
  created_by = actor_id;
  debt_id = current.id;
  amount = dto.amount;
  transaction_date = dto.repayment_date;
  is_income = some is_income;
  income_id = income_id;
  cancelled_at = none;
  cancelled_by = none;
  description = some description;
}

unfoldable pub repayment_filter : BudgetContext → ObjectId → ObjectId → DebtTransaction → Bool
repayment_filter budget debt_id id r =
    r.id == id && r.debt_id == debt_id && budget_filter budget r.space_id

unfoldable pub open_repayment_filter : BudgetContext → ObjectId → DebtTransaction → Bool
open_repayment_filter budget id r =
    r.id == id && budget_filter budget r.space_id && not (is_some r.cancelled_at)

unfoldable pub mark_cancelled : Date → ObjectId → DebtTransaction → DebtTransaction
mark_cancelled now actor_id r = record r { cancelled_at = some now; cancelled_by = some actor_id }

unfoldable pub has_debt_origin : ObjectId → Option TransactionOrigin → Bool
has_debt_origin id none = false
has_debt_origin id (some (plan p)) = false
has_debt_origin id (some (debt d)) = d == id

unfoldable pub is_currency : Currency → Option Currency → Bool
is_currency c none = false
is_currency c (some k) = k == c

unfoldable pub detail_in_currency : Currency → TransactionDetail → Bool
unfolding is_currency
detail_in_currency c (income p) = is_currency c p.currency
detail_in_currency c (expense p x) = is_currency c p.currency
detail_in_currency c (transfer s d) = false

unfoldable pub is_income_of : Debt → DebtTransaction → TransactionDetail → Bool
unfolding is_currency
is_income_of current r (income p) =
    eq_ℤ p.amount r.amount && is_currency current.currency p.currency
is_income_of current r (expense p x) = false
is_income_of current r (transfer s d) = false

-- The income that a repayment names is its own.
unfoldable pub is_consistent_income : Debt → DebtTransaction → Transaction → Bool
unfolding is_income_of has_debt_origin
is_consistent_income current r tx =
    not (is_some tx.deleted_at)
    && is_income_of current r tx.detail
    && has_debt_origin current.id tx.origin
    && tx.transaction_date == r.transaction_date

module _ ⦃m : Mongo⦄ ⦃intl : Intl⦄ where
  unfoldable pub validate_amount : Amount → Currency → Action (Unit {0})
  validate_amount amount currency = do
    raise_if (not (intl.supported currency)) other_error
    raise_if (not (has_valid_money_precision amount currency))
        (bad_request amount_exceeds_precision)
    raise_if (leb_ℤ (normalize_money amount currency) (pos 0)) (bad_request amount_not_positive)

  unfoldable pub validate_amounts : Amount → Amount → Action (Unit {0})
  validate_amounts principal remaining =
      raise_if (ltb_ℤ principal remaining) (bad_request debt_remaining_exceeds_principal)

  unfoldable pub require_debt : BudgetContext → ObjectId → Bool → Action Debt
  require_debt budget id active_only = do
    found ← find_one Tables.debts (debt_filter budget id active_only)
    or_raise found (not_found debt_not_found)

  unfoldable pub create_for_budget : BudgetContext → ObjectId → CreateDebtCommand → Action Debt
  unfolding validate_amount validate_amounts
  create_for_budget budget actor_id dto = do
    validate_amount dto.principal_amount dto.currency
    raise_if (not (has_valid_money_precision dto.principal_amount dto.currency))
        (bad_request amount_exceeds_precision)
    validate_amounts dto.principal_amount dto.principal_amount
    create Tables.debts (λ d. d.id) (debt_document budget actor_id dto)

  -- A new principal is checked, and no repayment may have been recorded.
  unfoldable pub check_principal : Debt → Option Amount → Action (Unit {0})
  unfolding validate_amount
  check_principal current none = pure tt
  check_principal current (some principal) = do
    validate_amount principal current.currency
    history ← exists Tables.repayments (λ r. r.debt_id == current.id)
    raise_if history (conflict debt_has_repayments)

  unfoldable pub update_for_budget :
      BudgetContext → ObjectId → UpdateDebtCommand → Action (Option Debt)
  unfolding require_debt validate_amounts check_principal
  update_for_budget budget id dto = do
    current ← require_debt budget id true
    raise_if (is_some dto.remaining_amount || is_some dto.status)
        (bad_request debt_managed_by_repayments)
    let principal = get_or dto.principal_amount current.principal_amount
    let remaining =
        if is_some dto.principal_amount
        then principal
        else get_or dto.remaining_amount current.remaining_amount
    raise_if (not (intl.supported current.currency)) other_error
    raise_if
        (not (has_valid_money_precision principal current.currency)
          || not (has_valid_money_precision remaining current.currency))
        (bad_request amount_exceeds_precision)
    validate_amounts principal remaining
    check_principal current dto.principal_amount
    find_one_and_update Tables.debts (debt_filter budget id true) (set_debt dto)

  -- The checks of a repayment before anything is written.
  unfoldable pub check_repayment : Debt → RepayDebtCommand → Action Bool
  unfolding validate_amount
  check_repayment current dto = do
    raise_if (same_status current.status closed) (bad_request debt_closed)
    raise_if (ltb_ℤ current.remaining_amount dto.amount) (bad_request repayment_exceeds_remaining)
    validate_amount dto.amount current.currency
    is_income ← or_raise dto.is_income (bad_request invalid_repayment)
    raise_if (not is_income && is_some dto.account_id) (bad_request invalid_repayment)
    pure is_income

  -- The income of a repayment that is one.
  unfoldable pub repayment_income :
      BudgetContext
      → ObjectId
      → ObjectId
      → Debt
      → RepayDebtCommand
      → Text
      → Bool
      → Action (Option ObjectId)
  unfolding detail_in_currency
  repayment_income budget actor_id id current dto description false = pure none
  repayment_income budget actor_id id current dto description true = do
    account_id ← or_raise dto.account_id (bad_request repayment_account_required)
    row ←
        Incomes.create_for_budget budget actor_id
          (record {
            account_id = account_id;
            amount = dto.amount;
            transaction_date = dto.repayment_date;
            description = some description;
          })
          (some (debt id)) none
    raise_if (not (detail_in_currency current.currency row.detail))
        (bad_request debt_currency_differs)
    pure (some row.id)

  -- The history entry, and the new balance of the debt.
  unfoldable pub record_repayment :
      BudgetContext
      → ObjectId
      → Debt
      → RepayDebtCommand
      → Text
      → Bool
      → Option ObjectId
      → Action (Debt × DebtTransaction)
  record_repayment budget actor_id current dto description is_income income_id = do
    history ←
        create Tables.repayments (λ r. r.id)
          (repayment_document budget actor_id current dto description is_income income_id)
    let remaining = normalize_money (current.remaining_amount -ℤ dto.amount) current.currency
    found ←
        find_one_and_update Tables.debts (unchanged_filter budget current)
          (set_balance remaining (if eq_ℤ remaining (pos 0) then closed else current.status))
    updated ← or_raise found (conflict debt_changed)
    pure (updated, history)

  unfoldable pub repay_for_budget :
      BudgetContext → ObjectId → ObjectId → RepayDebtCommand → Action (Debt × DebtTransaction)
  unfolding require_debt check_repayment repayment_income record_repayment
  repay_for_budget budget actor_id id dto = do
    current ← require_debt budget id true
    is_income ← check_repayment current dto
    let description = get_or dto.description (default_description current)
    income_id ← repayment_income budget actor_id id current dto description is_income
    record_repayment budget actor_id current dto description is_income income_id

  -- The income of a repayment is taken back, if it is one.
  unfoldable pub cancel_income :
      BudgetContext → ObjectId → Date → Debt → DebtTransaction → Option Bool → Action (Unit {0})
  unfolding is_consistent_income
  cancel_income budget actor_id now current r none = raise (conflict repayment_income_inconsistent)
  cancel_income budget actor_id now current r (some false) =
      raise_if (is_some r.income_id) (conflict repayment_income_inconsistent)
  cancel_income budget actor_id now current r (some true) = do
    income_id ← or_raise r.income_id (conflict repayment_income_inconsistent)
    found ←
        find_one Tables.transactions (λ tx. tx.id == income_id && budget_filter budget tx.space_id)
    row ← or_raise found (conflict repayment_income_inconsistent)
    raise_if (not (is_consistent_income current r row)) (conflict repayment_income_inconsistent)
    deleted ← delete_for_budget budget actor_id now row none
    pure tt

  -- The repayment is marked, and the debt has its amount back.
  unfoldable pub restore_balance :
      BudgetContext → ObjectId → Date → Debt → DebtTransaction → Action (Debt × DebtTransaction)
  restore_balance budget actor_id now current r = do
    marked ←
        find_one_and_update Tables.repayments (open_repayment_filter budget r.id)
          (mark_cancelled now actor_id)
    cancelled ← or_raise marked (conflict repayment_cancelled)
    raise_if (not (intl.supported current.currency)) other_error
    let remaining = normalize_money (current.remaining_amount +ℤ r.amount) current.currency
    raise_if (ltb_ℤ current.principal_amount remaining) (conflict repayment_balance_inconsistent)
    found ←
        find_one_and_update Tables.debts (unchanged_filter budget current)
          (set_balance remaining active)
    updated ← or_raise found (conflict debt_changed)
    pure (updated, cancelled)

  unfoldable pub cancel_repayment_for_budget :
      BudgetContext → ObjectId → Date → ObjectId → ObjectId → Action (Debt × DebtTransaction)
  unfolding require_debt cancel_income restore_balance
  cancel_repayment_for_budget budget actor_id now debt_id repayment_id = do
    current ← require_debt budget debt_id true
    found ← find_one Tables.repayments (repayment_filter budget current.id repayment_id)
    r ← or_raise found (not_found repayment_not_found)
    raise_if (is_some r.cancelled_at) (conflict repayment_cancelled)
    cancel_income budget actor_id now current r r.is_income
    restore_balance budget actor_id now current r

  unfoldable pub remove_for_budget : BudgetContext → ObjectId → Action (Unit {0})
  unfolding require_debt
  remove_for_budget budget id = do
    found ← require_debt budget id false
    history ← exists Tables.repayments (λ r. r.debt_id == found.id)
    posted ← exists Tables.transactions (λ tx. has_debt_origin found.id tx.origin)
    raise_if (history || posted || is_some found.archived_at) (conflict debt_has_history)
    deleted ← find_one_and_delete Tables.debts (debt_filter budget id true)
    raise_if (not deleted) (conflict debt_changed)

  unfoldable pub archive_for_budget : BudgetContext → Date → ObjectId → Action (Unit {0})
  archive_for_budget budget now id = do
    archived ←
        find_one_and_update Tables.debts (debt_filter budget id true)
          (λ d. record d { archived_at = some now })
    raise_if (not (is_some archived)) (not_found debt_not_found)
