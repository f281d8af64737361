-- ===== src/Plans.antt =====
-- Planned expenses (src/modules/plans/plans.service.ts).
pub mod Book
pub mod Close
pub mod Paid
use babki_back.Prelude.{
  Bool, true, false, ◌&&◌, ◌||◌, not, Option, none, some, ◌==◌, is_some, get_or,
}
use babki_back.Prelude.Int.{pos, leb_ℤ}
use babki_back.Money.{Amount, Currency, Intl, normalize_money, has_valid_money_precision}
use babki_back.Dates.{Date}
use babki_back.Mongo.{Mongo}
use babki_back.Http.{
  other_error, not_found, bad_request, conflict, amount_exceeds_precision, amount_not_positive,
  plan_not_found, plan_closed, plan_currency_differs, plan_has_history, plan_changed,
}
use babki_back.Schemas.{ObjectId, Text, Status, active, closed, Plan, Transaction, plan}
use babki_back.Budget.{BudgetContext, budget_filter}
use babki_back.Categories.{lock_budget_expense_category}
use babki_back.Transactions.Expenses.{ExpenseCommand}
use babki_back.Transactions.Expenses
use babki_back.Debts.{same_status, detail_in_currency}
use babki_back.Tables
use babki_back.Session.{
  Action, pure, or_raise, raise_if, ◌>>=◌, ◌>>◌, find_one, create, find_one_and_update,
  find_one_and_delete,
}

pub record CreatePlan : Type 0 where
  pub currency : Currency
  pub description : Text
  pub target_date : Date
  pub amount : Amount
  pub category_id : ObjectId

pub record UpdatePlan : Type 0 where
  pub description : Option Text
  pub target_date : Option Date
  pub amount : Option Amount
  pub category_id : Option ObjectId

pub record ClosePlan : Type 0 where
  pub account_id : ObjectId
  pub closing_date : Option Date
  pub amount : Option Amount
  pub description : Option Text
  pub participant_id : Option ObjectId

unfoldable pub plan_filter : BudgetContext → ObjectId → Bool → Plan → Bool
plan_filter budget id active_only p =
    p.id == id
    && budget_filter budget p.space_id
    && (not active_only || not (is_some p.archived_at))

-- The filter of the update that closes a plan.
unfoldable pub open_plan_filter : BudgetContext → ObjectId → Plan → Bool
open_plan_filter budget id p = plan_filter budget id true p && same_status p.status active

-- The filter of the removal.
unfoldable pub removable_filter : BudgetContext → ObjectId → Plan → Bool
removable_filter budget id p = open_plan_filter budget id p && not (is_some p.expense_id)

unfoldable pub plan_document : BudgetContext → ObjectId → CreatePlan → ObjectId → Plan
plan_document budget actor_id dto id = record {
  id = id;
  space_id = budget.space_id;
  created_by = actor_id;
  description = dto.description;
  target_date = dto.target_date;
  amount = dto.amount;
  currency = dto.currency;
  category_id = dto.category_id;
  status = active;
  archived_at = none;
  closed_at = none;
  expense_id = none;
}

unfoldable pub set_plan : UpdatePlan → Plan → Plan
set_plan dto p = record p {
  description = get_or dto.description p.description;
  target_date = get_or dto.target_date p.target_date;
  amount = get_or dto.amount p.amount;
  category_id = get_or dto.category_id p.category_id;
}

unfoldable pub set_closed : Date → ObjectId → Plan → Plan
set_closed now expense_id p = record p {
  status = closed;
  closed_at = some now;
  expense_id = some expense_id;
}

-- The expense that closing a plan creates.
unfoldable pub closing_expense : Date → Plan → ClosePlan → ExpenseCommand
closing_expense now p dto = record {
  account_id = dto.account_id;
  category_id = p.category_id;
  amount = get_or dto.amount p.amount;
  transaction_date = get_or dto.closing_date now;
  description = some (get_or dto.description p.description);
  merchant = none;
  items = none;
  participant_id = dto.participant_id;
}

module _ ⦃m : Mongo⦄ ⦃intl : Intl⦄ where
  unfoldable pub validate_amount : Amount → Currency → Action (Unit {0})
  validate_amount amount currency = do
    raise_if (not (intl.supported currency)) other_error
    raise_if (not (has_valid_money_precision amount currency))
        (bad_request amount_exceeds_precision)
    raise_if (leb_ℤ (normalize_money amount currency) (pos 0)) (bad_request amount_not_positive)

  unfoldable pub require_plan : BudgetContext → ObjectId → Bool → Action Plan
  require_plan budget id active_only = do
    found ← find_one Tables.plans (plan_filter budget id active_only)
    or_raise found (not_found plan_not_found)

  unfoldable pub create_for_budget : BudgetContext → ObjectId → CreatePlan → Action Plan
  unfolding validate_amount
  create_for_budget budget actor_id dto = do
    validate_amount dto.amount dto.currency
    category ← lock_budget_expense_category budget dto.category_id false
    create Tables.plans (λ p. p.id) (plan_document budget actor_id dto)

  -- The checks of the fields that are there.
  check_new_amount : Currency → Option Amount → Action (Unit {0})
  unfolding validate_amount
  check_new_amount currency none = pure tt
  check_new_amount currency (some amount) = validate_amount amount currency

  lock_new_category : BudgetContext → Option ObjectId → Action (Unit {0})
  lock_new_category budget none = pure tt
  lock_new_category budget (some id) = do
    category ← lock_budget_expense_category budget id false
    pure tt

  unfoldable pub update_for_budget : BudgetContext → ObjectId → UpdatePlan → Action (Option Plan)
  unfolding require_plan check_new_amount lock_new_category
  update_for_budget budget id dto = do
    current ← require_plan budget id true
    raise_if (same_status current.status closed) (bad_request plan_closed)
    check_new_amount current.currency dto.amount
    lock_new_category budget dto.category_id
    find_one_and_update Tables.plans (plan_filter budget id true) (set_plan dto)

  unfoldable pub remove_for_budget : BudgetContext → ObjectId → Action (Unit {0})
  unfolding require_plan
  remove_for_budget budget id = do
    found ← require_plan budget id false
    raise_if
        (not (same_status found.status active)
          || is_some found.expense_id
          || is_some found.archived_at)
        (conflict plan_has_history)
    deleted ← find_one_and_delete Tables.plans (removable_filter budget id)
    raise_if (not deleted) (conflict plan_changed)

  unfoldable pub archive_for_budget : BudgetContext → Date → ObjectId → Action (Unit {0})
  archive_for_budget budget now id = do
    archived ←
        find_one_and_update Tables.plans (plan_filter budget id true)
          (λ p. record p { archived_at = some now })
    raise_if (not (is_some archived)) (not_found plan_not_found)

  unfoldable pub validate_close : Plan → ClosePlan → Action (Unit {0})
  unfolding validate_amount
  validate_close p dto = do
    raise_if (same_status p.status closed) (bad_request plan_closed)
    validate_amount (get_or dto.amount p.amount) p.currency

  unfoldable pub execute_close :
      BudgetContext → ObjectId → Date → ObjectId → Plan → ClosePlan → Action Plan
  execute_close budget actor_id now id p dto = do
    row ←
        Expenses.create_for_budget budget actor_id (closing_expense now p dto) (some (plan id)) none
    raise_if (not (detail_in_currency p.currency row.detail)) (bad_request plan_currency_differs)
    found ← find_one_and_update Tables.plans (open_plan_filter budget id) (set_closed now row.id)
    or_raise found (bad_request plan_closed)

  unfoldable pub close_for_budget :
      BudgetContext → ObjectId → Date → ObjectId → ClosePlan → Action Plan
  unfolding require_plan validate_close execute_close
  close_for_budget budget actor_id now id dto = do
    p ← require_plan budget id true
    validate_close p dto
    execute_close budget actor_id now id p dto
