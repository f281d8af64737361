-- ===== src/Finances/Entries.antt =====
-- The expenses and incomes of a space
-- (src/modules/space-finances/space-transactions.service.ts).
use babki_back.Prelude.{
  Bool, true, false, ◌&&◌, ◌||◌, not, Option, none, some, List, ◌==◌, is_some, get_or,
  if◌then◌else◌,
}
use babki_back.Money.{Amount, Intl}
use babki_back.Dates.{Date}
use babki_back.Mongo.{Mongo}
use babki_back.Http.{
  Result, err, bad_request, forbidden, conflict, other_error, empty_update, mutation_not_permitted,
  reassignment_not_permitted, debt_income_locked,
}
use babki_back.Schemas.{
  Db, ObjectId, Text, Account, ExpenseItem, Transaction, TransactionDetail, TransactionOrigin,
  income, expense, transfer, plan, debt,
}
use babki_back.Budget.{space_budget}
use babki_back.Access.{Transactions, require_member, member_context, resolve, run}
use babki_back.Categories.{lock_budget_expense_category}
use babki_back.Transactions.Defs.{
  TransactionType, income_type, expense_type, account_for_create, account_for_budget,
  find_one_for_budget, update_for_budget, delete_for_budget, posting_of,
}
use babki_back.Transactions.Expenses.{ExpenseCommand}
use babki_back.Transactions.Expenses
use babki_back.Transactions.Incomes.{IncomeCommand}
use babki_back.Transactions.Incomes
use babki_back.Finances.{WithActors, participant_of, transaction_actors, enrich_one}
use babki_back.Session.{Action, pure, or_raise, raise_if, ◌>>=◌, ◌>>◌}

-- `SpaceTransactionKind`
pub data Kind : Type 0 where
  expense_kind income_kind : Kind

unfoldable pub type_of : Kind → TransactionType
type_of expense_kind = expense_type
type_of income_kind = income_type

-- The fields that a request may name; an income has only the first two.
pub record UpdateEntry : Type 0 where
  pub amount : Option Amount
  pub description : Option Text
  pub merchant : Option Text
  pub items : Option (List ExpenseItem)
  pub participant_id : Option ObjectId
  pub category_id : Option ObjectId

unfoldable pub is_empty_update : UpdateEntry → Bool
is_empty_update dto = not (
    is_some dto.amount
    || is_some dto.description
    || is_some dto.merchant
    || is_some dto.items
    || is_some dto.participant_id
    || is_some dto.category_id)

-- `row.participantId?.equals(id)`
unfoldable pub takes_part : ObjectId → Transaction → Bool
unfolding participant_of
takes_part id row = elim (participant_of row.detail) [ none ↦ false | some p ↦ p == id ]

unfoldable pub category_of : TransactionDetail → Option ObjectId
category_of (income p) = none
category_of (expense p x) = some x.category
category_of (transfer s d) = none

-- `row.category?.equals(id)`
unfoldable pub has_category : ObjectId → Transaction → Bool
unfolding category_of
has_category id row = elim (category_of row.detail) [ none ↦ false | some c ↦ c == id ]

-- `row.origin?.type === 'debt'`
unfoldable pub is_from_debt : Option TransactionOrigin → Bool
is_from_debt none = false
is_from_debt (some (plan id)) = false
is_from_debt (some (debt id)) = true

unfoldable pub is_income_kind : Kind → Bool
is_income_kind expense_kind = false
is_income_kind income_kind = true

-- What the checks of a change find: the row, its account, and whether the actor may pass the row on
-- to another participant.
pub record Permit : Type 0 where
  pub row : Transaction
  pub account : Account
  pub may_reassign : Bool

module _ ⦃m : Mongo⦄ ⦃intl : Intl⦄ where
  unfoldable pub get : ObjectId → ObjectId → ObjectId → Kind → Action (WithActors Transaction)
  unfolding resolve find_one_for_budget enrich_one
  get space_id actor id kind = do
    budget ← resolve actor space_id
    row ← find_one_for_budget budget id (some (type_of kind))
    enrich_one transaction_actors row

  -- The part of `change` before anything is written.
  unfoldable pub check_change : ObjectId → ObjectId → ObjectId → Kind → Action Permit
  unfolding takes_part is_from_debt is_income_kind type_of
  check_change space_id actor id kind = do
    row ← find_one_for_budget (space_budget space_id) id (some (type_of kind))
    (space, permissions) ← member_context space_id actor
    let trusted =
        space.owner_id == actor || row.created_by == actor || permissions.manage_transactions
    raise_if (not trusted && not (takes_part actor row)) (forbidden mutation_not_permitted)
    p ← or_raise (posting_of row.detail) other_error
    account ← account_for_budget (space_budget space_id) p.account_id
    raise_if (is_income_kind kind && is_from_debt row.origin) (conflict debt_income_locked)
    pure (record { row = row; account = account; may_reassign = trusted })

  -- The row is passed on to another member.
  unfoldable pub reassign : ObjectId → Permit → ObjectId → Action (Option ObjectId)
  reassign space_id permit id = do
    raise_if (not permit.may_reassign) (forbidden reassignment_not_permitted)
    require_member space_id id
    pure (some id)

  -- The participant, where the request names another one.
  unfoldable pub new_participant : ObjectId → Permit → Option ObjectId → Action (Option ObjectId)
  unfolding takes_part reassign
  new_participant space_id permit none = pure none
  new_participant space_id permit (some id) =
      if takes_part id permit.row then pure none else reassign space_id permit id

  -- The category, where the request names another one.
  unfoldable pub new_category : ObjectId → Permit → Option ObjectId → Action (Option ObjectId)
  unfolding has_category
  new_category space_id permit none = pure none
  new_category space_id permit (some id) = if has_category id permit.row then pure none else (do
    category ← lock_budget_expense_category (space_budget space_id) id false
    pure (some category.id))

  -- The work of `change` with a request.
  unfoldable pub update_entry :
      ObjectId → ObjectId → ObjectId → Kind → UpdateEntry → Action (WithActors Transaction)
  unfolding check_change new_participant new_category update_for_budget
  update_entry space_id actor id kind dto = do
    permit ← check_change space_id actor id kind
    participant ← new_participant space_id permit dto.participant_id
    category ← new_category space_id permit dto.category_id
    row ←
        update_for_budget (space_budget space_id) permit.row
          (record {
            amount = dto.amount;
            description = dto.description;
            merchant = dto.merchant;
            items = dto.items;
            category = category;
            participant_id = participant;
          })
          (some (type_of kind)) (some permit.account)
    enrich_one transaction_actors row

  -- The work of `change` without one.
  unfoldable pub remove_entry : ObjectId → ObjectId → Date → ObjectId → Kind → Action Transaction
  unfolding check_change delete_for_budget
  remove_entry space_id actor now id kind = do
    permit ← check_change space_id actor id kind
    delete_for_budget (space_budget space_id) actor now permit.row (some permit.account)

  unfoldable pub create_expense_entry :
      ObjectId → ObjectId → ExpenseCommand → Action (WithActors Transaction)
  unfolding account_for_create enrich_one
  create_expense_entry space_id actor dto = do
    account ← account_for_create (space_budget space_id) dto.account_id dto.transaction_date
    let participant = get_or dto.participant_id actor
    require_member space_id participant
    row ←
        Expenses.create_for_budget (space_budget space_id) actor
          (record dto { participant_id = some participant }) none (some account)
    enrich_one transaction_actors row

  unfoldable pub create_income_entry :
      ObjectId → ObjectId → IncomeCommand → Action (WithActors Transaction)
  unfolding account_for_create enrich_one
  create_income_entry space_id actor dto = do
    account ← account_for_create (space_budget space_id) dto.account_id dto.transaction_date
    row ← Incomes.create_for_budget (space_budget space_id) actor dto none (some account)
    enrich_one transaction_actors row

  module _ ⦃t : Transactions⦄ where
    -- `create`, of an expense
    unfoldable pub create_expense :
        ObjectId → ObjectId → ExpenseCommand → Db → Result (WithActors Transaction) × Db
    unfolding run create_expense_entry
    create_expense space_id actor dto =
        run (space_budget space_id) actor (create_expense_entry space_id actor dto) none

    -- `create`, of an income
    unfoldable pub create_income :
        ObjectId → ObjectId → IncomeCommand → Db → Result (WithActors Transaction) × Db
    unfolding run create_income_entry
    create_income space_id actor dto =
        run (space_budget space_id) actor (create_income_entry space_id actor dto) none

    unfoldable pub update :
        ObjectId
        → ObjectId
        → ObjectId
        → Kind
        → UpdateEntry
        → Db
        → Result (WithActors Transaction) × Db
    unfolding run update_entry
    update space_id actor id kind dto db =
        if is_empty_update dto
        then (err (bad_request empty_update), db)
        else run (space_budget space_id) actor (update_entry space_id actor id kind dto) none db

    unfoldable pub remove :
        ObjectId → ObjectId → Date → ObjectId → Kind → Db → Result Transaction × Db
    unfolding run remove_entry
    remove space_id actor now id kind =
        run (space_budget space_id) actor (remove_entry space_id actor now id kind) none
