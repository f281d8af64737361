-- ===== src/Transactions/Defs.antt =====
-- The operations that incomes, expenses and transfers share
-- (src/modules/transactions/transactions/transactions.service.ts).
use babki_back.Prelude.{
  ◌+◌, Bool, true, false, ◌&&◌, ◌||◌, not, Option, none, some, List, [], ◌∷◌, ltb, ◌==◌,
  if◌then◌else◌, is_some, get_or,
}
use babki_back.Prelude.Int.{pos, leb_ℤ, ◌-ℤ◌, neg}
use babki_back.Money.{Amount, Currency, Intl, has_valid_money_precision}
use babki_back.Dates.{Date}
use babki_back.Mongo.{Mongo}
use babki_back.Http.{
  other_error, not_found, bad_request, account_currency_missing, amount_exceeds_precision,
  item_price_exceeds_precision, account_not_found, transaction_not_found,
  transaction_predates_wallet,
}
use babki_back.Schemas.{
  ObjectId, Text, Account, Transaction, TransactionDetail, Posting, ExpenseDetail, ExpenseItem,
  income, expense, transfer,
}
use babki_back.Budget.{BudgetContext, budget_filter}
use babki_back.Snapshots.{detail_concerns, predates, apply_for_budget}
use babki_back.Tables
use babki_back.Session.{
  Action, pure, or_raise, raise_if, ◌>>=◌, ◌>>◌, find_one, exists, update_one, find_one_and_update,
}

pub data TransactionType : Type 0 where
  income_type expense_type transfer_type : TransactionType

-- The fields that an update may set; an absent one is left alone.
pub record FinancialChanges : Type 0 where
  pub amount : Option Amount
  pub description : Option Text
  pub merchant : Option Text
  pub items : Option (List ExpenseItem)
  pub category : Option ObjectId
  pub participant_id : Option ObjectId

-- The discriminator filter that a model of one kind adds to its queries.
unfoldable pub has_type : Option TransactionType → TransactionDetail → Bool
has_type none d = true
has_type (some income_type) (income p) = true
has_type (some expense_type) (expense p x) = true
has_type (some transfer_type) (transfer s d) = true
has_type (some k) d = false

-- `{ _id, ...budgetFilter(budget), ...activeTransactionFilter }`, and the kind.
unfoldable pub transaction_filter :
    BudgetContext → ObjectId → Option TransactionType → Transaction → Bool
transaction_filter budget id kind tx =
    tx.id == id
    && budget_filter budget tx.space_id
    && not (is_some tx.deleted_at)
    && has_type kind tx.detail

-- `{ _id, ...budgetFilter(budget), archivedAt: null }`
unfoldable pub account_filter : BudgetContext → ObjectId → Account → Bool
account_filter budget id a =
    a.id == id && budget_filter budget a.space_id && not (is_some a.archived_at)

-- The fields of an income or an expense; a transfer has none of them.
unfoldable pub posting_of : TransactionDetail → Option Posting
posting_of (income p) = some p
posting_of (expense p x) = some p
posting_of (transfer s d) = none

unfoldable pub is_expense : TransactionDetail → Bool
is_expense (expense p x) = true
is_expense (income p) = false
is_expense (transfer s d) = false

set_amount : Option Amount → Posting → Posting
set_amount amount p = record p { amount = get_or amount p.amount }

set_expense : FinancialChanges → ExpenseDetail → ExpenseDetail
set_expense changes x = record x {
  participant_id = get_or changes.participant_id x.participant_id;
  category = get_or changes.category x.category;
  merchant = if is_some changes.merchant then changes.merchant else x.merchant;
  items = get_or changes.items x.items;
}

-- `$set: changes`: a model keeps the fields of its schema.
unfoldable pub set_detail : FinancialChanges → TransactionDetail → TransactionDetail
unfolding set_amount set_expense
set_detail changes (income p) = income (set_amount changes.amount p)
set_detail changes (expense p x) = expense (set_amount changes.amount p) (set_expense changes x)
set_detail changes (transfer s d) = transfer s d

unfoldable pub set_changes : FinancialChanges → Transaction → Transaction
set_changes changes tx = record tx {
  description = if is_some changes.description then changes.description else tx.description;
  detail = set_detail changes tx.detail;
}

unfoldable pub mark_deleted : Date → ObjectId → Transaction → Transaction
mark_deleted now actor_id tx = record tx { deleted_at = some now; deleted_by = some actor_id }

-- `[...new Set(ids)].sort()`
insert_id : ObjectId → List ObjectId → List ObjectId
insert_id a [] = a ∷ []
insert_id a (b ∷ ids) =
    let later = insert_id a ids in
    if a == b then b ∷ ids else if ltb a b then a ∷ b ∷ ids else b ∷ later

unfoldable pub sorted_ids : List ObjectId → List ObjectId
unfolding insert_id
sorted_ids [] = []
sorted_ids (a ∷ ids) = insert_id a (sorted_ids ids)

module _ ⦃m : Mongo⦄ ⦃intl : Intl⦄ where
  -- Some item has a price that is not positive or not exact.
  any_bad_item : Currency → List ExpenseItem → Bool
  any_bad_item c [] = false
  any_bad_item c (item ∷ items) =
      (leb_ℤ item.price (pos 0) || not (has_valid_money_precision item.price c))
      || any_bad_item c items

  bad_amount : Currency → Option Amount → Bool
  bad_amount c none = false
  bad_amount c (some amount) = not (has_valid_money_precision amount c)

  -- The currency is looked up: for the amount, or for the first price that is positive.
  unfoldable pub looks_up : Option Amount → List ExpenseItem → Bool
  looks_up (some amount) items = true
  looks_up none [] = false
  looks_up none (item ∷ items) = not (leb_ℤ item.price (pos 0))

  unfoldable pub validate_money_for_budget :
      Account → Option Amount → Option (List ExpenseItem) → Action (Unit {0})
  unfolding any_bad_item bad_amount looks_up
  validate_money_for_budget account amount items = do
    currency ← or_raise account.currency (bad_request account_currency_missing)
    raise_if (looks_up amount (get_or items []) && not (intl.supported currency)) other_error
    raise_if (bad_amount currency amount) (bad_request amount_exceeds_precision)
    raise_if (any_bad_item currency (get_or items [])) (bad_request item_price_exceeds_precision)

  unfoldable pub account_for_budget : BudgetContext → ObjectId → Action Account
  account_for_budget budget account_id = do
    found ← find_one Tables.accounts (account_filter budget account_id)
    or_raise found (not_found account_not_found)

  unfoldable pub account_for_create : BudgetContext → ObjectId → Date → Action Account
  unfolding account_for_budget
  account_for_create budget account_id date = do
    account ← account_for_budget budget account_id
    raise_if (predates date account.opened_at) (bad_request transaction_predates_wallet)
    pure account

  unfoldable pub lock_accounts : BudgetContext → List ObjectId → Action (Unit {0})
  lock_accounts budget [] = pure tt
  lock_accounts budget (id ∷ ids) = do
    matched ←
        update_one Tables.accounts (account_filter budget id)
          (λ a. record a { mutation_version = a.mutation_version + 1 })
    raise_if (not matched) (not_found account_not_found)
    lock_accounts budget ids

  unfoldable pub lock_accounts_for_budget : BudgetContext → List ObjectId → Action (Unit {0})
  unfolding lock_accounts sorted_ids
  lock_accounts_for_budget budget account_ids = lock_accounts budget (sorted_ids account_ids)

  unfoldable pub has_history_for_budget : BudgetContext → ObjectId → Action Bool
  has_history_for_budget budget account_id =
      exists Tables.transactions
        (λ tx. budget_filter budget tx.space_id && detail_concerns account_id tx.detail)

  unfoldable pub find_one_for_budget :
      BudgetContext → ObjectId → Option TransactionType → Action Transaction
  find_one_for_budget budget id kind = do
    row ← find_one Tables.transactions (transaction_filter budget id kind)
    or_raise row (not_found transaction_not_found)

  -- `account ?? accountForBudget(budget, row.accountId)`
  unfoldable pub resolve_account : BudgetContext → Transaction → Option Account → Action Account
  unfolding account_for_budget
  resolve_account budget row (some account) = pure account
  resolve_account budget row none = do
    p ← or_raise (posting_of row.detail) other_error
    account_for_budget budget p.account_id

  unfoldable pub update_for_budget :
      BudgetContext
      → Transaction
      → FinancialChanges
      → Option TransactionType
      → Option Account
      → Action Transaction
  unfolding resolve_account
  update_for_budget budget row changes model account = do
    resolved ← resolve_account budget row account
    validate_money_for_budget resolved changes.amount changes.items
    p ← or_raise (posting_of row.detail) other_error
    lock_accounts_for_budget budget (p.account_id ∷ [])
    updated ←
        find_one_and_update Tables.transactions (transaction_filter budget row.id model)
          (set_changes changes)
    result ← or_raise updated (not_found transaction_not_found)
    let change = get_or changes.amount p.amount -ℤ p.amount
    apply_for_budget resolved row.transaction_date
        (if is_expense row.detail then neg change else change)
    pure result

  unfoldable pub delete_for_budget :
      BudgetContext → ObjectId → Date → Transaction → Option Account → Action Transaction
  unfolding resolve_account
  delete_for_budget budget actor_id now row account = do
    resolved ← resolve_account budget row account
    p ← or_raise (posting_of row.detail) other_error
    lock_accounts_for_budget budget (p.account_id ∷ [])
    updated ←
        find_one_and_update Tables.transactions (transaction_filter budget row.id none)
          (mark_deleted now actor_id)
    deleted ← or_raise updated (not_found transaction_not_found)
    apply_for_budget resolved row.transaction_date
        (if is_expense row.detail then p.amount else neg p.amount)
    pure deleted
