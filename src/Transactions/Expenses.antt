-- ===== src/Transactions/Expenses.antt =====
-- Expenses (src/modules/transactions/expenses/expenses.service.ts).
pub mod Ledger
use babki_back.Prelude.{Option, none, some, List, [], ◌∷◌, get_or, false}
use babki_back.Prelude.Int.{neg}
use babki_back.Money.{Amount, Intl}
use babki_back.Dates.{Date}
use babki_back.Mongo.{Mongo}
use babki_back.Schemas.{
  ObjectId, Text, Account, AccountSnapshot, Transaction, TransactionOrigin, ExpenseItem, expense,
}
use babki_back.Budget.{BudgetContext}
use babki_back.Categories.{lock_budget_expense_category}
use babki_back.Snapshots.{prepare_for_budget, apply_for_budget}
use babki_back.Transactions.Defs.{
  account_for_create, validate_money_for_budget, lock_accounts_for_budget,
}
use babki_back.Tables
use babki_back.Session.{Action, pure, ◌>>=◌, ◌>>◌, create}

pub record ExpenseCommand : Type 0 where
  pub account_id : ObjectId
  pub category_id : ObjectId
  pub amount : Amount
  pub transaction_date : Date
  pub description : Option Text
  pub merchant : Option Text
  pub items : Option (List ExpenseItem)
  pub participant_id : Option ObjectId

-- The document that is created.
unfoldable pub expense_document :
    BudgetContext
    → ObjectId
    → ExpenseCommand
    → Account
    → ObjectId
    → ObjectId
    → Option TransactionOrigin
    → ObjectId
    → Transaction
expense_document budget actor_id dto account category_id snapshot_id origin id = record {
  id = id;
  space_id = budget.space_id;
  created_by = actor_id;
  deleted_at = none;
  deleted_by = none;
  origin = origin;
  transaction_date = dto.transaction_date;
  description = dto.description;
  detail =
      expense
        (record {
          account_id = account.id;
          snapshot_id = snapshot_id;
          amount = dto.amount;
          currency = account.currency;
        })
        (record {
          participant_id = get_or dto.participant_id actor_id;
          category = category_id;
          merchant = dto.merchant;
          items = get_or dto.items [];
        });
}

module _ ⦃m : Mongo⦄ ⦃intl : Intl⦄ where
  unfoldable pub existing_or_found :
      BudgetContext → ObjectId → Date → Option Account → Action Account
  existing_or_found budget account_id date (some account) = pure account
  existing_or_found budget account_id date none = account_for_create budget account_id date

  -- The document is added, and the snapshots are rebuilt.
  unfoldable pub create_row :
      BudgetContext
      → ObjectId
      → ExpenseCommand
      → Option TransactionOrigin
      → Account
      → ObjectId
      → ObjectId
      → Action Transaction
  create_row budget actor_id dto origin account category_id snapshot_id = do
    row ←
        create Tables.transactions (λ tx. tx.id)
          (expense_document budget actor_id dto account category_id snapshot_id origin)
    apply_for_budget account dto.transaction_date (neg dto.amount)
    pure row

  -- The account is known from here on.
  unfoldable pub create_on_account :
      BudgetContext
      → ObjectId
      → ExpenseCommand
      → Option TransactionOrigin
      → Account
      → Action Transaction
  create_on_account budget actor_id dto origin account = do
    validate_money_for_budget account (some dto.amount) dto.items
    lock_accounts_for_budget budget (account.id ∷ [])
    category ← lock_budget_expense_category budget dto.category_id false
    snapshot ← prepare_for_budget account dto.transaction_date
    create_row budget actor_id dto origin account category.id snapshot.id

  unfoldable pub create_for_budget :
      BudgetContext
      → ObjectId
      → ExpenseCommand
      → Option TransactionOrigin
      → Option Account
      → Action Transaction
  unfolding existing_or_found create_on_account create_row
  create_for_budget budget actor_id dto origin existing = do
    account ← existing_or_found budget dto.account_id dto.transaction_date existing
    create_on_account budget actor_id dto origin account
