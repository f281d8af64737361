-- ===== src/Transactions/Planning.antt =====
-- Transactions leave the debts and their repayments, and the plans, alone.
use mathlib.Core.Option
use babki_back.Prelude.{
  ◌≡◌, sym, map, arith, ap, ◌∙◌, Bool, false, Option, none, some, List, [], ◌∷◌, ◌+◌,
}
use babki_back.Money.{Intl}
use babki_back.Dates.{Date}
use babki_back.Mongo.{Mongo}
use babki_back.Http.{ok, other_error, not_found, transaction_not_found}
use babki_back.Schemas.{
  Db, ObjectId, Account, Transaction, TransactionOrigin, Debt, DebtTransaction, Plan,
}
use babki_back.Budget.{BudgetContext}
use babki_back.Categories.{lock_budget_expense_category}
use babki_back.Snapshots.{rebuild_for_budget, prepare_for_budget, apply_for_budget}
use babki_back.Snapshots.Rebuild.{rebuild_for_budget-IsRebuiltFrom}
use babki_back.Transactions.Defs.{
  validate_money_for_budget, account_for_create, lock_accounts, lock_accounts_for_budget,
  delete_for_budget, resolve_account, sorted_ids, account_filter, posting_of, transaction_filter,
  mark_deleted,
}
use babki_back.Transactions.Frames.{
  prepare-rebuild, validate_money-same, account_for_create_ok, account_for_budget_ok,
}
use babki_back.Transactions.Incomes.{IncomeCommand, income_document}
use babki_back.Transactions.Incomes
use babki_back.Transactions.Expenses.{ExpenseCommand, expense_document}
use babki_back.Transactions.Expenses
use babki_back.Session.{Action, or_raise}
use babki_back.Session.Inversion.{bind_ok, or_raise_ok, pure_ok}

-- The collections that no transaction touches.
abbrev pub planning : Db → List Debt × List DebtTransaction × List Plan
planning db = (db.debts, db.repayments, db.plans)

-- An action that leaves them alone, where it returns.
abbrev pub Keeps {ℓ} : {A : Type ℓ} → Action A → Type ℓ
Keeps {A} m = (db db' : Db) (a : A) → m db ≡ ok (a, db') → planning db' ≡ planning db

module _ ⦃m : Mongo⦄ ⦃intl : Intl⦄ where
  rebuild-Keeps : (account : Account) (date : Date) → Keeps (rebuild_for_budget account date)
  rebuild-Keeps account date db db' u h =
      ap planning (rebuild_for_budget-IsRebuiltFrom account date db db' h).others

  prepare-Keeps : (account : Account) (date : Date) → Keeps (prepare_for_budget account date)
  prepare-Keeps account date db db' s h =
      rebuild-Keeps account date db db' tt (prepare-rebuild account date db db' s h)

  lock-Keeps : (budget : BudgetContext) (ids : List ObjectId) → Keeps (lock_accounts budget ids)
  unfolding lock_accounts
  lock-Keeps budget [] db db' u h = ground arith
  lock-Keeps budget (id ∷ ids) db db' u h =
      let touched : Db = record db {
        accounts =
            m.update_one (account_filter budget id)
              (λ a. record a { mutation_version = a.mutation_version + 1 }) db.accounts;
      } in
      ground (arith, lock-Keeps budget ids touched db' u)

  lock_for_budget-Keeps :
      (budget : BudgetContext) (ids : List ObjectId) → Keeps (lock_accounts_for_budget budget ids)
  unfolding lock_accounts_for_budget
  lock_for_budget-Keeps budget ids = lock-Keeps budget (sorted_ids ids)

  lock_category-Keeps :
      (budget : BudgetContext) (id : ObjectId) (b : Bool)
      → Keeps (lock_budget_expense_category budget id b)
  unfolding lock_budget_expense_category
  lock_category-Keeps budget id b db db' c h = ground arith

  income_row-Keeps :
      (budget : BudgetContext) (actor_id : ObjectId) (dto : IncomeCommand)
      (origin : Option TransactionOrigin) (account : Account) (snapshot_id : ObjectId)
      → Keeps (Incomes.create_row budget actor_id dto origin account snapshot_id)
  unfolding Incomes.create_row apply_for_budget
  income_row-Keeps budget actor_id dto origin account snapshot_id db db' tx h =
      let id = m.object_id (map (λ t. t.id) db.transactions) in
      let doc = income_document budget actor_id dto account snapshot_id origin id in
      let (u, d1, h1, k1) =
        bind_ok (rebuild_for_budget account dto.transaction_date) _
          (record db { transactions = m.insert doc db.transactions }) h in
      ap planning (sym (pure_ok doc tx d1 db' k1).1)
      ∙ rebuild-Keeps account dto.transaction_date _ d1 u h1

  income-Keeps :
      (budget : BudgetContext) (actor_id : ObjectId) (dto : IncomeCommand)
      (origin : Option TransactionOrigin) (account : Account)
      → Keeps (Incomes.create_on_account budget actor_id dto origin account)
  unfolding Incomes.create_on_account
  income-Keeps budget actor_id dto origin account db db' tx h =
      let (u1, d1, h1, k1) =
        bind_ok (validate_money_for_budget account (some dto.amount) none) _ db h in
      let (u2, d2, h2, k2) = bind_ok (lock_accounts_for_budget budget (account.id ∷ [])) _ d1 k1 in
      let (s, d3, h3, k3) = bind_ok (prepare_for_budget account dto.transaction_date) _ d2 k2 in
      income_row-Keeps budget actor_id dto origin account s.id d3 db' tx k3
      ∙ prepare-Keeps account dto.transaction_date d2 d3 s h3
      ∙ lock_for_budget-Keeps budget _ d1 d2 u2 h2
      ∙ ap planning (validate_money-same account _ _ db d1 h1)

  -- Creating an income keeps them, with the account found first.
  pub create_income-Keeps :
      (budget : BudgetContext) (actor_id : ObjectId) (dto : IncomeCommand)
      (origin : Option TransactionOrigin)
      → Keeps (Incomes.create_for_budget budget actor_id dto origin none)
  unfolding Incomes.create_for_budget
  create_income-Keeps budget actor_id dto origin db db' tx h =
      let (account, d1, h1, k1) =
        bind_ok (account_for_create budget dto.account_id dto.transaction_date) _ db h in
      income-Keeps budget actor_id dto origin account d1 db' tx k1
      ∙ ap planning (account_for_create_ok budget _ _ account db d1 h1).0

  resolve-Keeps :
      (budget : BudgetContext) (row : Transaction) → Keeps (resolve_account budget row none)
  unfolding resolve_account
  resolve-Keeps budget row db db' a h =
      let (p, d1, h1, k1) = bind_ok (or_raise (posting_of row.detail) other_error) _ db h in
      ap planning (account_for_budget_ok budget p.account_id a d1 db' k1).0
      ∙ ap planning (or_raise_ok _ other_error db d1 p h1).1

  pub delete_transaction-Keeps :
      (budget : BudgetContext) (actor_id : ObjectId) (now : Date) (row : Transaction)
      → Keeps (delete_for_budget budget actor_id now row none)
  unfolding delete_for_budget apply_for_budget
  delete_transaction-Keeps budget actor_id now row db db' tx h =
      let (a, d1, h1, k1) = bind_ok (resolve_account budget row none) _ db h in
      let (p, d2, h2, k2) = bind_ok (or_raise (posting_of row.detail) other_error) _ d1 k1 in
      let (u3, d3, h3, k3) =
        bind_ok (lock_accounts_for_budget budget (p.account_id ∷ [])) _ d2 k2 in
      let p₁ = transaction_filter budget row.id none in
      let marked : Db = record d3 {
        transactions = m.update_one p₁ (mark_deleted now actor_id) d3.transactions;
      } in
      let found = Option.map (mark_deleted now actor_id) (m.find_one p₁ d3.transactions) in
      let (gone, d5, h5, k5) =
        bind_ok (or_raise found (not_found transaction_not_found)) _ marked k3 in
      let (u6, d6, h6, k6) = bind_ok (rebuild_for_budget a row.transaction_date) _ d5 k5 in
      ap planning (sym (pure_ok gone tx d6 db' k6).1)
      ∙ rebuild-Keeps a row.transaction_date d5 d6 u6 h6
      ∙ ap planning (or_raise_ok found _ marked d5 gone h5).1
      ∙ lock_for_budget-Keeps budget _ d2 d3 u3 h3
      ∙ ap planning (or_raise_ok _ other_error d1 d2 p h2).1
      ∙ resolve-Keeps budget row db d1 a h1

  expense_row-Keeps :
      (budget : BudgetContext) (actor_id : ObjectId) (dto : ExpenseCommand)
      (origin : Option TransactionOrigin) (account : Account) (category_id snapshot_id : ObjectId)
      → Keeps (Expenses.create_row budget actor_id dto origin account category_id snapshot_id)
  unfolding Expenses.create_row apply_for_budget
  expense_row-Keeps budget actor_id dto origin account category_id snapshot_id db db' tx h =
      let id = m.object_id (map (λ t. t.id) db.transactions) in
      let doc = expense_document budget actor_id dto account category_id snapshot_id origin id in
      let (u, d1, h1, k1) =
        bind_ok (rebuild_for_budget account dto.transaction_date) _
          (record db { transactions = m.insert doc db.transactions }) h in
      ap planning (sym (pure_ok doc tx d1 db' k1).1)
      ∙ rebuild-Keeps account dto.transaction_date _ d1 u h1

  expense-Keeps :
      (budget : BudgetContext) (actor_id : ObjectId) (dto : ExpenseCommand)
      (origin : Option TransactionOrigin) (account : Account)
      → Keeps (Expenses.create_on_account budget actor_id dto origin account)
  unfolding Expenses.create_on_account
  expense-Keeps budget actor_id dto origin account db db' tx h =
      let (u1, d1, h1, k1) =
        bind_ok (validate_money_for_budget account (some dto.amount) dto.items) _ db h in
      let (u2, d2, h2, k2) = bind_ok (lock_accounts_for_budget budget (account.id ∷ [])) _ d1 k1 in
      let (c, d3, h3, k3) =
        bind_ok (lock_budget_expense_category budget dto.category_id false) _ d2 k2 in
      let (s, d4, h4, k4) = bind_ok (prepare_for_budget account dto.transaction_date) _ d3 k3 in
      expense_row-Keeps budget actor_id dto origin account c.id s.id d4 db' tx k4
      ∙ prepare-Keeps account dto.transaction_date d3 d4 s h4
      ∙ lock_category-Keeps budget dto.category_id false d2 d3 c h3
      ∙ lock_for_budget-Keeps budget _ d1 d2 u2 h2
      ∙ ap planning (validate_money-same account _ _ db d1 h1)

  -- Creating an expense keeps them, with the account found first.
  pub create_expense-Keeps :
      (budget : BudgetContext) (actor_id : ObjectId) (dto : ExpenseCommand)
      (origin : Option TransactionOrigin)
      → Keeps (Expenses.create_for_budget budget actor_id dto origin none)
  unfolding Expenses.create_for_budget
  create_expense-Keeps budget actor_id dto origin db db' tx h =
      let (account, d1, h1, k1) =
        bind_ok (account_for_create budget dto.account_id dto.transaction_date) _ db h in
      expense-Keeps budget actor_id dto origin account d1 db' tx k1
      ∙ ap planning (account_for_create_ok budget _ _ account db d1 h1).0
