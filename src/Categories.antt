-- ===== src/Categories.antt =====
-- Expense categories and their lock (src/modules/expense-categories/expense-category-lock.ts).
pub mod Service
pub mod Unused
use babki_back.Prelude.{Bool, ◌+◌, ◌&&◌, not, ◌==◌}
use babki_back.Mongo.{Mongo}
use babki_back.Http.{not_found, conflict, category_not_found, category_archived}
use babki_back.Schemas.{ObjectId, ExpenseCategory}
use babki_back.Budget.{BudgetContext, budget_filter}
use babki_back.Tables
use babki_back.Session.{Action, pure, or_raise, raise_if, ◌>>=◌, ◌>>◌, find_one_and_update}

unfoldable pub category_filter : BudgetContext → ObjectId → ExpenseCategory → Bool
category_filter budget id c = c.id == id && budget_filter budget c.space_id

module _ ⦃m : Mongo⦄ where
  -- The category is touched, so that concurrent work on it conflicts.
  unfoldable pub lock_budget_expense_category :
      BudgetContext → ObjectId → Bool → Action ExpenseCategory
  lock_budget_expense_category budget category_id allow_archived = do
    found ←
        find_one_and_update Tables.categories (category_filter budget category_id)
          (λ c. record c { mutation_version = c.mutation_version + 1 })
    category ← or_raise found (not_found category_not_found)
    raise_if (category.is_archived && not allow_archived) (conflict category_archived)
    pure category
