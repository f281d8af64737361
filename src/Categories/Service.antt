-- ===== src/Categories/Service.antt =====
-- The operations on expense categories
-- (src/modules/expense-categories/expense-categories.service.ts).
use babki_back.Prelude.{Bool, true, false, ◌&&◌, ◌||◌, not, Option, none, some, ◌==◌, get_or}
use babki_back.Prelude.Texts.{same_text, is_empty}
use babki_back.Mongo.{Mongo}
use babki_back.Http.{not_found, conflict, category_not_found, category_in_use, category_name_exists}
use babki_back.Schemas.{
  ObjectId, Text, ExpenseCategory, ExpenseLimit, Plan, Transaction, TransactionDetail, income,
  expense, transfer,
}
use babki_back.Budget.{BudgetContext, budget_filter}
use babki_back.Categories.{category_filter, lock_budget_expense_category}
use babki_back.Tables
use babki_back.Session.{
  Action, pure, or_raise, raise_if, ◌>>=◌, ◌>>◌, find_one, exists, create, find_one_and_update,
  find_one_and_delete,
}

pub record CreateExpenseCategory : Type 0 where
  pub name : Text
  pub description : Option Text
  pub color : Option Text
  pub is_archived : Option Bool

pub record UpdateExpenseCategory : Type 0 where
  pub name : Option Text
  pub description : Option Text
  pub color : Option Text
  pub is_archived : Option Bool

unfoldable pub category_document :
    BudgetContext → CreateExpenseCategory → ObjectId → ExpenseCategory
category_document budget dto id = record {
  id = id;
  space_id = budget.space_id;
  name = dto.name;
  is_archived = get_or dto.is_archived false;
  description = dto.description;
  color = dto.color;
  mutation_version = 0;
}

abbrev or_else {ℓ} : {A : Type ℓ} → Option A → Option A → Option A
or_else none o = o
or_else (some a) o = some a

unfoldable pub set_category : UpdateExpenseCategory → ExpenseCategory → ExpenseCategory
set_category dto c = record c {
  name = get_or dto.name c.name;
  description = or_else dto.description c.description;
  color = or_else dto.color c.color;
  is_archived = get_or dto.is_archived c.is_archived;
}

-- `...(id ? { _id: { $ne: id } } : {})`
unfoldable pub differs_from : Option ObjectId → ObjectId → Bool
differs_from none id = true
differs_from (some mine) id = not (id == mine)

unfoldable pub name_filter : BudgetContext → Text → Option ObjectId → ExpenseCategory → Bool
unfolding differs_from
name_filter budget name id c =
    budget_filter budget c.space_id && same_text c.name name && differs_from id c.id

-- An expense of the category, deleted ones included.
unfoldable pub is_expense_in : ObjectId → TransactionDetail → Bool
is_expense_in category (income p) = false
is_expense_in category (expense p x) = x.category == category
is_expense_in category (transfer s d) = false

unfoldable pub expense_link : BudgetContext → ObjectId → Transaction → Bool
unfolding is_expense_in
expense_link budget category tx =
    budget_filter budget tx.space_id && is_expense_in category tx.detail

unfoldable pub limit_link : BudgetContext → ObjectId → ExpenseLimit → Bool
limit_link budget category l = budget_filter budget l.space_id && l.category == category

unfoldable pub plan_link : BudgetContext → ObjectId → Plan → Bool
plan_link budget category p = budget_filter budget p.space_id && p.category_id == category

module _ ⦃m : Mongo⦄ where
  -- `name && exists …`: an empty name is not looked up.
  unfoldable pub check_duplicate_name :
      BudgetContext → Option Text → Option ObjectId → Action (Unit {0})
  check_duplicate_name budget none id = pure tt
  check_duplicate_name budget (some name) id = do
    found ← exists Tables.categories (name_filter budget name id)
    raise_if (not (is_empty name) && found) (conflict category_name_exists)

  unfoldable pub create_for_budget : BudgetContext → CreateExpenseCategory → Action ExpenseCategory
  unfolding check_duplicate_name
  create_for_budget budget dto = do
    check_duplicate_name budget (some dto.name) none
    create Tables.categories (λ c. c.id) (category_document budget dto)

  unfoldable pub find_one_for_budget : BudgetContext → ObjectId → Action ExpenseCategory
  find_one_for_budget budget id = do
    found ← find_one Tables.categories (category_filter budget id)
    or_raise found (not_found category_not_found)

  unfoldable pub update_for_budget :
      BudgetContext → ObjectId → UpdateExpenseCategory → Action ExpenseCategory
  unfolding check_duplicate_name
  update_for_budget budget id dto = do
    lock_budget_expense_category budget id true
    check_duplicate_name budget dto.name (some id)
    found ← find_one_and_update Tables.categories (category_filter budget id) (set_category dto)
    or_raise found (not_found category_not_found)

  unfoldable pub remove_for_budget : BudgetContext → ObjectId → Action (Unit {0})
  remove_for_budget budget id = do
    category ← lock_budget_expense_category budget id true
    linked_expense ← exists Tables.transactions (expense_link budget category.id)
    linked_limit ← exists Tables.limits (limit_link budget category.id)
    linked_plan ← exists Tables.plans (plan_link budget category.id)
    raise_if (linked_expense || linked_limit || linked_plan) (conflict category_in_use)
    deleted ← find_one_and_delete Tables.categories (category_filter budget category.id)
    raise_if (not deleted) (not_found category_not_found)
