-- ===== src/Categories/Unused.antt =====
-- Which categories are removed (src/modules/expense-categories/expense-categories.service.ts).
use mathlib.Core.Option
use mathlib.Core.Path.{subst}
use babki_back.Prelude.{
  ◌≡◌, ◌≢◌, In, ◌+◌, refl, sym, ap, ◌∙◌, Bool, true, false, ◌&&◌, ◌||◌, not, is_some, arith, map,
}
use babki_back.Mongo.{Mongo, drop_first}
use babki_back.Mongo.Lookup.{first_matches}
use babki_back.Mongo.Writes.{Finds-In, Unique, map-change_first}
use babki_back.Mongo.Gone.{nothing_found, drop_first_gone}
use babki_back.Http.{
  ok, not_found, conflict, category_not_found, category_archived, category_in_use,
}
use babki_back.Schemas.{
  Db, ObjectId, ExpenseCategory, ExpenseLimit, Plan, Transaction, TransactionDetail, income,
  expense, transfer,
}
use babki_back.Budget.{BudgetContext}
use babki_back.Categories.{category_filter, lock_budget_expense_category}
use babki_back.Categories.Service.{
  is_expense_in, expense_link, limit_link, plan_link, remove_for_budget,
}
use babki_back.Session.{raise_if, or_raise}
use babki_back.Session.Inversion.{bind_ok, raise_if_ok, or_raise_ok, pure_ok, mapped}

pub category_filter-id :
    (budget : BudgetContext) (id : ObjectId) (c : ExpenseCategory)
    → category_filter budget id c ≡ true
    → c.id ≡ id
unfolding category_filter
category_filter-id budget id c h = ground arith

no_links : (a b c : Bool) → a || b || c ≡ false → (a ≡ false) × (b ≡ false) × (c ≡ false)
no_links a b c h = (ground arith, ground arith, ground arith)

-- An expense of a category.
abbrev pub Spends : ObjectId → TransactionDetail → Type 0
Spends id (income p) = ⊥
Spends id (expense p x) = x.category ≡ id
Spends id (transfer s d) = ⊥

-- No document of the space referred to the category, expenses that are deleted included; those
-- documents are all still there, and the category is gone.
pub record IsUnused (budget : BudgetContext) (id : ObjectId) (db db' : Db) : Type 0 where
  pub no_expense :
      (tx : Transaction)
      → In tx db.transactions
      → tx.space_id ≡ budget.space_id
      → ¬ (Spends id tx.detail)
  pub no_limit :
      (l : ExpenseLimit) → In l db.limits → l.space_id ≡ budget.space_id → l.category ≢ id
  pub no_plan : (p : Plan) → In p db.plans → p.space_id ≡ budget.space_id → p.category_id ≢ id
  pub kept :
      (db'.transactions ≡ db.transactions) × (db'.limits ≡ db.limits) × (db'.plans ≡ db.plans)
  pub gone : (c : ExpenseCategory) → In c db'.categories → c.space_id ≡ budget.space_id → c.id ≢ id

Spends-is_expense_in :
    (id : ObjectId) (d : TransactionDetail) → Spends id d → is_expense_in id d ≡ true
unfolding is_expense_in
Spends-is_expense_in id (income p) h = absurd h
Spends-is_expense_in id (expense p x) h = ground arith
Spends-is_expense_in id (transfer s d) h = absurd h

links_expense :
    (budget : BudgetContext) (id : ObjectId) (tx : Transaction)
    → tx.space_id ≡ budget.space_id
    → Spends id tx.detail
    → expense_link budget id tx ≡ true
unfolding expense_link
links_expense budget id tx home h = ground (arith, Spends-is_expense_in id tx.detail h)

links_limit :
    (budget : BudgetContext) (id : ObjectId) (l : ExpenseLimit)
    → l.space_id ≡ budget.space_id
    → l.category ≡ id
    → limit_link budget id l ≡ true
unfolding limit_link
links_limit budget id l home h = ground arith

links_plan :
    (budget : BudgetContext) (id : ObjectId) (p : Plan)
    → p.space_id ≡ budget.space_id
    → p.category_id ≡ id
    → plan_link budget id p ≡ true
unfolding plan_link
links_plan budget id p home h = ground arith

matches :
    (budget : BudgetContext) (id : ObjectId) (c : ExpenseCategory)
    → c.space_id ≡ budget.space_id
    → c.id ≡ id
    → category_filter budget id c ≡ true
unfolding category_filter
matches budget id c home h = ground arith

module _ ⦃m : Mongo⦄ where
  -- The category that is locked, in its new version.
  pub record IsLocked (budget : BudgetContext) (id : ObjectId) (c : ExpenseCategory) (db db' : Db)
      : Type 0 where
    pub id_same : c.id ≡ id
    pub after : db' ≡ record db {
      categories =
          m.update_one
            (category_filter budget id)
            (λ x. record x { mutation_version = x.mutation_version + 1 })
            db.categories;
    }

  pub lock_category_ok :
      (budget : BudgetContext) (id : ObjectId) (b : Bool) (c : ExpenseCategory) (db db' : Db)
      → lock_budget_expense_category budget id b db ≡ ok (c, db')
      → IsLocked budget id c db db'
  unfolding lock_budget_expense_category
  lock_category_ok budget id b c db db' h =
      let p = category_filter budget id in
      let f : ExpenseCategory → ExpenseCategory =
        λ x. record x { mutation_version = x.mutation_version + 1 } in
      let written : Db = record db { categories = m.update_one p f db.categories } in
      let (y, d1, h1, k1) =
        bind_ok
          (or_raise (Option.map f (m.find_one p db.categories)) (not_found category_not_found)) _
          written h in
      let (hit, e1) = or_raise_ok (Option.map f (m.find_one p db.categories)) _ written d1 y h1 in
      let (x, found, same) = mapped f (m.find_one p db.categories) y hit in
      let refused = y.is_archived && not b in
      let (u2, d2, h2, k2) = bind_ok (raise_if refused (conflict category_archived)) _ d1 k1 in
      let (kept, e2) = raise_if_ok refused _ d1 d2 h2 in
      let (is_c, same_db) = pure_ok y c d2 db' k2 in
      record {
        id_same =
            ap (λ (z : ExpenseCategory). z.id) (sym is_c)
            ∙ ap (λ (z : ExpenseCategory). z.id) (sym same)
            ∙ category_filter-id budget id x
                (first_matches p db.categories x (sym (m.find_one_law p db.categories) ∙ found));
        after = sym same_db ∙ e2 ∙ e1;
      }

  -- A category is only removed when no expense of the space, deleted ones included, no limit and no
  -- plan refers to it. Then it is gone, if ids are distinct, and expenses, limits and plans are the
  -- same.
  pub remove_category-IsUnused :
      (budget : BudgetContext) (id : ObjectId) (db db' : Db)
      → Unique (map (λ c. c.id) db.categories)
      → remove_for_budget budget id db ≡ ok (tt, db')
      → IsUnused budget id db db'
  unfolding remove_for_budget
  remove_category-IsUnused budget id db db' u h =
      let (c, d1, h1, k1) = bind_ok (lock_budget_expense_category budget id true) _ db h in
      let lock = lock_category_ok budget id true c db d1 h1 in
      let a = is_some (m.find_one (expense_link budget c.id) d1.transactions) in
      let l = is_some (m.find_one (limit_link budget c.id) d1.limits) in
      let p = is_some (m.find_one (plan_link budget c.id) d1.plans) in
      let (u2, d2, h2, k2) = bind_ok (raise_if (a || l || p) (conflict category_in_use)) _ d1 k1 in
      let (free, e2) = raise_if_ok (a || l || p) _ d1 d2 h2 in
      let (na, nl, np) = no_links a l p free in
      let q = category_filter budget c.id in
      let written : Db = record d2 { categories = m.delete_one q d2.categories } in
      let missing = not (is_some (m.find_one q d2.categories)) in
      let (deleted, e3) = raise_if_ok missing (not_found category_not_found) written db' k2 in
      let e12 : written ≡ record d1 { categories = m.delete_one q d1.categories } =
        ap (λ (z : Db). record z { categories = m.delete_one q z.categories }) e2 in
      let f : ExpenseCategory → ExpenseCategory =
        λ x. record x { mutation_version = x.mutation_version + 1 } in
      let ids : Unique (map (λ (z : ExpenseCategory). z.id) d1.categories) =
        subst (λ (z : Db). Unique (map (λ (y : ExpenseCategory). y.id) z.categories))
          (sym lock.after)
          (subst (λ z. Unique (map (λ (y : ExpenseCategory). y.id) z))
            (sym (m.update_one_law (category_filter budget id) f db.categories))
            (subst Unique
              (sym (
                map-change_first (λ y. y.id) (category_filter budget id) f db.categories
                  (λ y. refl)))
              u)) in
      let end : db' ≡ record d1 { categories = m.delete_one q d1.categories } = e3 ∙ e12 in
      let id_is : c.id ≡ id = lock.id_same in
      let ledger : d1.transactions ≡ db.transactions = ap (λ (z : Db). z.transactions) lock.after in
      let limits : d1.limits ≡ db.limits = ap (λ (z : Db). z.limits) lock.after in
      let plans : d1.plans ≡ db.plans = ap (λ (z : Db). z.plans) lock.after in
      record {
        no_expense = λ tx there home spends.
            nothing_found (expense_link budget c.id) d1.transactions
              (ap is_some (sym (m.find_one_law (expense_link budget c.id) d1.transactions)) ∙ na)
              (Finds-In (expense_link budget c.id) d1.transactions tx
                (subst (In tx) (sym ledger) there)
                (links_expense budget c.id tx home
                  (subst (λ z. Spends z tx.detail) (sym id_is) spends)));
        no_limit = λ x there home same.
            nothing_found (limit_link budget c.id) d1.limits
              (ap is_some (sym (m.find_one_law (limit_link budget c.id) d1.limits)) ∙ nl)
              (Finds-In (limit_link budget c.id) d1.limits x (subst (In x) (sym limits) there)
                (links_limit budget c.id x home (same ∙ sym id_is)));
        no_plan = λ x there home same.
            nothing_found (plan_link budget c.id) d1.plans
              (ap is_some (sym (m.find_one_law (plan_link budget c.id) d1.plans)) ∙ np)
              (Finds-In (plan_link budget c.id) d1.plans x (subst (In x) (sym plans) there)
                (links_plan budget c.id x home (same ∙ sym id_is)));
        kept = (
          ap (λ (z : Db). z.transactions) end ∙ ledger,
          ap (λ (z : Db). z.limits) end ∙ limits,
          ap (λ (z : Db). z.plans) end ∙ plans,
        );
        gone = λ x there home same.
            drop_first_gone q (λ y. y.id) c.id d1.categories ids
              (λ y z. category_filter-id budget c.id y z)
              (Finds-In q (drop_first q d1.categories) x
                (subst (In x) (ap (λ (z : Db). z.categories) end ∙ m.delete_one_law q d1.categories)
                  there)
                (matches budget c.id x home (same ∙ sym id_is)));
      }
