-- ===== src/Transactions/Frames.antt =====
-- What the shared steps of the services leave alone.
use mathlib.Core.Path.{subst₂}
use babki_back.Prelude.{
  ◌+◌, ◌≡◌, ◌∙◌, Bool, true, false, Option, none, some, List, [], ◌∷◌, arith, In,
}
use babki_back.Money.{known_currency, known-of, Amount, Currency, Intl}
use babki_back.Dates.{Date}
use babki_back.Mongo.{Mongo}
use babki_back.Mongo.Lookup.{first_matches, first-In}
use babki_back.Http.{ok}
use babki_back.Schemas.{Db, ObjectId, Account, AccountSnapshot, ExpenseCategory, ExpenseItem}
use babki_back.Budget.{BudgetContext}
use babki_back.Categories.{lock_budget_expense_category}
use babki_back.Snapshots.{prepare_for_budget, rebuild_for_budget, predates}
use babki_back.Snapshots.Invariant.{SameLedger}
use babki_back.Money.Precision.{IsExact, valid_iff_IsExact}
use babki_back.Transactions.Defs.{
  validate_money_for_budget, lock_accounts, lock_accounts_for_budget, account_for_budget,
  account_for_create, account_filter,
}
use babki_back.Session.{raise_if, or_raise}
use babki_back.Session.Inversion.{bind_ok, raise_if_ok, or_raise_ok, pure_ok}

pub SameLedger-refl : (db db' : Db) → db' ≡ db → SameLedger db db'
SameLedger-refl db db' e = record { snapshots = rw e; transactions = rw e }

pub SameLedger-trans : (a b c : Db) → SameLedger a b → SameLedger b c → SameLedger a c
SameLedger-trans a b c h k = record {
  snapshots = k.snapshots ∙ h.snapshots;
  transactions = k.transactions ∙ h.transactions;
}

module _ ⦃m : Mongo⦄ ⦃intl : Intl⦄ where
  pub validate_money-same :
      (account : Account) (amount : Option Amount) (items : Option (List ExpenseItem)) (db db' : Db)
      → validate_money_for_budget account amount items db ≡ ok (tt, db')
      → db' ≡ db
  unfolding validate_money_for_budget
  validate_money-same account amount items db db' h = ground arith

  lock_accounts-SameLedger :
      (budget : BudgetContext) (ids : List ObjectId) (db db' : Db)
      → lock_accounts budget ids db ≡ ok (tt, db')
      → SameLedger db db'
  unfolding lock_accounts
  lock_accounts-SameLedger budget [] db db' h = SameLedger-refl db db' (cc)
  lock_accounts-SameLedger budget (id ∷ ids) db db' h = ground (
    arith,
    lock_accounts-SameLedger budget ids
        (record db {
          accounts =
              m.update_one (account_filter budget id)
                (λ a. record a { mutation_version = a.mutation_version + 1 }) db.accounts;
        })
        db',
  )

  pub lock_accounts_for_budget-SameLedger :
      (budget : BudgetContext) (ids : List ObjectId) (db db' : Db)
      → lock_accounts_for_budget budget ids db ≡ ok (tt, db')
      → SameLedger db db'
  unfolding lock_accounts_for_budget
  lock_accounts_for_budget-SameLedger budget ids db db' h =
      lock_accounts-SameLedger budget _ db db' h

  pub lock_category-SameLedger :
      (budget : BudgetContext) (id : ObjectId) (b : Bool) (db db' : Db) (c : ExpenseCategory)
      → lock_budget_expense_category budget id b db ≡ ok (c, db')
      → SameLedger db db'
  unfolding lock_budget_expense_category
  lock_category-SameLedger budget id b db db' c h = ground arith

  pub prepare-rebuild :
      (account : Account) (date : Date) (db db' : Db) (s : AccountSnapshot)
      → prepare_for_budget account date db ≡ ok (s, db')
      → rebuild_for_budget account date db ≡ ok (tt, db')
  unfolding prepare_for_budget
  prepare-rebuild account date db db' s h = ground arith

  -- An account that is found stands in the collection, is of the budget, and is not archived.
  pub record IsOpenAccount (budget : BudgetContext) (id : ObjectId) (a : Account) (db : Db)
      : Type 0 where
    pub stored : In a db.accounts
    pub id_eq : a.id ≡ id
    pub space : a.space_id ≡ budget.space_id
    pub open_account : a.archived_at ≡ none

  account_filter-true :
      (budget : BudgetContext) (id : ObjectId) (a : Account)
      → account_filter budget id a ≡ true
      → (a.id ≡ id) × (a.space_id ≡ budget.space_id) × (a.archived_at ≡ none)
  unfolding account_filter
  account_filter-true budget id a h = (ground arith, ground arith, ground arith)

  pub account_for_budget_ok :
      (budget : BudgetContext) (id : ObjectId) (a : Account) (db db' : Db)
      → account_for_budget budget id db ≡ ok (a, db')
      → (db' ≡ db) × IsOpenAccount budget id a db
  unfolding account_for_budget
  account_for_budget_ok budget id a db db' h =
      let (found, same) = or_raise_ok _ _ db db' a h in
      let e = rw m.find_one_law at found in
      let (i, s, o) =
        account_filter-true budget id a
          (first_matches (account_filter budget id) db.accounts a e) in
      (
        same,
        record {
          stored = first-In (account_filter budget id) db.accounts a e;
          id_eq = i;
          space = s;
          open_account = o;
        },
      )

  -- For a new transaction the account was open at its date too.
  pub account_for_create_ok :
      (budget : BudgetContext) (id : ObjectId) (date : Date) (a : Account) (db db' : Db)
      → account_for_create budget id date db ≡ ok (a, db')
      → (db' ≡ db) × IsOpenAccount budget id a db × (predates date a.opened_at ≡ false)
  unfolding account_for_create
  account_for_create_ok budget id date a db db' h =
      let (a', d1, h1, k1) = bind_ok (account_for_budget budget id) _ db h in
      let (same, found) = account_for_budget_ok budget id a' db d1 h1 in
      let (u, d2, h2, k2) = bind_ok (raise_if (predates date a'.opened_at) _) _ d1 k1 in
      let (late, same') = raise_if_ok (predates date a'.opened_at) _ d1 d2 h2 in
      let (e, e') = pure_ok a' a d2 db' k2 in
      subst₂ (λ x y. (y ≡ db) × IsOpenAccount budget id x db × (predates date x.opened_at ≡ false))
        e e' (same' ∙ same, found, late)

  -- Money that is accepted is exact in the currency of the account.
  pub validate_money-IsExact :
      (account : Account) (amount : Amount) (items : Option (List ExpenseItem)) (db db' : Db)
      → validate_money_for_budget account (some amount) items db ≡ ok (tt, db')
      → (c : Currency) × (known_currency account.currency ≡ some c) × IsExact c amount
  unfolding validate_money_for_budget
  validate_money-IsExact account amount items db db' h =
      let (c, d1, h1, k1) = bind_ok (or_raise account.currency _) _ db h in
      let (has, same) = or_raise_ok account.currency _ db d1 c h1 in
      (
        c,
        known-of account.currency c has (ground arith),
        (valid_iff_IsExact amount c).0 (ground arith),
      )
