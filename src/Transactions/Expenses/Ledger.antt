-- ===== src/Transactions/Expenses/Ledger.antt =====
-- Creating an expense, in the ledger.
use mathlib.Core.Path.{subst}
use babki_back.Prelude.{refl, ◌⊎◌, ◌≡◌, ◌≢◌, sym, false, some, Option, [], ◌∷◌, arith, map}
use babki_back.Prelude.Int.{neg}
use babki_back.Money.{known_currency, Currency, Intl}
use babki_back.Money.Precision.{IsExact, neg-IsExact}
use babki_back.Mongo.{Mongo}
use babki_back.Http.{ok}
use babki_back.Schemas.{Db, ObjectId, Account, Transaction, TransactionOrigin}
use babki_back.Budget.{BudgetContext}
use babki_back.Categories.{lock_budget_expense_category}
use babki_back.Snapshots.{
  prepare_for_budget, apply_for_budget, rebuild_for_budget, detail_concerns, detail_movement,
  predates,
}
use babki_back.Snapshots.Invariant.{SameLedger, SnapshotsMatch}
use babki_back.Transactions.Defs.{validate_money_for_budget, lock_accounts_for_budget}
use babki_back.Transactions.Frames.{
  SameLedger-refl, SameLedger-trans, validate_money-same, validate_money-IsExact,
  lock_accounts_for_budget-SameLedger, lock_category-SameLedger, prepare-rebuild,
}
use babki_back.Transactions.Posted.{
  Posted, Posted-from, Posted-SnapshotsMatch, MovesBalance, Posted-MovesBalance,
}
use babki_back.Transactions.Expenses.{
  ExpenseCommand, expense_document, create_row, create_on_account,
}
use babki_back.Session.Inversion.{bind_ok, pure_ok}

module _ ⦃m : Mongo⦄ ⦃intl : Intl⦄ where
  -- The document that an expense leaves behind, and how it came into the ledger.
  pub record IsCreated (budget : BudgetContext) (actor_id : ObjectId) (dto : ExpenseCommand)
      (origin : Option TransactionOrigin) (account : Account) (tx : Transaction) (db db' : Db)
      : Type 0 where
    pub category_id : ObjectId
    pub snapshot_id : ObjectId
    pub id : ObjectId
    pub document :
        tx ≡ expense_document budget actor_id dto account category_id snapshot_id origin id
    pub posted : Posted account tx db db'
    pub cur : Currency
    pub has : known_currency account.currency ≡ some cur
    pub exact : IsExact cur dto.amount

  IsCreated-from :
      (budget : BudgetContext) (actor_id : ObjectId) (dto : ExpenseCommand)
      (origin : Option TransactionOrigin) (account : Account) (tx : Transaction)
      (db before prepared db' : Db) (category_id snapshot_id : ObjectId)
      → SameLedger db before
      → rebuild_for_budget account dto.transaction_date before ≡ ok (tt, prepared)
      → create_row budget actor_id dto origin account category_id snapshot_id prepared
        ≡ ok (tx, db')
      → ((c : Currency) × (known_currency account.currency ≡ some c) × IsExact c dto.amount)
      → IsCreated budget actor_id dto origin account tx db db'
  unfolding create_row apply_for_budget expense_document
  IsCreated-from budget actor_id dto origin account tx db before prepared db' category_id
        snapshot_id same prepares h money =
      let id = m.object_id (map (λ t. t.id) prepared.transactions) in
      let doc = expense_document budget actor_id dto account category_id snapshot_id origin id in
      let (u, d5, h5, k5) =
        bind_ok (rebuild_for_budget account dto.transaction_date) _
          (record prepared { transactions = m.insert doc prepared.transactions }) h in
      let (e, e') = pure_ok doc tx d5 db' k5 in
      record {
        category_id = category_id;
        snapshot_id = snapshot_id;
        id = id;
        document = sym e;
        posted = Posted-from account doc tx db before prepared d5 db' same prepares h5 e e';
        cur = money.0;
        has = money.1;
        exact = money.2;
      }

  pub create-IsCreated :
      (budget : BudgetContext) (actor_id : ObjectId) (dto : ExpenseCommand)
      (origin : Option TransactionOrigin) (account : Account) (tx : Transaction) (db db' : Db)
      → create_on_account budget actor_id dto origin account db ≡ ok (tx, db')
      → IsCreated budget actor_id dto origin account tx db db'
  unfolding create_on_account
  create-IsCreated budget actor_id dto origin account tx db db' h =
      let (u1, d1, h1, k1) =
        bind_ok (validate_money_for_budget account (some dto.amount) dto.items) _ db h in
      let (u2, d2, h2, k2) = bind_ok (lock_accounts_for_budget budget (account.id ∷ [])) _ d1 k1 in
      let (c, d3, h3, k3) =
        bind_ok (lock_budget_expense_category budget dto.category_id false) _ d2 k2 in
      let (s, d4, h4, k4) = bind_ok (prepare_for_budget account dto.transaction_date) _ d3 k3 in
      IsCreated-from budget actor_id dto origin account tx db d3 d4 db' c.id s.id
        (SameLedger-trans db d1 d3
          (SameLedger-refl db d1 (validate_money-same account _ _ db d1 h1))
          (SameLedger-trans d1 d2 d3 (lock_accounts_for_budget-SameLedger budget _ d1 d2 h2)
            (lock_category-SameLedger budget dto.category_id false d2 d3 c h3)))
        (prepare-rebuild account dto.transaction_date d3 d4 s h4) k4
        (validate_money-IsExact account dto.amount dto.items db d1 h1)

  expense_alone :
      (budget : BudgetContext) (actor_id : ObjectId) (dto : ExpenseCommand) (account b : Account)
      (category_id snapshot_id id : ObjectId) (origin : Option TransactionOrigin)
      → b.id ≢ account.id
      → detail_concerns b.id
          (expense_document budget actor_id dto account category_id snapshot_id origin id).detail
        ≡ false
  unfolding expense_document detail_concerns
  expense_alone budget actor_id dto account b category_id snapshot_id id origin ne = ground arith

  IsCreated-alone :
      (budget : BudgetContext) (actor_id : ObjectId) (dto : ExpenseCommand)
      (origin : Option TransactionOrigin) (account : Account) (tx : Transaction) (db db' : Db)
      → IsCreated budget actor_id dto origin account tx db db'
      → (b : Account) → b.id ≢ account.id
      → detail_concerns b.id tx.detail ≡ false
  IsCreated-alone budget actor_id dto origin account tx db db' c b ne =
      rw c.document
        (expense_alone budget actor_id dto account b c.category_id c.snapshot_id c.id origin ne)

  -- Where an expense is created on an account, and every snapshot stood at a month end and those of
  -- some account, this one or one with another id, held its balances, they do so again.
  pub create_expense-SnapshotsMatch :
      (budget : BudgetContext) (actor_id : ObjectId) (dto : ExpenseCommand)
      (origin : Option TransactionOrigin) (account b : Account) (tx : Transaction) (db db' : Db)
      → create_on_account budget actor_id dto origin account db ≡ ok (tx, db')
      → (b ≡ account) ⊎ (b.id ≢ account.id)
      → SnapshotsMatch b db
      → SnapshotsMatch b db'
  create_expense-SnapshotsMatch budget actor_id dto origin account b tx db db' h which s =
      let c = create-IsCreated budget actor_id dto origin account tx db db' h in
      Posted-SnapshotsMatch b account tx db db' c.posted
        (IsCreated-alone budget actor_id dto origin account tx db db' c) which s

  expense_moves :
      (budget : BudgetContext) (actor_id : ObjectId) (dto : ExpenseCommand)
      (origin : Option TransactionOrigin) (account : Account) (doc : Transaction) (db db' : Db)
      (cur : Currency) (category_id snapshot_id id : ObjectId)
      → doc ≡ expense_document budget actor_id dto account category_id snapshot_id origin id
      → Posted account doc db db'
      → known_currency account.currency ≡ some cur
      → IsExact cur dto.amount
      → account.space_id ≡ budget.space_id
      → predates dto.transaction_date account.opened_at ≡ false
      → MovesBalance account dto.transaction_date (neg dto.amount) db db'
  unfolding expense_document detail_concerns detail_movement
  expense_moves budget actor_id dto origin account doc db db' cur category_id snapshot_id id e p has
        exact space opened =
      let p' = subst (λ x. Posted account x db db') e p in
      Posted-MovesBalance account
        (expense_document budget actor_id dto account category_id snapshot_id origin id) db db' cur
        p'
        (λ b ne. expense_alone budget actor_id dto account b category_id snapshot_id id origin ne)
        has (neg-IsExact dto.amount cur exact) (sym space) (ground arith) refl opened

  -- An expense on an account of the budget, not before its opening, lowers the balance by its
  -- amount from its date on. No other balance that there is changes.
  pub create_expense-MovesBalance :
      (budget : BudgetContext) (actor_id : ObjectId) (dto : ExpenseCommand)
      (origin : Option TransactionOrigin) (account : Account) (tx : Transaction) (db db' : Db)
      → create_on_account budget actor_id dto origin account db ≡ ok (tx, db')
      → account.space_id ≡ budget.space_id
      → predates dto.transaction_date account.opened_at ≡ false
      → MovesBalance account dto.transaction_date (neg dto.amount) db db'
  create_expense-MovesBalance budget actor_id dto origin account tx db db' h space opened =
      let c = create-IsCreated budget actor_id dto origin account tx db db' h in
      expense_moves budget actor_id dto origin account tx db db' c.cur c.category_id c.snapshot_id
        c.id c.document c.posted c.has c.exact space opened
