-- ===== src/Transactions/Incomes/Ledger.antt =====
-- Creating an income, in the ledger.
use mathlib.Core.Path.{subst}
use babki_back.Prelude.{refl, ◌⊎◌, ◌≡◌, ◌≢◌, sym, false, none, some, Option, [], ◌∷◌, arith, map}
use babki_back.Money.{known_currency, Currency, Intl}
use babki_back.Money.Precision.{IsExact}
use babki_back.Mongo.{Mongo}
use babki_back.Http.{ok}
use babki_back.Schemas.{Db, ObjectId, Account, Transaction, TransactionOrigin}
use babki_back.Budget.{BudgetContext}
use babki_back.Snapshots.{
  prepare_for_budget, apply_for_budget, rebuild_for_budget, detail_concerns, detail_movement,
  predates,
}
use babki_back.Snapshots.Invariant.{SameLedger, SnapshotsMatch}
use babki_back.Transactions.Defs.{validate_money_for_budget, lock_accounts_for_budget}
use babki_back.Transactions.Frames.{
  SameLedger-refl, SameLedger-trans, validate_money-same, validate_money-IsExact,
  lock_accounts_for_budget-SameLedger, prepare-rebuild,
}
use babki_back.Transactions.Posted.{
  Posted, Posted-from, Posted-SnapshotsMatch, MovesBalance, Posted-MovesBalance,
}
use babki_back.Transactions.Incomes.{IncomeCommand, income_document, create_row, create_on_account}
use babki_back.Session.Inversion.{bind_ok, pure_ok}

module _ ⦃m : Mongo⦄ ⦃intl : Intl⦄ where
  -- The document that an income leaves behind, and how it came into the ledger.
  pub record IsCreated (budget : BudgetContext) (actor_id : ObjectId) (dto : IncomeCommand)
      (origin : Option TransactionOrigin) (account : Account) (tx : Transaction) (db db' : Db)
      : Type 0 where
    pub snapshot_id : ObjectId
    pub id : ObjectId
    pub document : tx ≡ income_document budget actor_id dto account snapshot_id origin id
    pub posted : Posted account tx db db'
    pub cur : Currency
    pub has : known_currency account.currency ≡ some cur
    pub exact : IsExact cur dto.amount

  IsCreated-from :
      (budget : BudgetContext) (actor_id : ObjectId) (dto : IncomeCommand)
      (origin : Option TransactionOrigin) (account : Account) (tx : Transaction)
      (db before prepared db' : Db) (snapshot_id : ObjectId)
      → SameLedger db before
      → rebuild_for_budget account dto.transaction_date before ≡ ok (tt, prepared)
      → create_row budget actor_id dto origin account snapshot_id prepared ≡ ok (tx, db')
      → ((c : Currency) × (known_currency account.currency ≡ some c) × IsExact c dto.amount)
      → IsCreated budget actor_id dto origin account tx db db'
  unfolding create_row apply_for_budget income_document
  IsCreated-from budget actor_id dto origin account tx db before prepared db' snapshot_id same
        prepares h money =
      let id = m.object_id (map (λ t. t.id) prepared.transactions) in
      let doc = income_document budget actor_id dto account snapshot_id origin id in
      let (u, d5, h5, k5) =
        bind_ok (rebuild_for_budget account dto.transaction_date) _
          (record prepared { transactions = m.insert doc prepared.transactions }) h in
      let (e, e') = pure_ok doc tx d5 db' k5 in
      record {
        snapshot_id = snapshot_id;
        id = id;
        document = sym e;
        posted = Posted-from account doc tx db before prepared d5 db' same prepares h5 e e';
        cur = money.0;
        has = money.1;
        exact = money.2;
      }

  pub create-IsCreated :
      (budget : BudgetContext) (actor_id : ObjectId) (dto : IncomeCommand)
      (origin : Option TransactionOrigin) (account : Account) (tx : Transaction) (db db' : Db)
      → create_on_account budget actor_id dto origin account db ≡ ok (tx, db')
      → IsCreated budget actor_id dto origin account tx db db'
  unfolding create_on_account
  create-IsCreated budget actor_id dto origin account tx db db' h =
      let (u1, d1, h1, k1) =
        bind_ok (validate_money_for_budget account (some dto.amount) none) _ db h in
      let (u2, d2, h2, k2) = bind_ok (lock_accounts_for_budget budget (account.id ∷ [])) _ d1 k1 in
      let (s, d4, h4, k4) = bind_ok (prepare_for_budget account dto.transaction_date) _ d2 k2 in
      IsCreated-from budget actor_id dto origin account tx db d2 d4 db' s.id
        (SameLedger-trans db d1 d2
          (SameLedger-refl db d1 (validate_money-same account _ _ db d1 h1))
          (lock_accounts_for_budget-SameLedger budget _ d1 d2 h2))
        (prepare-rebuild account dto.transaction_date d2 d4 s h4) k4
        (validate_money-IsExact account dto.amount none db d1 h1)

  income_alone :
      (budget : BudgetContext) (actor_id : ObjectId) (dto : IncomeCommand) (account b : Account)
      (snapshot_id id : ObjectId) (origin : Option TransactionOrigin)
      → b.id ≢ account.id
      → detail_concerns b.id
          (income_document budget actor_id dto account snapshot_id origin id).detail
        ≡ false
  unfolding income_document detail_concerns
  income_alone budget actor_id dto account b snapshot_id id origin ne = ground arith

  IsCreated-alone :
      (budget : BudgetContext) (actor_id : ObjectId) (dto : IncomeCommand)
      (origin : Option TransactionOrigin) (account : Account) (tx : Transaction) (db db' : Db)
      → IsCreated budget actor_id dto origin account tx db db'
      → (b : Account) → b.id ≢ account.id
      → detail_concerns b.id tx.detail ≡ false
  IsCreated-alone budget actor_id dto origin account tx db db' c b ne =
      rw c.document (income_alone budget actor_id dto account b c.snapshot_id c.id origin ne)

  -- Where an income is created on an account, and every snapshot stood at a month end and those of
  -- some account, this one or one with another id, held its balances, they do so again.
  pub create_income-SnapshotsMatch :
      (budget : BudgetContext) (actor_id : ObjectId) (dto : IncomeCommand)
      (origin : Option TransactionOrigin) (account b : Account) (tx : Transaction) (db db' : Db)
      → create_on_account budget actor_id dto origin account db ≡ ok (tx, db')
      → (b ≡ account) ⊎ (b.id ≢ account.id)
      → SnapshotsMatch b db
      → SnapshotsMatch b db'
  create_income-SnapshotsMatch budget actor_id dto origin account b tx db db' h which s =
      let c = create-IsCreated budget actor_id dto origin account tx db db' h in
      Posted-SnapshotsMatch b account tx db db' c.posted
        (IsCreated-alone budget actor_id dto origin account tx db db' c) which s

  income_moves :
      (budget : BudgetContext) (actor_id : ObjectId) (dto : IncomeCommand)
      (origin : Option TransactionOrigin) (account : Account) (doc : Transaction) (db db' : Db)
      (cur : Currency) (snapshot_id id : ObjectId)
      → doc ≡ income_document budget actor_id dto account snapshot_id origin id
      → Posted account doc db db'
      → known_currency account.currency ≡ some cur
      → IsExact cur dto.amount
      → account.space_id ≡ budget.space_id
      → predates dto.transaction_date account.opened_at ≡ false
      → MovesBalance account dto.transaction_date dto.amount db db'
  unfolding income_document detail_concerns detail_movement
  income_moves budget actor_id dto origin account doc db db' cur snapshot_id id e p has exact space
        opened =
      let p' = subst (λ x. Posted account x db db') e p in
      Posted-MovesBalance account
        (income_document budget actor_id dto account snapshot_id origin id) db db' cur p'
        (λ b ne. income_alone budget actor_id dto account b snapshot_id id origin ne) has exact
        (sym space) (ground arith) refl opened

  -- An income on an account of the budget, not before its opening, raises the balance by its
  -- amount from its date on. No other balance that there is changes.
  pub create_income-MovesBalance :
      (budget : BudgetContext) (actor_id : ObjectId) (dto : IncomeCommand)
      (origin : Option TransactionOrigin) (account : Account) (tx : Transaction) (db db' : Db)
      → create_on_account budget actor_id dto origin account db ≡ ok (tx, db')
      → account.space_id ≡ budget.space_id
      → predates dto.transaction_date account.opened_at ≡ false
      → MovesBalance account dto.transaction_date dto.amount db db'
  create_income-MovesBalance budget actor_id dto origin account tx db db' h space opened =
      let c = create-IsCreated budget actor_id dto origin account tx db db' h in
      income_moves budget actor_id dto origin account tx db db' c.cur c.snapshot_id c.id c.document
        c.posted c.has c.exact space opened
