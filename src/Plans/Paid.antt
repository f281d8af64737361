-- ===== src/Plans/Paid.antt =====
-- The expenses of closed plans (src/modules/plans/plans.service.ts, `closeForBudget`).
use mathlib.Core.Path.{subst₂}
use babki_back.Prelude.{
  ◌≡◌, ◌≢◌, ◌⊎◌, sym, ap, ◌∙◌, refl, true, some, none, Option, List, [], ◌∷◌, ◌++◌, All, In, inl,
  inr,
}
use babki_back.Money.{Intl}
use babki_back.Dates.{Date}
use babki_back.Mongo.{Mongo}
use babki_back.Mongo.Distinct.{Distinct, All-change_first, Distinct-change_first}
use babki_back.Mongo.Lookup.{first_matches}
use babki_back.Http.{ok}
use babki_back.Schemas.{
  Db, ObjectId, Account, Plan, Transaction, TransactionOrigin, active, closed, plan,
}
use babki_back.Budget.{BudgetContext}
use babki_back.Transactions.Defs.{is_expense}
use babki_back.Transactions.Frames.{account_for_create_ok}
use babki_back.Transactions.Posted.{Posted-transactions}
use babki_back.Transactions.Expenses.{
  ExpenseCommand, expense_document, existing_or_found, create_on_account,
}
use babki_back.Transactions.Expenses
use babki_back.Transactions.Expenses.Ledger.{create-IsCreated}
use babki_back.Plans.{ClosePlan, set_closed, open_plan_filter, closing_expense, close_for_budget}
use babki_back.Plans.Book.{plan_key}
use babki_back.Plans.Close.{close-Closed, plan_filter_id}
use babki_back.Session.Inversion.{bind_ok}

-- A closed plan has its expense in the ledger, and no transaction comes from a plan but the expense
-- of a closed one.
pub record IsPaid (txs : List Transaction) (p : Plan) : Type 0 where
  pub has_expense :
      p.status ≡ closed
      → (tx : Transaction) × In tx txs
        × (p.expense_id ≡ some tx.id)
        × (is_expense tx.detail ≡ true)
        × (tx.origin ≡ some (plan p.id))
  pub only :
      (tx : Transaction)
      → In tx txs
      → tx.origin ≡ some (plan p.id)
      → (p.status ≡ closed) × (p.expense_id ≡ some tx.id)

pub record PlanBook (ps : List Plan) (txs : List Transaction) : Type 0 where
  pub distinct : Distinct plan_key ps
  pub paid : All (IsPaid txs) ps

In-before : (txs : List Transaction) (tx row : Transaction) → In tx txs → In tx (txs ++ row ∷ [])
In-before [] tx row h = absurd h
In-before (x ∷ txs) tx row (inl e) = inl e
In-before (x ∷ txs) tx row (inr h) = inr (In-before txs tx row h)

In-last : (txs : List Transaction) (row : Transaction) → In row (txs ++ row ∷ [])
In-last [] row = inl refl
In-last (x ∷ txs) row = inr (In-last txs row)

In-split :
    (txs : List Transaction) (tx row : Transaction)
    → In tx (txs ++ row ∷ [])
    → In tx txs ⊎ (row ≡ tx)
In-split [] tx row (inl e) = inr cc
In-split [] tx row (inr h) = absurd h
In-split (x ∷ txs) tx row (inl e) = inl (inl e)
In-split (x ∷ txs) tx row (inr h) = elim (In-split txs tx row h) [
  | inl k ↦ inl (inr k)
  | inr e ↦ inr e
]

same_origin :
    (o : Option TransactionOrigin) (a b : ObjectId) → o ≡ some (plan a) → o ≡ some (plan b) → a ≡ b
same_origin o a b h k = cc

-- Another plan is as paid as before when the expense of one is added.
others :
    (txs : List Transaction) (row : Transaction) (p e : Plan)
    → row.origin ≡ some (plan p.id)
    → e.id ≢ p.id
    → IsPaid txs e
    → IsPaid (txs ++ row ∷ []) e
others txs row p e from ne k = record {
  has_expense = λ c.
      let (tx, there, id, kind, origin) = k.has_expense c in
      (tx, In-before txs tx row there, id, kind, origin);
  only = λ tx there origin. elim (In-split txs tx row there) [
    | inl old ↦ k.only tx old origin
    | inr new ↦ absurd (
        ne (
          same_origin tx.origin e.id p.id origin
            (ap (λ (z : Transaction). z.origin) (sym new) ∙ from)))
  ];
}

-- The plan that is closed has the expense that is added, and had none.
mine :
    (txs : List Transaction) (row : Transaction) (p : Plan) (now : Date)
    → row.origin ≡ some (plan p.id)
    → is_expense row.detail ≡ true
    → p.status ≡ active
    → IsPaid txs p
    → IsPaid (txs ++ row ∷ []) (set_closed now row.id p)
unfolding set_closed
mine txs row p now from kind open_plan k = record {
  has_expense = λ c. (row, In-last txs row, refl, kind, from);
  only = λ tx there origin. elim (In-split txs tx row there) [
    | inl old ↦ absurd (never p (k.only tx old origin).0 open_plan)
    | inr new ↦ (refl, ap (λ (z : Transaction). some z.id) new)
  ];
}
  where
    never : (q : Plan) → q.status ≡ closed → q.status ≡ active → ⊥
    never q h a = cc

document_facts :
    (budget : BudgetContext) (actor_id : ObjectId) (dto : ExpenseCommand) (account : Account)
    (category_id snapshot_id id : ObjectId) (origin : Option TransactionOrigin) (row : Transaction)
    → row ≡ expense_document budget actor_id dto account category_id snapshot_id origin id
    → (row.origin ≡ origin) × (is_expense row.detail ≡ true)
unfolding expense_document is_expense
document_facts budget actor_id dto account category_id snapshot_id id origin row e =
    (ap (λ (z : Transaction). z.origin) e, ap (λ (z : Transaction). is_expense z.detail) e)

module _ ⦃m : Mongo⦄ ⦃intl : Intl⦄ where
  -- The expense that is created is the last transaction of the ledger.
  expense_added :
      (budget : BudgetContext) (actor_id : ObjectId) (dto : ExpenseCommand)
      (origin : Option TransactionOrigin) (row : Transaction) (db db' : Db)
      → Expenses.create_for_budget budget actor_id dto origin none db ≡ ok (row, db')
      → (db'.transactions ≡ db.transactions ++ row ∷ [])
        × (row.origin ≡ origin)
        × (is_expense row.detail ≡ true)
  unfolding Expenses.create_for_budget existing_or_found
  expense_added budget actor_id dto origin row db db' h =
      let (account, d1, h1, k1) =
        bind_ok (existing_or_found budget dto.account_id dto.transaction_date none) _ db h in
      let (same, found, opened) =
        account_for_create_ok budget dto.account_id dto.transaction_date account db d1 h1 in
      let made = create-IsCreated budget actor_id dto origin account row d1 db' k1 in
      let (from, kind) =
        document_facts budget actor_id dto account made.category_id made.snapshot_id made.id origin
          row made.document in
      (
        Posted-transactions account row d1 db' made.posted
            ∙ ap (λ (z : Db). z.transactions ++ row ∷ []) same,
        from,
        kind,
      )

  -- Where a plan is closed, and before it the ids of plans were unique, every closed plan had its
  -- expense in the ledger, with the plan as its origin, and a plan that is the origin of a
  -- transaction was closed with the id of that transaction, all this holds again.
  pub close_plan-PlanBook :
      (budget : BudgetContext) (actor_id : ObjectId) (now : Date) (id : ObjectId) (dto : ClosePlan)
      (res : Plan) (db db' : Db)
      → PlanBook db.plans db.transactions
      → close_for_budget budget actor_id now id dto db ≡ ok (res, db')
      → PlanBook db'.plans db'.transactions
  unfolding set_closed
  close_plan-PlanBook budget actor_id now id dto res db db' k h =
      let c = close-Closed budget actor_id now id dto res db db' k.distinct h in
      let (added, from, kind) =
        expense_added budget actor_id (closing_expense now c.was dto) (some (plan id)) c.row db
          c.before c.posted in
      let mine_id : id ≡ c.was.id =
        sym (plan_filter_id budget id c.was (first_matches _ db.plans c.was c.found)) in
      let origin : c.row.origin ≡ some (plan c.was.id) = from ∙ ap (λ z. some (plan z)) mine_id in
      let q = open_plan_filter budget id in
      let f = set_closed now c.row.id in
      let txs = db.transactions in
      subst₂ PlanBook (sym c.plans) (sym (c.ledger ∙ added)) (record {
        distinct = Distinct-change_first plan_key q f db.plans (λ x. refl) k.distinct;
        paid =
            All-change_first plan_key {P = IsPaid txs} {Q = IsPaid (txs ++ c.row ∷ [])} q f db.plans
              c.was k.distinct c.hit k.paid (λ e ne b. others txs c.row c.was e origin ne b)
              (λ b. mine txs c.row c.was now origin kind c.open_plan b);
      })
