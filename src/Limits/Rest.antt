-- ===== src/Limits/Rest.antt =====
-- What is left of a limit when an expense is created
-- (src/modules/expense-limits/expense-limits.service.ts, `findExpenseUsage` and `buildResponse`).
use mathlib.Core.Path.{subst}
use babki_back.Prelude.{
  ◌≡◌, ◌≤◌, ◌↔◌, ==_iff, refl, sym, ap, ◌∙◌, Bool, true, false, Option, none, some, List, [], ◌∷◌,
  ◌++◌, arith, inl, inr, Bool-cases, Option-cases, if◌then◌else◌,
}
use babki_back.Prelude.Int.{ℤ, pos, ◌+ℤ◌, ◌-ℤ◌, neg, int_laws}
use babki_back.Money.{known_currency, known-some, Amount, Currency, Intl, normalize_money}
use babki_back.Money.Precision.{IsExact, normalize_money-add, neg-IsExact}
use babki_back.Mongo.{Mongo, matching}
use babki_back.Http.{ok}
use babki_back.Schemas.{
  Db, ObjectId, Account, ExpenseLimit, Transaction, TransactionOrigin, TransactionDetail, income,
  expense, transfer,
}
use babki_back.Budget.{BudgetContext}
use babki_back.Transactions.Posted.{Posted-transactions}
use babki_back.Transactions.Expenses.{ExpenseCommand, expense_document, create_on_account}
use babki_back.Transactions.Expenses.Ledger.{create-IsCreated}
use babki_back.Limits.{
  LimitResponse, same_currency, usage_filter, spends_on, amount_of, sum_amounts, find_expense_usage,
  build_response,
}
use babki_back.Session.Inversion.{pure_ok}

-- What an expense is that a limit counts: it is of the space, not deleted, within the period, and of
-- the category and the currency of the limit.
abbrev pub Spends : ExpenseLimit → TransactionDetail → Type 0
Spends l (income p) = ⊥
Spends l (expense p x) = (x.category ≡ l.category) × (p.currency ≡ l.currency)
Spends l (transfer s d) = ⊥

pub record IsCounted (budget : BudgetContext) (l : ExpenseLimit) (tx : Transaction) : Type 0 where
  pub home : tx.space_id ≡ budget.space_id
  pub live : tx.deleted_at ≡ none
  pub begun : l.start_date ≤ tx.transaction_date
  pub not_over : tx.transaction_date ≤ l.end_date
  pub spends : Spends l tx.detail

same_currency_iff : (a b : Option Currency) → (same_currency a b ≡ true) ↔ (a ≡ b)
unfolding same_currency
same_currency_iff none none = (λ h. refl, λ h. refl)
same_currency_iff none (some b) = (λ h. cc, λ h. cc)
same_currency_iff (some a) none = (λ h. cc, λ h. cc)
same_currency_iff (some a) (some b) = (λ h. ap some ((==_iff a b).0 h), λ h. ground arith)

Spends-iff :
    (l : ExpenseLimit) (d : TransactionDetail)
    → (spends_on l.category l.currency d ≡ true) ↔ Spends l d
unfolding spends_on
Spends-iff l (income p) = (λ h. cc, λ h. absurd h)
Spends-iff l (transfer s d) = (λ h. cc, λ h. absurd h)
Spends-iff l (expense p x) =
    let currency = same_currency_iff p.currency l.currency in
    (
      λ h. (ground arith, currency.0 (ground arith)),
      λ h. let same = currency.1 h.1 in ground (arith, h.0),
    )

-- The filter of the expenses that a limit counts.
abbrev pub counts : BudgetContext → ExpenseLimit → Transaction → Bool
counts budget l = usage_filter budget l.category l.start_date l.end_date l.currency

counts_iff :
    (budget : BudgetContext) (l : ExpenseLimit) (tx : Transaction)
    → (counts budget l tx ≡ true) ↔ IsCounted budget l tx
unfolding usage_filter
counts_iff budget l tx =
    let spends = Spends-iff l tx.detail in
    (
      λ h. record {
        home = ground arith;
        live = ground arith;
        begun = ground arith;
        not_over = ground arith;
        spends = spends.0 (ground arith);
      },
      λ c. let here = spends.1 c.spends in ground (arith, c.home, c.live, c.begun, c.not_over),
    )

sum_amounts-append :
    (p : Transaction → Bool) (txs : List Transaction) (tx : Transaction)
    → sum_amounts (matching p (txs ++ tx ∷ []))
      ≡ sum_amounts (matching p txs) +ℤ (if p tx then amount_of tx.detail else pos 0)
unfolding sum_amounts matching
sum_amounts-append p [] tx = grind int_laws
sum_amounts-append p (x ∷ txs) tx = grind (int_laws, sum_amounts-append p txs tx)

minus_more : (t u a : ℤ) → t -ℤ (u +ℤ a) ≡ (t -ℤ u) +ℤ neg a
minus_more t u a = omega int_laws

plus_nothing : (a : ℤ) → a +ℤ pos 0 ≡ a
plus_nothing a = omega int_laws

module _ ⦃m : Mongo⦄ ⦃intl : Intl⦄ where
  -- What is left, as a function of the ledger.
  abbrev rest_of : BudgetContext → ExpenseLimit → Currency → List Transaction → Amount
  rest_of budget l c txs =
      normalize_money (l.total -ℤ normalize_money (sum_amounts (matching (counts budget l) txs)) c)
        c

  response_runs :
      (budget : BudgetContext) (l : ExpenseLimit) (c : Currency) (db : Db)
      → known_currency l.currency ≡ some c
      → build_response budget l db
        ≡ ok (record { limit = l; rest = rest_of budget l c db.transactions }, db)
  unfolding build_response find_expense_usage
  response_runs budget l c db h = rw (
    h,
    m.find_law (usage_filter budget l.category l.start_date l.end_date l.currency) db.transactions,
  )

  has_currency :
      (budget : BudgetContext) (l : ExpenseLimit) (r : LimitResponse) (db db' : Db)
      → build_response budget l db ≡ ok (r, db')
      → (c : Currency) × (known_currency l.currency ≡ some c)
  unfolding build_response find_expense_usage
  has_currency budget l r db db' h = elim (Option-cases (known_currency l.currency)) [
    | inl n ↦ absurd (impossible n)
    | inr s ↦ s
  ]
    where
      impossible : known_currency l.currency ≡ none → ⊥
      impossible n = ground arith

  counted_currency :
      (budget : BudgetContext) (actor_id : ObjectId) (dto : ExpenseCommand) (account : Account)
      (category_id snapshot_id id : ObjectId) (origin : Option TransactionOrigin) (l : ExpenseLimit)
      (a c : Currency)
      → counts budget l
          (expense_document budget actor_id dto account category_id snapshot_id origin id)
        ≡ true
      → account.currency ≡ some a
      → l.currency ≡ some c
      → a ≡ c
  unfolding usage_filter spends_on same_currency expense_document
  counted_currency budget actor_id dto account category_id snapshot_id id origin l a c h q k =
      ground arith

  amount_same :
      (budget : BudgetContext) (actor_id : ObjectId) (dto : ExpenseCommand) (account : Account)
      (category_id snapshot_id id : ObjectId) (origin : Option TransactionOrigin)
      → amount_of
          (expense_document budget actor_id dto account category_id snapshot_id origin id).detail
        ≡ dto.amount
  unfolding amount_of expense_document
  amount_same budget actor_id dto account category_id snapshot_id id origin = refl

  -- A counted amount that is exact lowers the rest by itself.
  rest-append :
      (budget : BudgetContext) (l : ExpenseLimit) (c : Currency) (txs : List Transaction)
      (tx : Transaction) (a : Amount)
      → counts budget l tx ≡ true
      → amount_of tx.detail ≡ a
      → IsExact c a
      → rest_of budget l c (txs ++ tx ∷ []) ≡ rest_of budget l c txs +ℤ neg a
  rest-append budget l c txs tx a h e exact =
      let s = sum_amounts (matching (counts budget l) txs) in
      let grown : sum_amounts (matching (counts budget l) (txs ++ tx ∷ [])) ≡ s +ℤ a =
        sum_amounts-append (counts budget l) txs tx
        ∙ ap (λ b. s +ℤ (if b then amount_of tx.detail else pos 0)) h
        ∙ ap (λ z. s +ℤ z) e in
      ap (λ z. normalize_money (l.total -ℤ normalize_money z c) c) grown
      ∙ ap (λ z. normalize_money (l.total -ℤ z) c) (normalize_money-add s a c exact)
      ∙ ap (λ z. normalize_money z c) (minus_more l.total (normalize_money s c) a)
      ∙ normalize_money-add (l.total -ℤ normalize_money s c) (neg a) c (neg-IsExact a c exact)

  rest-append_other :
      (budget : BudgetContext) (l : ExpenseLimit) (c : Currency) (txs : List Transaction)
      (tx : Transaction)
      → counts budget l tx ≡ false
      → rest_of budget l c (txs ++ tx ∷ []) ≡ rest_of budget l c txs
  rest-append_other budget l c txs tx h =
      let s = sum_amounts (matching (counts budget l) txs) in
      ap (λ z. normalize_money (l.total -ℤ normalize_money z c) c)
        (sum_amounts-append (counts budget l) txs tx
          ∙ ap (λ b. s +ℤ (if b then amount_of tx.detail else pos 0)) h
          ∙ plus_nothing s)

  -- When an expense is created, what is left of a limit that counts it is lower by its amount, and
  -- what is left of any other limit is the same. A limit counts exactly the expenses of the space
  -- that are not deleted, within its period, and of its category and currency.
  pub create_expense-rest :
      (budget : BudgetContext) (actor_id : ObjectId) (dto : ExpenseCommand)
      (origin : Option TransactionOrigin) (account : Account) (tx : Transaction) (l : ExpenseLimit)
      (r : LimitResponse) (db db' : Db)
      → create_on_account budget actor_id dto origin account db ≡ ok (tx, db')
      → build_response budget l db ≡ ok (r, db)
      → (IsCounted budget l tx
          → build_response budget l db'
            ≡ ok (record { limit = l; rest = r.rest +ℤ neg dto.amount }, db'))
        × (¬ (IsCounted budget l tx)
            → build_response budget l db' ≡ ok (record { limit = l; rest = r.rest }, db'))
        × ((x : Transaction)
            → (usage_filter budget l.category l.start_date l.end_date l.currency x ≡ true)
              ↔ IsCounted budget l x)
  create_expense-rest budget actor_id dto origin account tx l r db db' h k =
      let (c, known) = has_currency budget l r db db k in
      let cur = (known-some l.currency c known).0 in
      let made = create-IsCreated budget actor_id dto origin account tx db db' h in
      let has = (known-some account.currency made.cur made.has).0 in
      let grown = Posted-transactions account tx db db' made.posted in
      let r_eq : rest_of budget l c db.transactions ≡ r.rest =
        ap (λ (z : LimitResponse). z.rest)
          (pure_ok (record { limit = l; rest = rest_of budget l c db.transactions }) r db db
            (sym (response_runs budget l c db known) ∙ k)).0 in
      let now : (v : Amount)
          → rest_of budget l c (db.transactions ++ tx ∷ []) ≡ v
          → build_response budget l db' ≡ ok (record { limit = l; rest = v }, db') =
        λ v e.
          response_runs budget l c db' known
          ∙ ap (λ z. ok (record { limit = l; rest = z }, db'))
              (ap (rest_of budget l c) grown ∙ e) in
      (
        λ yes.
            let y = (counts_iff budget l tx).1 yes in
            now (r.rest +ℤ neg dto.amount) (
              rest-append budget l c db.transactions tx dto.amount y
                (ap (λ (z : Transaction). amount_of z.detail) made.document
                  ∙ amount_same budget actor_id dto account made.category_id made.snapshot_id
                      made.id origin)
                (subst (λ z. IsExact z dto.amount)
                  (counted_currency budget actor_id dto account made.category_id made.snapshot_id
                    made.id origin l made.cur c (ap (counts budget l) (sym made.document) ∙ y) has
                    cur)
                  made.exact)
              ∙ ap (λ (z : ℤ). z +ℤ neg dto.amount) r_eq),
        λ no. now r.rest (
            rest-append_other budget l c db.transactions tx
              (elim (Bool-cases (counts budget l tx)) [
                | inl y ↦ absurd (no ((counts_iff budget l tx).0 y))
                | inr n ↦ n
              ])
            ∙ r_eq),
        counts_iff budget l,
      )
