-- ===== src/Snapshots/Balance.antt =====
-- The balance of an account as a sum over the ledger, and how the sum changes with the ledger.
use babki_back.Prelude.{
  ◌≤◌, ◌<◌, ◌≡◌, refl, sym, ap, ◌∙◌, Bool, true, false, Option, none, some, List, [], ◌∷◌, ◌++◌,
  arith, is_some, leb, ◌==◌, if◌then◌else◌, get_or, inl, inr, Bool-cases,
}
use babki_back.Prelude.Int.{pos, neg, ◌+ℤ◌, ◌-ℤ◌, +ℤ_assoc, parts_eq, int_laws}
use babki_back.Money.{known_currency, Amount, Currency, Intl, normalize_money}
use babki_back.Money.Precision.{IsExact, normalize_money-add}
use babki_back.Dates.{Date}
use babki_back.Mongo.{Mongo, first, matching, change_first}
use babki_back.Http.{Result, ok, err, other_error}
use babki_back.Schemas.{
  Db, ObjectId, Account, Transaction, TransactionDetail, income, expense, transfer,
}
use babki_back.Snapshots.{
  detail_movement, detail_concerns, balance_filter, sum_movements, predates, balance_for_budget,
}

-- What a transaction of one kind adds to the balance of an account: an income its amount, an
-- expense its amount taken away, a transfer what leaves the source or reaches the destination.
movement : ObjectId → TransactionDetail → Amount
movement id (income p) = if p.account_id == id then p.amount else pos 0
movement id (expense p x) = if p.account_id == id then neg p.amount else pos 0
movement id (transfer s d) =
    if s.account_id == id then neg s.amount else if d.account_id == id then d.amount else pos 0

-- What a transaction adds to the balance of an account at a date: nothing if it is deleted, of
-- another space, or later.
pub contribution : Account → Date → Transaction → Amount
unfolding movement
contribution account date tx =
    if is_some tx.deleted_at
    then pos 0
    else if tx.space_id == account.space_id
    then if leb tx.transaction_date date then movement account.id tx.detail else pos 0
    else pos 0

movement-code :
    (id : ObjectId) (d : TransactionDetail)
    → movement id d ≡ (if detail_concerns id d then detail_movement id d else pos 0)
unfolding movement detail_concerns detail_movement
movement-code id (income p) = ground arith
movement-code id (expense p x) = ground arith
movement-code id (transfer s d) = ground arith

-- The filter and the sum of the code, on one transaction.
contribution-code :
    (account : Account) (date : Date) (tx : Transaction)
    → contribution account date tx
      ≡ (if balance_filter account date tx then detail_movement account.id tx.detail else pos 0)
unfolding contribution balance_filter
contribution-code account date tx = ground (arith, movement-code account.id tx.detail)

pub ledger_total : Account → Date → List Transaction → Amount
ledger_total account date [] = pos 0
ledger_total account date (tx ∷ txs) = contribution account date tx +ℤ ledger_total account date txs

sum_movements-matching :
    (account : Account) (date : Date) (txs : List Transaction)
    → sum_movements account.id (matching (balance_filter account date) txs)
      ≡ ledger_total account date txs
unfolding sum_movements matching ledger_total
sum_movements-matching account date [] = refl
sum_movements-matching account date (tx ∷ txs) =
    grind (int_laws, contribution-code account date tx, sum_movements-matching account date txs)

pub ledger_total-append :
    (account : Account) (date : Date) (txs : List Transaction) (tx : Transaction)
    → ledger_total account date (txs ++ tx ∷ [])
      ≡ ledger_total account date txs +ℤ contribution account date tx
unfolding ledger_total
ledger_total-append account date [] tx = omega int_laws
ledger_total-append account date (x ∷ txs) tx =
    omega (int_laws, parts_eq (ledger_total-append account date txs tx))

-- Only the first document that matches is changed.
pub ledger_total-change_first :
    (account : Account) (date : Date) (p : Transaction → Bool) (f : Transaction → Transaction)
    (txs : List Transaction) (row : Transaction)
    → first p txs ≡ some row
    → ledger_total account date (change_first p f txs)
      ≡ ledger_total account date txs
        -ℤ contribution account date row
        +ℤ contribution account date (f row)
unfolding first change_first ledger_total
ledger_total-change_first account date p f [] row e = cc
ledger_total-change_first account date p f (x ∷ txs) row e =
    grind (int_laws, ledger_total-change_first account date p f txs row)

-- A transaction does not change a balance before its date, nor one of another account.
pub contribution_before :
    (account : Account) (date : Date) (tx : Transaction)
    → date < tx.transaction_date
    → contribution account date tx ≡ pos 0
unfolding balance_filter
contribution_before account date tx h = ground (arith, contribution-code account date tx)

pub contribution_elsewhere :
    (account : Account) (date : Date) (tx : Transaction)
    → detail_concerns account.id tx.detail ≡ false
    → contribution account date tx ≡ pos 0
unfolding balance_filter
contribution_elsewhere account date tx h = ground (arith, contribution-code account date tx)

pub contribution_live :
    (account : Account) (date : Date) (tx : Transaction)
    → tx.space_id ≡ account.space_id
    → detail_concerns account.id tx.detail ≡ true
    → tx.deleted_at ≡ none
    → tx.transaction_date ≤ date
    → contribution account date tx ≡ detail_movement account.id tx.detail
unfolding balance_filter
contribution_live account date tx space concerned live late =
    ground (arith, contribution-code account date tx)

pub predates_later :
    (d e : Date) (o : Option Date) → predates d o ≡ false → d ≤ e → predates e o ≡ false
unfolding predates
predates_later d e none h le = refl
predates_later d e (some o) h le = ground arith

ok-injective : {A : Type 0} {a b : A} → ok a ≡ ok b → a ≡ b
ok-injective h = cc

module _ ⦃intl : Intl⦄ where
  total_value : Account → Date → List Transaction → Option Currency → Result Amount
  total_value account date txs none = err other_error
  total_value account date txs (some c) =
      ok
        (normalize_money (get_or account.initial_amount (pos 0) +ℤ ledger_total account date txs) c)

  -- The balance as a function of the ledger: nothing before the opening, and from then on the
  -- opening amount and the sum of the contributions, in whole minor units.
  pub balance_value : Account → Date → List Transaction → Result Amount
  unfolding total_value
  balance_value account date txs =
      if predates date account.opened_at
      then ok (pos 0)
      else total_value account date txs (known_currency account.currency)

  -- The balance depends on the ledger through its total alone.
  pub balance_value_total :
      (account : Account) (date : Date) (txs txs' : List Transaction)
      → ledger_total account date txs ≡ ledger_total account date txs'
      → balance_value account date txs ≡ balance_value account date txs'
  unfolding balance_value
  balance_value_total account date txs txs' e = ground arith

  -- An account with a currency has a balance at every date.
  pub balance_value-ok :
      (account : Account) (date : Date) (txs : List Transaction) (c : Currency)
      → known_currency account.currency ≡ some c
      → (v : Amount) × (balance_value account date txs ≡ ok v)
  unfolding balance_value
  balance_value-ok account date txs c e = elim (Bool-cases (predates date account.opened_at)) [
    | inl early ↦ (pos 0, rw early)
    | inr late ↦ (
      normalize_money (get_or account.initial_amount (pos 0) +ℤ ledger_total account date txs) c,
      rw (late, e),
    )
  ]

  -- From the opening on.
  pub balance_value_open :
      (account : Account) (date : Date) (txs : List Transaction) (c : Currency)
      → known_currency account.currency ≡ some c
      → predates date account.opened_at ≡ false
      → balance_value account date txs
        ≡ ok (
            normalize_money
              (get_or account.initial_amount (pos 0) +ℤ ledger_total account date txs)
              c)
  unfolding balance_value
  balance_value_open account date txs c cur late = rw (late, cur)

  -- A live transaction of the account moves every balance from its date on by its amount, exactly.
  pub balance_value-append :
      (account : Account) (date : Date) (txs : List Transaction) (tx : Transaction) (c : Currency)
      (v : Amount)
      → known_currency account.currency ≡ some c
      → IsExact c (detail_movement account.id tx.detail)
      → tx.space_id ≡ account.space_id
      → detail_concerns account.id tx.detail ≡ true
      → tx.deleted_at ≡ none
      → tx.transaction_date ≤ date
      → predates tx.transaction_date account.opened_at ≡ false
      → balance_value account date txs ≡ ok v
      → balance_value account date (txs ++ tx ∷ []) ≡ ok (v +ℤ detail_movement account.id tx.detail)
  balance_value-append account date txs tx c v cur exact space concerned live late opened h =
      let open_at_date = predates_later tx.transaction_date date account.opened_at opened late in
      let start : Amount = get_or account.initial_amount (pos 0) in
      let moved : Amount = detail_movement account.id tx.detail in
      balance_value_open account date (txs ++ tx ∷ []) c cur open_at_date
      ∙ ap ok (
          ap (λ (t : Amount). normalize_money (start +ℤ t) c)
            (ledger_total-append account date txs tx
              ∙ ap (λ (t : Amount). ledger_total account date txs +ℤ t)
                  (contribution_live account date tx space concerned live late))
          ∙ ap (λ (t : Amount). normalize_money t c)
              (sym (+ℤ_assoc start (ledger_total account date txs) moved))
          ∙ normalize_money-add (start +ℤ ledger_total account date txs) moved c exact
          ∙ ap (λ (t : Amount). t +ℤ moved)
              (ok-injective (sym (balance_value_open account date txs c cur open_at_date) ∙ h)))

-- A result beside a state.
abbrev pub with_state {ℓ} : {A : Type ℓ} → Result A → Db → Result (A × Db)
with_state (ok a) db = ok (a, db)
with_state (err e) db = err e

module _ ⦃m : Mongo⦄ ⦃intl : Intl⦄ where
  pub balance_for_budget-eq-value :
      (account : Account) (date : Date) (db : Db)
      → balance_for_budget account date db
        ≡ with_state (balance_value account date db.transactions) db
  unfolding balance_for_budget balance_value
  balance_for_budget-eq-value account date db = ground (
    arith,
    m.find_law (balance_filter account date) db.transactions,
    sum_movements-matching account date db.transactions,
  )

  with_state_ok :
      (r : Result Amount) (db db' : Db) (v : Amount) → with_state r db ≡ ok (v, db') → r ≡ ok v
  with_state_ok (ok a) db db' v h = cc
  with_state_ok (err e) db db' v h = cc

  -- The code returns a balance exactly where there is one, and changes nothing.
  pub balance_value-of_code :
      (account : Account) (date : Date) (db db' : Db) (v : Amount)
      → balance_for_budget account date db ≡ ok (v, db')
      → balance_value account date db.transactions ≡ ok v
  balance_value-of_code account date db db' v h =
      with_state_ok _ db db' v (sym (balance_for_budget-eq-value account date db) ∙ h)

  pub balance_code :
      (account : Account) (date : Date) (db : Db) (v : Amount)
      → balance_value account date db.transactions ≡ ok v
      → balance_for_budget account date db ≡ ok (v, db)
  balance_code account date db v h = rw (balance_for_budget-eq-value, h)
