-- ===== src/Snapshots.antt =====
-- Balances of accounts and their month-end snapshots
-- (src/modules/accounts-snapshots/accounts-snapshots.service.ts).
pub mod Balance
pub mod Rebuild
pub mod Consistency
pub mod Invariant
use babki_back.Prelude.{
  ℕ, ◌+◌, Bool, true, false, ◌&&◌, ◌||◌, not, Option, none, some, List, [], ◌∷◌, ◌++◌, map, ltb,
  leb, ◌==◌, if◌then◌else◌, is_some, get_or,
}
use babki_back.Prelude.Int.{pos, ◌+ℤ◌, neg}
use babki_back.Money.{known_currency, Amount, Currency, Intl, normalize_money}
use babki_back.Dates.{Date, utc_month_end}
use babki_back.Mongo.{Mongo}
use babki_back.Http.{ok, other_error, not_found, snapshot_not_found, account_not_found}
use babki_back.Schemas.{
  ObjectId, Account, AccountSnapshot, Transaction, TransactionDetail, income, expense, transfer,
}
use babki_back.Budget.{BudgetContext, budget_filter}
use babki_back.Tables
use babki_back.Session.{
  Action, pure, or_raise, raise_if, ◌>>=◌, ◌>>◌, find_one, find, exists, create, delete_many,
}

-- The `$or` of the aggregation's `$match`.
unfoldable pub detail_concerns : ObjectId → TransactionDetail → Bool
detail_concerns a (income p) = p.account_id == a
detail_concerns a (expense p x) = p.account_id == a
detail_concerns a (transfer s d) = s.account_id == a || d.account_id == a

-- The `$cond` of the aggregation's `$sum`: what a transaction adds to the account.
unfoldable pub detail_movement : ObjectId → TransactionDetail → Amount
detail_movement a (transfer s d) = if s.account_id == a then neg s.amount else d.amount
detail_movement a (expense p x) = neg p.amount
detail_movement a (income p) = p.amount

-- The `$match` of the aggregation.
unfoldable pub balance_filter : Account → Date → Transaction → Bool
balance_filter account date tx =
    tx.space_id == account.space_id
    && detail_concerns account.id tx.detail
    && not (is_some tx.deleted_at)
    && leb tx.transaction_date date

unfoldable pub sum_movements : ObjectId → List Transaction → Amount
sum_movements a [] = pos 0
sum_movements a (tx ∷ txs) = detail_movement a tx.detail +ℤ sum_movements a txs

-- `account.openedAt && date < account.openedAt`
unfoldable pub predates : Date → Option Date → Bool
predates date none = false
predates date (some opened) = ltb date opened

-- The snapshot of an account at a date, which the index makes unique.
unfoldable pub snapshot_at : ObjectId → Date → AccountSnapshot → Bool
snapshot_at a date s = s.account_id == a && s.date == date

-- The snapshots of an account from a month end on.
abbrev pub from_month_end : ObjectId → Date → AccountSnapshot → Bool
from_month_end a first s = s.account_id == a && leb first s.date

-- The keys of a `Map` of dates: a date that is there keeps its place.
unfoldable pub contains_date : Date → List Date → Bool
contains_date d [] = false
contains_date d (e ∷ ds) = e == d || contains_date d ds

unfoldable pub add_date : List Date → Date → List Date
add_date ds d = if contains_date d ds then ds else ds ++ d ∷ []

unfoldable pub date_map : List Date → List Date → List Date
date_map keys [] = keys
date_map keys (d ∷ ds) = date_map (add_date keys d) ds

module _ ⦃m : Mongo⦄ ⦃intl : Intl⦄ where
  unfoldable pub balance_for_budget : Account → Date → Action Amount
  unfolding known_currency
  balance_for_budget account date = if predates date account.opened_at then pure (pos 0) else do
    txs ← find Tables.transactions (balance_filter account date)
    currency ← or_raise (known_currency account.currency) other_error
    pure (
        normalize_money (get_or account.initial_amount (pos 0) +ℤ sum_movements account.id txs)
          currency)

  -- `updateOne` with `upsert`: the snapshots after it.
  unfoldable pub upserted : Account → Date → Amount → List AccountSnapshot → List AccountSnapshot
  upserted account date amount c =
      let p = snapshot_at account.id date in
      if is_some (m.find_one p c)
      then m.update_one p (λ s. record s { amount = amount }) c
      else m.insert
          (record {
            id = m.object_id (map (λ s. s.id) c);
            account_id = account.id;
            amount = amount;
            date = date;
          })
          c

  unfoldable pub upsert_snapshot : Account → Date → Amount → Action (Unit {0})
  upsert_snapshot account date amount db =
      ok (tt, record db { snapshots = upserted account date amount db.snapshots })

  -- The loop over `dates.values()`.
  unfoldable pub rebuild_dates : Account → List Date → Action (Unit {0})
  rebuild_dates account [] = pure tt
  rebuild_dates account (date ∷ dates) = do
    amount ← balance_for_budget account date
    upsert_snapshot account date amount
    rebuild_dates account dates

  unfoldable pub rebuild_for_budget : Account → Date → Action (Unit {0})
  rebuild_for_budget account from = do
    let first = utc_month_end from
    existing ← find Tables.snapshots (from_month_end account.id first)
    rebuild_dates account (add_date (date_map [] (map (λ s. s.date) existing)) first)

  unfoldable pub prepare_for_budget : Account → Date → Action AccountSnapshot
  prepare_for_budget account date = do
    rebuild_for_budget account date
    snapshot ← find_one Tables.snapshots (snapshot_at account.id (utc_month_end date))
    or_raise snapshot (not_found snapshot_not_found)

  -- The source takes the change too and does not use it: the ledger is read again.
  unfoldable pub apply_for_budget : Account → Date → Amount → Action (Unit {0})
  apply_for_budget account date delta = rebuild_for_budget account date

  -- `account.openedAt!` and `account.initialAmount`: without them the document is refused.
  unfoldable pub opening_for_budget : Account → Action AccountSnapshot
  opening_for_budget account = do
    opened ← or_raise account.opened_at other_error
    amount ← or_raise account.initial_amount other_error
    create Tables.snapshots (λ s. s.id)
        (λ id. record {
          id = id;
          account_id = account.id;
          amount = amount;
          date = utc_month_end opened;
        })

  unfoldable pub delete_for_budget : BudgetContext → ObjectId → Action (Unit {0})
  delete_for_budget budget account_id = do
    owned ← exists Tables.accounts (λ a. a.id == account_id && budget_filter budget a.space_id)
    raise_if (not owned) (not_found account_not_found)
    delete_many Tables.snapshots (λ s. s.account_id == account_id)
