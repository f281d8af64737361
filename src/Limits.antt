-- ===== src/Limits.antt =====
-- Expense limits (src/modules/expense-limits/expense-limits.service.ts).
pub mod Apart
pub mod Keeps
pub mod Rest
use babki_back.Prelude.{
  ℕ, suc, ◌+◌, ◌-◌, ◌*◌, ◌/◌, Bool, true, false, ◌&&◌, not, Option, none, some, List, [], ◌∷◌, leb,
  ltb, ◌==◌, is_some, get_or, if◌then◌else◌,
}
use babki_back.Prelude.Int.{pos, ◌+ℤ◌, ◌-ℤ◌}
use babki_back.Money.{
  known_currency, Amount, Currency, Intl, normalize_money, has_valid_money_precision,
}
use babki_back.Dates.{Date, day_ms, month_start, utc_month}
use babki_back.Mongo.{Mongo}
use babki_back.Http.{
  other_error, bad_request, not_found, conflict, amount_exceeds_precision, limit_not_found,
  invalid_limit_period, limit_overlaps,
}
use babki_back.Schemas.{
  ObjectId, ExpenseLimit, Transaction, TransactionDetail, income, expense, transfer,
}
use babki_back.Budget.{BudgetContext, budget_filter}
use babki_back.Categories.{lock_budget_expense_category}
use babki_back.Tables
use babki_back.Session.{
  Action, pure, or_raise, raise_if, ◌>>=◌, ◌>>◌, find_one, find, exists, create,
  find_one_and_update, find_one_and_delete,
}

pub record LimitCreate : Type 0 where
  pub category_id : ObjectId
  pub total : Amount
  pub currency : Currency
  pub start_date : Option Date
  pub end_date : Option Date

pub record LimitUpdate : Type 0 where
  pub total : Option Amount
  pub start_date : Option Date
  pub end_date : Option Date

pub record LimitResponse : Type 0 where
  pub limit : ExpenseLimit
  pub rest : Amount

-- `utcDay`: the first or the last millisecond of the day.
unfoldable pub utc_day : Date → Bool → Date
utc_day value end =
    let day = value / day_ms in if end then day * day_ms + (day_ms - 1) else day * day_ms

-- `Date.UTC(year, month, 1)` and `Date.UTC(year, month + 1, 0)` of the month of a date.
unfoldable pub first_of_month : Date → Date
first_of_month now = month_start (utc_month now) * day_ms

unfoldable pub last_of_month : Date → Date
last_of_month now = (month_start (suc (utc_month now)) - 1) * day_ms

-- A currency that is missing matches a currency that is missing.
unfoldable pub same_currency : Option Currency → Option Currency → Bool
same_currency none none = true
same_currency none (some c) = false
same_currency (some c) none = false
same_currency (some c) (some d) = c == d

unfoldable pub is_other : Option ObjectId → ObjectId → Bool
is_other none id = true
is_other (some mine) id = not (id == mine)

-- The filter of `checkOverlap`.
unfoldable pub overlap_filter :
    BudgetContext → ObjectId → Date → Date → Option Currency → Option ObjectId → ExpenseLimit → Bool
unfolding same_currency is_other
overlap_filter budget category start_date end_date currency id l =
    budget_filter budget l.space_id
    && l.category == category
    && leb l.start_date end_date
    && leb start_date l.end_date
    && same_currency l.currency currency
    && is_other id l.id

unfoldable pub limit_filter : BudgetContext → ObjectId → ExpenseLimit → Bool
limit_filter budget id l = l.id == id && budget_filter budget l.space_id

unfoldable pub limit_document :
    BudgetContext → LimitCreate → ObjectId → Date → Date → ObjectId → ExpenseLimit
limit_document budget dto category start_date end_date id = record {
  id = id;
  space_id = budget.space_id;
  category = category;
  start_date = start_date;
  end_date = end_date;
  total = dto.total;
  currency = some dto.currency;
}

unfoldable pub set_limit : Amount → Date → Date → ExpenseLimit → ExpenseLimit
set_limit total start_date end_date l = record l {
  total = total;
  start_date = start_date;
  end_date = end_date;
}

-- The `$match` of the aggregation, on the kind of a transaction.
unfoldable pub spends_on : ObjectId → Option Currency → TransactionDetail → Bool
unfolding same_currency
spends_on category currency (income p) = false
spends_on category currency (expense p x) =
    x.category == category && same_currency p.currency currency
spends_on category currency (transfer s d) = false

unfoldable pub usage_filter :
    BudgetContext → ObjectId → Date → Date → Option Currency → Transaction → Bool
unfolding spends_on
usage_filter budget category start_date end_date currency tx =
    budget_filter budget tx.space_id
    && not (is_some tx.deleted_at)
    && leb start_date tx.transaction_date
    && leb tx.transaction_date end_date
    && spends_on category currency tx.detail

-- `$amount`, which a transfer does not have.
unfoldable pub amount_of : TransactionDetail → Amount
amount_of (income p) = p.amount
amount_of (expense p x) = p.amount
amount_of (transfer s d) = pos 0

unfoldable pub sum_amounts : List Transaction → Amount
unfolding amount_of
sum_amounts [] = pos 0
sum_amounts (tx ∷ txs) = amount_of tx.detail +ℤ sum_amounts txs

module _ ⦃m : Mongo⦄ ⦃intl : Intl⦄ where
  unfoldable pub find_expense_usage :
      BudgetContext → ObjectId → Date → Date → Option Currency → Action Amount
  unfolding known_currency
  find_expense_usage budget category start_date end_date currency = do
    txs ← find Tables.transactions (usage_filter budget category start_date end_date currency)
    c ← or_raise (known_currency currency) other_error
    pure (normalize_money (sum_amounts txs) c)

  unfoldable pub build_response : BudgetContext → ExpenseLimit → Action LimitResponse
  unfolding find_expense_usage
  build_response budget l = do
    usage ← find_expense_usage budget l.category l.start_date l.end_date l.currency
    c ← or_raise (known_currency l.currency) other_error
    pure (record { limit = l; rest = normalize_money (l.total -ℤ usage) c })

  unfoldable pub limit : BudgetContext → ObjectId → Action ExpenseLimit
  limit budget id = do
    found ← find_one Tables.limits (limit_filter budget id)
    or_raise found (not_found limit_not_found)

  -- `period`: what the request says, or what the limit has, or the current month.
  unfoldable pub period :
      Option Date → Option Date → Option ExpenseLimit → Date → Action (Date × Date)
  period from to old now = do
    let start_date =
        utc_day (get_or from (elim old [ none ↦ first_of_month now | some l ↦ l.start_date ])) false
    let end_date =
        utc_day (get_or to (elim old [ none ↦ last_of_month now | some l ↦ l.end_date ])) true
    raise_if (ltb end_date start_date) (bad_request invalid_limit_period)
    pure (start_date, end_date)

  unfoldable pub check_overlap :
      BudgetContext → ObjectId → Date → Date → Option Currency → Option ObjectId → Action (Unit {0})
  check_overlap budget category start_date end_date currency id = do
    overlapping ←
        exists Tables.limits (overlap_filter budget category start_date end_date currency id)
    raise_if overlapping (conflict limit_overlaps)

  unfoldable pub validate_precision : Amount → Currency → Action (Unit {0})
  validate_precision total currency = do
    raise_if (not (intl.supported currency)) other_error
    raise_if (not (has_valid_money_precision total currency)) (bad_request amount_exceeds_precision)

  -- The document is made once the period is known to be free.
  unfoldable pub create_in_period :
      BudgetContext → LimitCreate → ObjectId → Date → Date → Action LimitResponse
  unfolding build_response
  create_in_period budget dto category start_date end_date = do
    l ← create Tables.limits (λ l. l.id) (limit_document budget dto category start_date end_date)
    build_response budget l

  unfoldable pub create_for_budget : BudgetContext → LimitCreate → Date → Action LimitResponse
  unfolding validate_precision period check_overlap create_in_period
  create_for_budget budget dto now = do
    validate_precision dto.total dto.currency
    category ← lock_budget_expense_category budget dto.category_id false
    (start_date, end_date) ← period dto.start_date dto.end_date none now
    check_overlap budget category.id start_date end_date (some dto.currency) none
    create_in_period budget dto category.id start_date end_date

  unfoldable pub find_one_for_budget : BudgetContext → ObjectId → Action LimitResponse
  unfolding limit build_response
  find_one_for_budget budget id = do l ← limit budget id; build_response budget l

  -- `if (dto.total !== undefined)`
  unfoldable pub validate_total : Option Amount → Option Currency → Action (Unit {0})
  unfolding validate_precision
  validate_total none currency = pure tt
  validate_total (some total) currency = do
    c ← or_raise currency other_error
    validate_precision total c

  unfoldable pub write_limit :
      BudgetContext → ObjectId → Amount → Date → Date → Action LimitResponse
  unfolding build_response
  write_limit budget id total start_date end_date = do
    found ←
        find_one_and_update Tables.limits (limit_filter budget id)
          (set_limit total start_date end_date)
    l ← or_raise found (not_found limit_not_found)
    build_response budget l

  unfoldable pub update_for_budget :
      BudgetContext → ObjectId → LimitUpdate → Date → Action LimitResponse
  unfolding limit validate_total period check_overlap write_limit
  update_for_budget budget id dto now = do
    old ← limit budget id
    validate_total dto.total old.currency
    category ← lock_budget_expense_category budget old.category true
    (start_date, end_date) ← period dto.start_date dto.end_date (some old) now
    check_overlap budget category.id start_date end_date old.currency (some id)
    write_limit budget id (get_or dto.total old.total) start_date end_date

  unfoldable pub remove_for_budget : BudgetContext → ObjectId → Action (Unit {0})
  unfolding limit
  remove_for_budget budget id = do
    limit budget id
    deleted ← find_one_and_delete Tables.limits (limit_filter budget id)
    raise_if (not deleted) (not_found limit_not_found)
