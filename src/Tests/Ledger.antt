-- ===== src/Tests/Ledger.antt =====
-- Amounts, dates, balances, incomes, expenses and transfers on the small database.
use babki_back.Prelude.{◌≡◌, ◌≤◌, refl, none, some, inl, true, false, ◌↔◌, ◌*◌}
use babki_back.Prelude.Int.{pos, neg}
use babki_back.Money.{known_currency, normalize_money, has_valid_money_precision}
use babki_back.Money.Precision.{IsExact, valid_iff_IsExact, normalize_money_near}
use babki_back.Money.{distance, minor_unit}
use babki_back.Dates.{Date, utc_month_end}
use babki_back.Dates.MonthEnd.{IsMonthEnd, utc_month_end-first}
use babki_back.Http.{ok}
use babki_back.Schemas.{Db, Account, Transaction}
use babki_back.Snapshots.{rebuild_for_budget, predates}
use babki_back.Snapshots.Rebuild.{
  IsRebuiltFrom, rebuild_for_budget-IsRebuiltFrom, rebuild_for_budget_total,
}
use babki_back.Snapshots.Invariant.{SnapshotsMatch}
use babki_back.Transactions.Posted.{MovesBalance}
use babki_back.Transactions.Expenses.{ExpenseCommand, expense_document}
use babki_back.Transactions.Expenses.Ledger.{
  create_expense-SnapshotsMatch, create_expense-MovesBalance,
}
use babki_back.Transactions.Incomes.{IncomeCommand, income_document}
use babki_back.Transactions.Incomes.Ledger.{
  create_income-SnapshotsMatch, create_income-MovesBalance,
}
use babki_back.Transactions.Expenses
use babki_back.Transactions.Incomes
use babki_back.Transfers.{CreateTransfer, transfer_document}
use babki_back.Transfers
use babki_back.Transfers.Ledger.{side}
use babki_back.Transfers.Theorems.{IsFairTransfer, create_transfer-IsFairTransfer}
use babki_back.Tests.{list_mongo, small_intl}
use babki_back.Tests.Fixture.{day, home, anna, start, state_of, account}
use babki_back.Tests.Machine.{machine}

-- Amounts and dates.
valid_iff_IsExact_example :
    (has_valid_money_precision (pos 12340000) 3 ≡ true) ↔ IsExact 3 (pos 12340000)
valid_iff_IsExact_example = valid_iff_IsExact (pos 12340000) 3

normalize_money_near_example :
    IsExact 3 (normalize_money (pos 12345678) 3)
    × (2 * distance (normalize_money (pos 12345678) 3) (pos 12345678) ≤ minor_unit 3)
    × (normalize_money (normalize_money (pos 12345678) 3) 3 ≡ normalize_money (pos 12345678) 3)
normalize_money_near_example = normalize_money_near (pos 12345678) 3

ten-IsExact : IsExact 3 (pos 10000000)
unfolding machine
ten-IsExact = (pos 1000, refl)

utc_month_end-first_example :
    IsMonthEnd (utc_month_end (day 40))
    × (day 40 ≤ utc_month_end (day 40))
    × ((e : Date) → IsMonthEnd e → day 40 ≤ e → utc_month_end (day 40) ≤ e)
utc_month_end-first_example = utc_month_end-first (day 40)

-- Snapshots.
abbrev wallet : Account
wallet = account 21

abbrev rebuilt : Db
rebuilt = state_of start (rebuild_for_budget wallet (day 40) start)

rebuild_runs : rebuild_for_budget wallet (day 40) start ≡ ok (tt, rebuilt)
unfolding machine
rebuild_runs = refl

rebuild_for_budget-IsRebuiltFrom_example : IsRebuiltFrom wallet (day 40) start rebuilt
rebuild_for_budget-IsRebuiltFrom_example =
    rebuild_for_budget-IsRebuiltFrom wallet (day 40) start rebuilt rebuild_runs

wallet_currency : known_currency wallet.currency ≡ some 3
unfolding machine
wallet_currency = refl

rebuild_for_budget_total_example :
    (db' : Db) × (rebuild_for_budget wallet (day 40) start ≡ ok (tt, db'))
    × IsRebuiltFrom wallet (day 40) start db'
rebuild_for_budget_total_example = rebuild_for_budget_total wallet (day 40) start 3 wallet_currency

start_matches : SnapshotsMatch wallet start
unfolding machine
start_matches = record {
  ends = record { at = λ b e v p. cc };
  consistent = record { at = λ e v u p. cc };
}

-- Expenses.
abbrev pub lunch : ExpenseCommand
lunch = record {
  account_id = 21;
  category_id = 31;
  amount = pos 15000000;
  transaction_date = day 40;
  description = none;
  merchant = some "cafe";
  items = none;
  participant_id = none;
}

abbrev after_lunch : Db
after_lunch = state_of start (Expenses.create_on_account home anna lunch none wallet start)

abbrev lunch_row : Transaction
lunch_row = expense_document home anna lunch wallet 31 1 none 1

lunch_runs :
    Expenses.create_on_account home anna lunch none wallet start ≡ ok (lunch_row, after_lunch)
unfolding machine
lunch_runs = refl

create_expense-SnapshotsMatch_example : SnapshotsMatch wallet after_lunch
create_expense-SnapshotsMatch_example =
    create_expense-SnapshotsMatch home anna lunch none wallet wallet lunch_row start after_lunch
      lunch_runs (inl refl) start_matches

opened_before : predates (day 40) wallet.opened_at ≡ false
unfolding machine
opened_before = refl

create_expense-MovesBalance_example :
    MovesBalance wallet (day 40) (neg (pos 15000000)) start after_lunch
create_expense-MovesBalance_example =
    create_expense-MovesBalance home anna lunch none wallet lunch_row start after_lunch lunch_runs
      refl opened_before

-- Incomes.
abbrev salary : IncomeCommand
salary = record {
  account_id = 21;
  amount = pos 500000000;
  transaction_date = day 40;
  description = none;
}

abbrev after_salary : Db
after_salary = state_of start (Incomes.create_on_account home anna salary none wallet start)

abbrev salary_row : Transaction
salary_row = income_document home anna salary wallet 1 none 1

salary_runs :
    Incomes.create_on_account home anna salary none wallet start ≡ ok (salary_row, after_salary)
unfolding machine
salary_runs = refl

create_income-SnapshotsMatch_example : SnapshotsMatch wallet after_salary
create_income-SnapshotsMatch_example =
    create_income-SnapshotsMatch home anna salary none wallet wallet salary_row start after_salary
      salary_runs (inl refl) start_matches

create_income-MovesBalance_example : MovesBalance wallet (day 40) (pos 500000000) start after_salary
create_income-MovesBalance_example =
    create_income-MovesBalance home anna salary none wallet salary_row start after_salary
      salary_runs refl opened_before

-- Transfers.
abbrev payment : CreateTransfer
payment = record {
  source_account_id = 21;
  destination_account_id = 22;
  source_amount = pos 40000000;
  destination_amount = pos 40000000;
  transaction_date = day 40;
  description = none;
}

abbrev after_payment : Db
after_payment = state_of start (Transfers.create_for_budget home anna payment start)

abbrev paid : Transaction
paid =
    transfer_document home anna payment (side 21 1 (pos 40000000) 3) (side 22 3 (pos 40000000) 3) 1

payment_runs : Transfers.create_for_budget home anna payment start ≡ ok (paid, after_payment)
unfolding machine
payment_runs = refl

create_transfer-IsFairTransfer_example : IsFairTransfer home payment paid start after_payment
create_transfer-IsFairTransfer_example =
    create_transfer-IsFairTransfer home anna payment paid start after_payment payment_runs
