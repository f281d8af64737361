-- ===== src/Tests/Limits.antt =====
-- Limits on the small database.
use babki_back.Prelude.{◌≡◌, ◌↔◌, refl, none, some, true, arith}
use babki_back.Prelude.Int.{pos, neg, ◌+ℤ◌}
use babki_back.Dates.{Date}
use babki_back.Http.{ok}
use babki_back.Schemas.{Db, ExpenseLimit, Transaction}
use babki_back.Limits.{
  LimitCreate, LimitResponse, limit_document, build_response, usage_filter, create_for_budget,
}
use babki_back.Limits.Apart.{IsLimitBook}
use babki_back.Limits.Keeps.{creates, Step-IsLimitBook}
use babki_back.Limits.Rest.{IsCounted, create_expense-rest}
use babki_back.Transactions.Expenses.{create_on_account}
use babki_back.Tests.{list_mongo, small_intl}
use babki_back.Tests.Fixture.{day, home, anna, start, state_of}
use babki_back.Tests.Changed.{touched, bought}
use babki_back.Tests.Ledger.{lunch}
use babki_back.Tests.Machine.{settings_machine}

-- A hundred units of food from the first of January to the end of February.
abbrev frugal : LimitCreate
frugal = record {
  category_id = 31;
  total = pos 100000000;
  currency = 3;
  start_date = some (day 0);
  end_date = some (day 59);
}

abbrev limited : Db
limited = state_of start (create_for_budget home frugal (day 40) start)

-- The end of the last day.
abbrev last_moment : Date
last_moment = 5183999999

abbrev food_limit : ExpenseLimit
food_limit = limit_document home frugal 31 (day 0) last_moment 1

abbrev untouched : LimitResponse
untouched = record { limit = food_limit; rest = pos 100000000 }

limit_runs : create_for_budget home frugal (day 40) start ≡ ok (untouched, limited)
unfolding settings_machine
limit_runs = refl

start_limits : IsLimitBook start.limits
start_limits = record { ids = tt; apart = tt; periods = tt }

Step-IsLimitBook_example : IsLimitBook limited.limits
Step-IsLimitBook_example =
    Step-IsLimitBook home (day 40) start limited (creates frugal untouched limit_runs) start_limits

abbrev after_lunch : Db
after_lunch = state_of limited (create_on_account home anna lunch none touched limited)

lunch_runs : create_on_account home anna lunch none touched limited ≡ ok (bought, after_lunch)
unfolding settings_machine
lunch_runs = refl

rest_runs : build_response home food_limit limited ≡ ok (untouched, limited)
unfolding settings_machine
rest_runs = refl

create_expense-rest_example :
    (IsCounted home food_limit bought
      → build_response home food_limit after_lunch
        ≡ ok (record { limit = food_limit; rest = pos 100000000 +ℤ neg lunch.amount }, after_lunch))
    × (¬ (IsCounted home food_limit bought)
        → build_response home food_limit after_lunch ≡ ok (untouched, after_lunch))
    × ((x : Transaction)
        → (usage_filter home food_limit.category food_limit.start_date food_limit.end_date
              food_limit.currency x
            ≡ true)
          ↔ IsCounted home food_limit x)
create_expense-rest_example =
    create_expense-rest home anna lunch none touched bought food_limit untouched limited after_lunch
      lunch_runs rest_runs

-- The lunch is counted.
lunch_counts : IsCounted home food_limit bought
unfolding settings_machine
lunch_counts = record {
  home = refl;
  live = refl;
  begun = omega arith;
  not_over = omega arith;
  spends = (refl, refl);
}
