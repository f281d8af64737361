-- ===== src/Tests/Plans.antt =====
-- A plan is made and closed on the small database.
use babki_back.Prelude.{◌≡◌, refl, none, some}
use babki_back.Prelude.Int.{pos}
use babki_back.Http.{ok}
use babki_back.Schemas.{Db, Plan}
use babki_back.Plans.{CreatePlan, ClosePlan, plan_document, set_closed, close_for_budget}
use babki_back.Plans
use babki_back.Plans.Paid.{PlanBook, close_plan-PlanBook}
use babki_back.Plans.Close.{IsFinal, close_plan-IsFinal}
use babki_back.Tests.{list_mongo, small_intl}
use babki_back.Tests.Fixture.{day, home, anna, start, state_of}
use babki_back.Tests.Machine.{machine}

abbrev holiday : CreatePlan
holiday = record {
  currency = 3;
  description = "holiday";
  target_date = day 90;
  amount = pos 300000000;
  category_id = 31;
}

abbrev planned : Plan
planned = plan_document home anna holiday 1

abbrev after_plan : Db
after_plan = state_of start (Plans.create_for_budget home anna holiday start)

plan_runs : Plans.create_for_budget home anna holiday start ≡ ok (planned, after_plan)
unfolding machine
plan_runs = refl

abbrev booked : ClosePlan
booked = record {
  account_id = 21;
  closing_date = none;
  amount = some (pos 250000000);
  description = none;
  participant_id = none;
}

abbrev after_close : Db
after_close = state_of after_plan (close_for_budget home anna (day 80) 1 booked after_plan)

abbrev closed_plan : Plan
closed_plan = set_closed (day 80) 1 planned

close_runs : close_for_budget home anna (day 80) 1 booked after_plan ≡ ok (closed_plan, after_close)
unfolding machine
close_runs = refl

plan_book : PlanBook after_plan.plans after_plan.transactions
unfolding machine
plan_book = record {
  distinct = (tt, tt);
  paid = (record { has_expense = λ h. cc; only = λ tx h. absurd h }, tt);
}

close_plan-IsFinal_example : IsFinal home 1 after_close
close_plan-IsFinal_example =
    close_plan-IsFinal home anna (day 80) 1 booked closed_plan after_plan after_close
      plan_book.distinct close_runs

close_plan-PlanBook_example : PlanBook after_close.plans after_close.transactions
close_plan-PlanBook_example =
    close_plan-PlanBook home anna (day 80) 1 booked closed_plan after_plan after_close plan_book
      close_runs
