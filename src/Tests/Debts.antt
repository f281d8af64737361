-- ===== src/Tests/Debts.antt =====
-- Debts and repayments on the small database.
use babki_back.Prelude.{◌≡◌, refl, none, some, true}
use babki_back.Prelude.Int.{pos}
use babki_back.Http.{ok, err, not_found, debt_not_found}
use babki_back.Schemas.{Db, Debt, DebtTransaction, active, closed}
use babki_back.Debts.{
  CreateDebtCommand, UpdateDebtCommand, RepayDebtCommand, debt_document, repayment_document,
  set_balance, debt_filter, set_debt, mark_cancelled, default_description, repay_for_budget,
  cancel_repayment_for_budget, archive_for_budget, remove_for_budget,
}
use babki_back.Debts
use babki_back.Debts.Book.{DebtBook}
use babki_back.Debts.Repay.{repay-DebtBook}
use babki_back.Debts.RoundTrip.{cancel-repay}
use babki_back.Mongo.{first}
use babki_back.Debts.Cancel.{cancel-DebtBook}
use babki_back.Debts.Archive.{IsArchived, archive_debt-DebtBook}
use babki_back.Debts.Keeps.{create_debt-DebtBook, update_debt-DebtBook, remove_debt-DebtBook}
use babki_back.Tests.{list_mongo, small_intl}
use babki_back.Tests.Fixture.{day, home, anna, start, state_of}
use babki_back.Tests.Machine.{machine}

start_book : DebtBook start.debts start.repayments
start_book = record { debts_distinct = tt; entries_distinct = tt; owned = tt; balanced = tt }

-- A debt of a hundred is made.
abbrev pub loan : CreateDebtCommand
loan = record {
  debtor = "Vera";
  principal_amount = pos 100000000;
  currency = 3;
  description = none;
  due_date = none;
}

abbrev lent : Debt
lent = debt_document home anna loan 1

abbrev after_loan : Db
after_loan = state_of start (Debts.create_for_budget home anna loan start)

loan_runs : Debts.create_for_budget home anna loan start ≡ ok (lent, after_loan)
unfolding machine
loan_runs = refl

loan_book : DebtBook after_loan.debts after_loan.repayments
loan_book = create_debt-DebtBook home anna loan lent start after_loan start_book loan_runs

create_debt-DebtBook_example : DebtBook after_loan.debts after_loan.repayments
create_debt-DebtBook_example =
    create_debt-DebtBook home anna loan lent start after_loan start_book loan_runs

-- It is made a debt of two hundred.
abbrev more : UpdateDebtCommand
more = record {
  debtor = none;
  principal_amount = some (pos 200000000);
  remaining_amount = none;
  status = none;
  description = none;
  due_date = none;
}

abbrev after_more : Db
after_more = state_of after_loan (Debts.update_for_budget home 1 more after_loan)

more_runs :
    Debts.update_for_budget home 1 more after_loan ≡ ok (some (set_debt more lent), after_more)
unfolding machine
more_runs = refl

update_debt-DebtBook_example : DebtBook after_more.debts after_more.repayments
update_debt-DebtBook_example =
    update_debt-DebtBook home 1 more (some (set_debt more lent)) after_loan after_more loan_book
      more_runs

-- All of the first debt is paid back into an account.
abbrev payback : RepayDebtCommand
payback = record {
  amount = pos 100000000;
  repayment_date = day 50;
  description = none;
  is_income = some true;
  account_id = some 21;
}

abbrev after_payback : Db
after_payback = state_of after_loan (repay_for_budget home anna 1 payback after_loan)

abbrev payback_entry : DebtTransaction
payback_entry = repayment_document home anna lent payback (default_description lent) true (some 1) 1

payback_runs :
    repay_for_budget home anna 1 payback after_loan
    ≡ ok ((set_balance (pos 0) closed lent, payback_entry), after_payback)
unfolding machine
payback_runs = refl

payback_book : DebtBook after_payback.debts after_payback.repayments
payback_book =
    repay-DebtBook home anna 1 payback (set_balance (pos 0) closed lent, payback_entry) after_loan
      after_payback loan_book payback_runs

repay-DebtBook_example : DebtBook after_payback.debts after_payback.repayments
repay-DebtBook_example =
    repay-DebtBook home anna 1 payback (set_balance (pos 0) closed lent, payback_entry) after_loan
      after_payback loan_book payback_runs

-- The repayment is cancelled, and its income with it.
abbrev after_cancel : Db
after_cancel =
    state_of after_payback (cancel_repayment_for_budget home anna (day 60) 1 1 after_payback)

abbrev restored : Debt × DebtTransaction
restored = (set_balance (pos 100000000) active lent, mark_cancelled (day 60) anna payback_entry)

cancel_runs :
    cancel_repayment_for_budget home anna (day 60) 1 1 after_payback ≡ ok (restored, after_cancel)
unfolding machine
cancel_runs = refl

cancel-DebtBook_example : DebtBook after_cancel.debts after_cancel.repayments
cancel-DebtBook_example =
    cancel-DebtBook home anna (day 60) 1 1 restored after_payback after_cancel payback_book
      cancel_runs

-- A debt is archived, and another, without history, is removed.
abbrev after_archive : Db
after_archive = state_of after_payback (archive_for_budget home (day 60) 1 after_payback)

archive_runs : archive_for_budget home (day 60) 1 after_payback ≡ ok (tt, after_archive)
unfolding machine
archive_runs = refl

archive_debt-DebtBook_example :
    DebtBook after_archive.debts after_archive.repayments
    × IsArchived home (day 60) 1 after_payback after_archive
    × (archive_for_budget home (day 61) 1 after_archive ≡ err (not_found debt_not_found))
archive_debt-DebtBook_example =
    archive_debt-DebtBook home (day 60) (day 61) 1 after_payback after_archive payback_book
      archive_runs

abbrev after_remove : Db
after_remove = state_of after_loan (remove_for_budget home 1 after_loan)

remove_runs : remove_for_budget home 1 after_loan ≡ ok (tt, after_remove)
unfolding machine
remove_runs = refl

remove_debt-DebtBook_example : DebtBook after_remove.debts after_remove.repayments
remove_debt-DebtBook_example =
    remove_debt-DebtBook home 1 after_loan after_remove loan_book remove_runs

undone_runs :
    cancel_repayment_for_budget home anna (day 60) 1 payback_entry.id after_payback
    ≡ ok ((lent, mark_cancelled (day 60) anna payback_entry), after_cancel)
unfolding machine
undone_runs = refl

cancel-repay_example : first (debt_filter home 1 true) after_loan.debts ≡ some lent
cancel-repay_example =
    cancel-repay home anna anna (day 60) 1 payback (set_balance (pos 0) closed lent) lent
      payback_entry (mark_cancelled (day 60) anna payback_entry) after_loan after_payback
      after_cancel loan_book payback_runs undone_runs
