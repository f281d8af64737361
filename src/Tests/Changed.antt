-- ===== src/Tests/Changed.antt =====
-- An expense is updated and deleted on the small database.
use babki_back.Prelude.{◌≡◌, refl, none, some, inl, In}
use babki_back.Prelude.Int.{pos}
use babki_back.Mongo.Distinct.{Distinct}
use babki_back.Http.{ok}
use babki_back.Schemas.{Db, Account, Transaction, Posting}
use babki_back.Snapshots.Invariant.{SnapshotsMatch}
use babki_back.Transactions.Defs.{
  FinancialChanges, expense_type, posting_of, set_changes, mark_deleted, update_for_budget,
  delete_for_budget,
}
use babki_back.Transactions.Expenses.{expense_document, create_on_account}
use babki_back.Transactions.Expenses.Ledger.{create_expense-SnapshotsMatch}
use babki_back.Transactions.Changed.{
  IsSideOf, tx_key, delete_transaction-SnapshotsMatch, update_transaction-SnapshotsMatch,
}
use babki_back.Tests.{list_mongo, small_intl}
use babki_back.Tests.Fixture.{day, home, anna, start, state_of, account}
use babki_back.Tests.Ledger.{lunch}
use babki_back.Tests.Machine.{machine}

-- The account as it is stored once the expense is there.
abbrev pub touched : Account
touched = record (account 21) { mutation_version = 1 }

abbrev pub bought : Transaction
bought = expense_document home anna lunch touched 31 1 none 1

abbrev pub after_bought : Db
after_bought = state_of start (create_on_account home anna lunch none touched start)

bought_runs : create_on_account home anna lunch none touched start ≡ ok (bought, after_bought)
unfolding machine
bought_runs = refl

start_matches : SnapshotsMatch touched start
unfolding machine
start_matches = record {
  ends = record { at = λ b e v p. cc };
  consistent = record { at = λ e v u p. cc };
}

bought_matches : SnapshotsMatch touched after_bought
bought_matches =
    create_expense-SnapshotsMatch home anna lunch none touched touched bought start after_bought
      bought_runs (inl refl) start_matches

abbrev posting : Posting
posting = record { account_id = 21; snapshot_id = 1; amount = pos 15000000; currency = some 3 }

bought_posting : posting_of bought.detail ≡ some posting
unfolding machine
bought_posting = refl

bought-Distinct : Distinct tx_key after_bought.transactions
unfolding machine
bought-Distinct = (tt, tt)

bought_stored : In bought after_bought.transactions
unfolding machine
bought_stored = inl refl

touched_side : IsSideOf home posting touched after_bought
unfolding machine
touched_side = inl refl

abbrev after_delete : Db
after_delete = state_of start (delete_for_budget home anna (day 60) bought none after_bought)

delete_runs :
    delete_for_budget home anna (day 60) bought none after_bought
    ≡ ok (mark_deleted (day 60) anna bought, after_delete)
unfolding machine
delete_runs = refl

delete_transaction-SnapshotsMatch_example : SnapshotsMatch touched after_delete
delete_transaction-SnapshotsMatch_example =
    delete_transaction-SnapshotsMatch home anna (day 60) bought (mark_deleted (day 60) anna bought)
      posting touched after_bought after_delete bought-Distinct bought_stored bought_posting
      touched_side delete_runs bought_matches

abbrev dearer : FinancialChanges
dearer = record {
  amount = some (pos 25000000);
  description = none;
  merchant = none;
  items = none;
  category = none;
  participant_id = none;
}

abbrev after_update : Db
after_update =
    state_of start (update_for_budget home bought dearer (some expense_type) none after_bought)

update_runs :
    update_for_budget home bought dearer (some expense_type) none after_bought
    ≡ ok (set_changes dearer bought, after_update)
unfolding machine
update_runs = refl

update_transaction-SnapshotsMatch_example : SnapshotsMatch touched after_update
update_transaction-SnapshotsMatch_example =
    update_transaction-SnapshotsMatch home bought (set_changes dearer bought) dearer
      (some expense_type) posting touched after_bought after_update bought-Distinct bought_stored
      bought_posting touched_side update_runs bought_matches
