-- ===== src/Tests/Entries.antt =====
-- Anna corrects and deletes an expense of the small space.
use babki_back.Prelude.{◌≡◌, refl, none, some}
use babki_back.Prelude.Int.{pos}
use babki_back.Http.{Result, ok, err, forbidden, mutation_not_permitted}
use babki_back.Schemas.{Db, Transaction}
use babki_back.Finances.{WithActors, transaction_actors}
use babki_back.Finances.Entries.{UpdateEntry, Permit, expense_kind, update, remove}
use babki_back.Finances.Authorised.{IsGuarded, IsEntryUpdate, update-IsGuarded, remove-IsGuarded}
use babki_back.Finances.Rights.{IsAuthorised}
use babki_back.Tests.{list_mongo, small_intl}
use babki_back.Tests.Access.{plain_transactions}
use babki_back.Tests.Changed.{bought, after_bought}
use babki_back.Tests.Fixture.{day, anna, bert}
use babki_back.Tests.Machine.{entries_machine}

-- Another amount, and Bert's expense from now on.
abbrev correction : UpdateEntry
correction = record {
  amount = some (pos 25000000);
  description = none;
  merchant = none;
  items = none;
  participant_id = some bert;
  category_id = none;
}

abbrev corrected : Result (WithActors Transaction) × Db
corrected = update 1 anna 1 expense_kind correction after_bought

update-IsGuarded_example :
    IsGuarded 1
      (IsEntryUpdate 1 anna 1 expense_kind correction)
      corrected.0
      after_bought
      corrected.1
update-IsGuarded_example =
    update-IsGuarded 1 anna 1 expense_kind correction corrected.0 after_bought corrected.1 refl

-- It is done, and Bert takes part in the expense afterwards.
abbrev shown_by : Result (WithActors Transaction) → Transaction
shown_by (ok w) = w.row
shown_by (err e) = bought

now_of_bert : (transaction_actors (shown_by corrected.0)).participant_id ≡ some bert
unfolding entries_machine
now_of_bert = refl

abbrev deleted : Result Transaction × Db
deleted = remove 1 anna (day 60) 1 expense_kind after_bought

remove-IsGuarded_example :
    IsGuarded 1
      (λ db. (permit : Permit) × IsAuthorised 1 anna 1 expense_kind permit db)
      deleted.0
      after_bought
      deleted.1
remove-IsGuarded_example =
    remove-IsGuarded 1 anna (day 60) 1 expense_kind deleted.0 after_bought deleted.1 refl

-- Bert neither wrote the expense nor takes part in it.
bert_refused :
    update 1 bert 1 expense_kind correction after_bought
    ≡ (err (forbidden mutation_not_permitted), after_bought)
unfolding entries_machine
bert_refused = refl
