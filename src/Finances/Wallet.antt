-- ===== src/Finances/Wallet.antt =====
-- The accounts of a space (src/modules/space-finances/space-wallet.service.ts).
use babki_back.Prelude.{some}
use babki_back.Money.{Intl}
use babki_back.Dates.{Date}
use babki_back.Mongo.{Mongo}
use babki_back.Http.{Result}
use babki_back.Schemas.{Db, ObjectId, Text}
use babki_back.Budget.{space_budget}
use babki_back.Access.{Transactions, accounts, resolve, run}
use babki_back.Accounts.{
  CreateAccount, AccountResponse, get_for_budget, rename_for_budget, archive_for_budget,
}
use babki_back.Accounts
use babki_back.Session.{Action, ◌>>=◌}

module _ ⦃m : Mongo⦄ ⦃intl : Intl⦄ where
  unfoldable pub get : ObjectId → ObjectId → Date → ObjectId → Action AccountResponse
  unfolding resolve
  get space_id actor now id = do budget ← resolve actor space_id; get_for_budget budget id now

  module _ ⦃t : Transactions⦄ where
    unfoldable pub create :
        ObjectId → ObjectId → Date → CreateAccount → Db → Result AccountResponse × Db
    unfolding run
    create space_id actor now dto =
        run (space_budget space_id) actor
          (Accounts.create_for_budget (space_budget space_id) dto now) (some accounts)

    unfoldable pub remove : ObjectId → ObjectId → ObjectId → Db → Result (Unit {0}) × Db
    unfolding run
    remove space_id actor id =
        run (space_budget space_id) actor (Accounts.remove_for_budget (space_budget space_id) id)
          (some accounts)

    unfoldable pub rename :
        ObjectId → ObjectId → Date → ObjectId → Text → Db → Result AccountResponse × Db
    unfolding run
    rename space_id actor now id name =
        run (space_budget space_id) actor (rename_for_budget (space_budget space_id) id name now)
          (some accounts)

    unfoldable pub archive : ObjectId → ObjectId → Date → ObjectId → Db → Result (Unit {0}) × Db
    unfolding run
    archive space_id actor now id =
        run (space_budget space_id) actor (archive_for_budget (space_budget space_id) id now)
          (some accounts)
