-- ===== src/Finances/Settings.antt =====
-- The categories and limits of a space (src/modules/space-finances/space-settings.service.ts).
use babki_back.Prelude.{Bool, ◌||◌, not, some, is_some, if◌then◌else◌}
use babki_back.Money.{Intl}
use babki_back.Dates.{Date}
use babki_back.Mongo.{Mongo}
use babki_back.Http.{Result, err, bad_request, empty_update}
use babki_back.Schemas.{Db, ObjectId, ExpenseCategory}
use babki_back.Budget.{space_budget}
use babki_back.Access.{Transactions, categories, limits, resolve, run}
use babki_back.Categories.Service.{CreateExpenseCategory, UpdateExpenseCategory}
use babki_back.Categories.Service
use babki_back.Limits.{LimitCreate, LimitUpdate, LimitResponse}
use babki_back.Limits
use babki_back.Session.{Action, ◌>>◌}

-- `requireChanges`, of an update; a creation has a name or a total.
unfoldable pub category_unchanged : UpdateExpenseCategory → Bool
category_unchanged dto =
    not
      (is_some dto.name || is_some dto.description || is_some dto.color || is_some dto.is_archived)

unfoldable pub limit_unchanged : LimitUpdate → Bool
limit_unchanged dto = not (is_some dto.total || is_some dto.start_date || is_some dto.end_date)

module _ ⦃m : Mongo⦄ where
  unfoldable pub get_category : ObjectId → ObjectId → ObjectId → Action ExpenseCategory
  unfolding resolve
  get_category space_id actor id = do
    resolve actor space_id
    Service.find_one_for_budget (space_budget space_id) id

  module _ ⦃t : Transactions⦄ where
    unfoldable pub create_category :
        ObjectId → ObjectId → CreateExpenseCategory → Db → Result ExpenseCategory × Db
    unfolding run
    create_category space_id actor dto =
        run (space_budget space_id) actor (Service.create_for_budget (space_budget space_id) dto)
          (some categories)

    unfoldable pub update_category :
        ObjectId → ObjectId → ObjectId → UpdateExpenseCategory → Db → Result ExpenseCategory × Db
    unfolding run
    update_category space_id actor id dto db =
        if category_unchanged dto
        then (err (bad_request empty_update), db)
        else run (space_budget space_id) actor
            (Service.update_for_budget (space_budget space_id) id dto) (some categories) db

    unfoldable pub remove_category : ObjectId → ObjectId → ObjectId → Db → Result (Unit {0}) × Db
    unfolding run
    remove_category space_id actor id =
        run (space_budget space_id) actor (Service.remove_for_budget (space_budget space_id) id)
          (some categories)

  module _ ⦃intl : Intl⦄ where
    unfoldable pub get_limit : ObjectId → ObjectId → ObjectId → Action LimitResponse
    unfolding resolve
    get_limit space_id actor id = do
      resolve actor space_id
      Limits.find_one_for_budget (space_budget space_id) id

    module _ ⦃t : Transactions⦄ where
      unfoldable pub create_limit :
          ObjectId → ObjectId → Date → LimitCreate → Db → Result LimitResponse × Db
      unfolding run
      create_limit space_id actor now dto =
          run (space_budget space_id) actor
            (Limits.create_for_budget (space_budget space_id) dto now) (some limits)

      unfoldable pub update_limit :
          ObjectId → ObjectId → Date → ObjectId → LimitUpdate → Db → Result LimitResponse × Db
      unfolding run
      update_limit space_id actor now id dto db =
          if limit_unchanged dto
          then (err (bad_request empty_update), db)
          else run (space_budget space_id) actor
              (Limits.update_for_budget (space_budget space_id) id dto now) (some limits) db

      unfoldable pub remove_limit : ObjectId → ObjectId → ObjectId → Db → Result (Unit {0}) × Db
      unfolding run
      remove_limit space_id actor id =
          run (space_budget space_id) actor (Limits.remove_for_budget (space_budget space_id) id)
            (some limits)
