-- ===== src/Finances/Transfers.antt =====
-- The transfers of a space (src/modules/space-finances/space-transfers.service.ts).
use babki_back.Prelude.{Bool, ◌&&◌, ◌||◌, not, none, ◌==◌, is_some, if◌then◌else◌}
use babki_back.Money.{Intl}
use babki_back.Dates.{Date}
use babki_back.Mongo.{Mongo}
use babki_back.Http.{Result, err, bad_request, forbidden, empty_update, mutation_not_permitted}
use babki_back.Schemas.{Db, ObjectId, Transaction}
use babki_back.Budget.{space_budget}
use babki_back.Access.{Transactions, member_context, resolve, run}
use babki_back.Transfers.{CreateTransfer, UpdateTransfer, get_stored_for_budget}
use babki_back.Transfers
use babki_back.Finances.{WithActors, transaction_actors, enrich_one}
use babki_back.Session.{Action, raise_if, ◌>>=◌, ◌>>◌}

unfoldable pub is_empty_update : UpdateTransfer → Bool
is_empty_update dto =
    not (is_some dto.source_amount || is_some dto.destination_amount || is_some dto.description)

module _ ⦃m : Mongo⦄ ⦃intl : Intl⦄ where
  unfoldable pub get : ObjectId → ObjectId → ObjectId → Action (WithActors Transaction)
  unfolding resolve
  get space_id actor id = do
    budget ← resolve actor space_id
    row ← get_stored_for_budget budget id
    enrich_one transaction_actors row

  -- The owner, who wrote the transfer down, or who may manage transactions.
  unfoldable pub require_mutation : ObjectId → ObjectId → ObjectId → Action (Unit {0})
  unfolding get_stored_for_budget
  require_mutation space_id actor id = do
    row ← get_stored_for_budget (space_budget space_id) id
    (space, permissions) ← member_context space_id actor
    raise_if
        (not (space.owner_id == actor)
          && not (row.created_by == actor)
          && not permissions.manage_transactions)
        (forbidden mutation_not_permitted)

  module _ ⦃t : Transactions⦄ where
    unfoldable pub create :
        ObjectId → ObjectId → CreateTransfer → Db → Result (WithActors Transaction) × Db
    unfolding run
    create space_id actor dto =
        run (space_budget space_id) actor
          (do
            row ← Transfers.create_for_budget (space_budget space_id) actor dto
            enrich_one transaction_actors row)
          none

    -- `change` with a request
    unfoldable pub update :
        ObjectId → ObjectId → ObjectId → UpdateTransfer → Db → Result (WithActors Transaction) × Db
    unfolding run require_mutation
    update space_id actor id dto db =
        if is_empty_update dto
        then (err (bad_request empty_update), db)
        else run (space_budget space_id) actor
            (do
              require_mutation space_id actor id
              row ← Transfers.update_for_budget (space_budget space_id) id dto
              enrich_one transaction_actors row)
            none db

    -- `change` without one
    unfoldable pub remove : ObjectId → ObjectId → Date → ObjectId → Db → Result (Unit {0}) × Db
    unfolding run require_mutation
    remove space_id actor now id =
        run (space_budget space_id) actor
          (do
            require_mutation space_id actor id
            Transfers.delete_for_budget (space_budget space_id) actor now id)
          none
