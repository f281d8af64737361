-- ===== src/Finances/Debts.antt =====
-- The debts of a space (src/modules/space-finances/space-debts.service.ts).
use babki_back.Prelude.{Bool, false, ◌&&◌, ◌||◌, not, none, ◌==◌, is_some, if◌then◌else◌}
use babki_back.Money.{Intl}
use babki_back.Dates.{Date}
use babki_back.Mongo.{Mongo}
use babki_back.Http.{
  Result, err, bad_request, forbidden, not_found, empty_update, mutation_not_permitted,
  debt_not_found,
}
use babki_back.Schemas.{Db, ObjectId, Debt, DebtTransaction}
use babki_back.Budget.{space_budget}
use babki_back.Access.{Transactions, member_context, run}
use babki_back.Debts.{
  CreateDebtCommand, UpdateDebtCommand, RepayDebtCommand, require_debt, repay_for_budget,
  cancel_repayment_for_budget, archive_for_budget, remove_for_budget,
}
use babki_back.Debts
use babki_back.Finances.{WithActors, debt_actors, repayment_actors, enrich_one}
use babki_back.Session.{Action, pure, or_raise, raise_if, ◌>>=◌, ◌>>◌}

-- `!Object.values(dto).some((value) => value !== undefined)`
unfoldable pub is_empty_update : UpdateDebtCommand → Bool
is_empty_update dto = not (
    is_some dto.debtor
    || is_some dto.principal_amount
    || is_some dto.remaining_amount
    || is_some dto.status
    || is_some dto.description
    || is_some dto.due_date)

module _ ⦃m : Mongo⦄ ⦃intl : Intl⦄ where
  -- The owner, who wrote the debt down, or who may manage transactions.
  unfoldable pub require_mutation : ObjectId → ObjectId → ObjectId → Action (Unit {0})
  unfolding require_debt
  require_mutation space_id actor id = do
    row ← require_debt (space_budget space_id) id false
    (space, permissions) ← member_context space_id actor
    raise_if
        (not (space.owner_id == actor)
          && not (row.created_by == actor)
          && not permissions.manage_transactions)
        (forbidden mutation_not_permitted)

  -- The source enriches both rows at once, which shows the same actors.
  unfoldable pub both_enriched :
      Debt × DebtTransaction → Action (WithActors Debt × WithActors DebtTransaction)
  unfolding enrich_one
  both_enriched (d, r) = do
    debt ← enrich_one debt_actors d
    repayment ← enrich_one repayment_actors r
    pure (debt, repayment)

  module _ ⦃t : Transactions⦄ where
    unfoldable pub create :
        ObjectId → ObjectId → CreateDebtCommand → Db → Result (WithActors Debt) × Db
    unfolding run
    create space_id actor dto =
        run (space_budget space_id) actor
          (do
            row ← Debts.create_for_budget (space_budget space_id) actor dto
            enrich_one debt_actors row)
          none

    unfoldable pub update :
        ObjectId → ObjectId → ObjectId → UpdateDebtCommand → Db → Result (WithActors Debt) × Db
    unfolding run require_mutation
    update space_id actor id dto db =
        if is_empty_update dto
        then (err (bad_request empty_update), db)
        else run (space_budget space_id) actor
            (do
              require_mutation space_id actor id
              updated ← Debts.update_for_budget (space_budget space_id) id dto
              row ← or_raise updated (not_found debt_not_found)
              enrich_one debt_actors row)
            none db

    unfoldable pub repay :
        ObjectId
        → ObjectId
        → ObjectId
        → RepayDebtCommand
        → Db
        → Result (WithActors Debt × WithActors DebtTransaction) × Db
    unfolding run require_mutation both_enriched
    repay space_id actor id dto =
        run (space_budget space_id) actor
          (do
            require_mutation space_id actor id
            result ← repay_for_budget (space_budget space_id) actor id dto
            both_enriched result)
          none

    unfoldable pub cancel :
        ObjectId
        → ObjectId
        → Date
        → ObjectId
        → ObjectId
        → Db
        → Result (WithActors Debt × WithActors DebtTransaction) × Db
    unfolding run require_mutation both_enriched
    cancel space_id actor now id repayment_id =
        run (space_budget space_id) actor
          (do
            require_mutation space_id actor id
            result ← cancel_repayment_for_budget (space_budget space_id) actor now id repayment_id
            both_enriched result)
          none

    unfoldable pub archive : ObjectId → ObjectId → Date → ObjectId → Db → Result (Unit {0}) × Db
    unfolding run require_mutation
    archive space_id actor now id =
        run (space_budget space_id) actor
          (do require_mutation space_id actor id; archive_for_budget (space_budget space_id) now id)
          none

    unfoldable pub remove : ObjectId → ObjectId → ObjectId → Db → Result (Unit {0}) × Db
    unfolding run require_mutation
    remove space_id actor id =
        run (space_budget space_id) actor
          (do require_mutation space_id actor id; remove_for_budget (space_budget space_id) id) none
