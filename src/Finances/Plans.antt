-- ===== src/Finances/Plans.antt =====
-- The plans of a space (src/modules/space-finances/space-plans.service.ts).
use babki_back.Prelude.{Bool, false, ◌&&◌, ◌||◌, not, none, ◌==◌, is_some, get_or, if◌then◌else◌}
use babki_back.Money.{Intl}
use babki_back.Dates.{Date}
use babki_back.Mongo.{Mongo}
use babki_back.Http.{
  Result, err, bad_request, forbidden, not_found, empty_update, mutation_not_permitted,
  plan_not_found,
}
use babki_back.Schemas.{Db, ObjectId, Plan}
use babki_back.Budget.{space_budget}
use babki_back.Access.{Transactions, member_context, require_member, run}
use babki_back.Plans.{
  CreatePlan, UpdatePlan, ClosePlan, require_plan, close_for_budget, archive_for_budget,
}
use babki_back.Plans
use babki_back.Finances.{WithActors, plan_actors, enrich_one}
use babki_back.Session.{Action, or_raise, raise_if, ◌>>=◌, ◌>>◌}

unfoldable pub is_empty_update : UpdatePlan → Bool
is_empty_update dto = not (
    is_some dto.description
    || is_some dto.target_date
    || is_some dto.amount
    || is_some dto.category_id)

module _ ⦃m : Mongo⦄ ⦃intl : Intl⦄ where
  -- The owner, who made the plan, or who may manage transactions.
  unfoldable pub require_mutation : ObjectId → ObjectId → ObjectId → Action (Unit {0})
  unfolding require_plan
  require_mutation space_id actor id = do
    row ← require_plan (space_budget space_id) id false
    (space, permissions) ← member_context space_id actor
    raise_if
        (not (space.owner_id == actor)
          && not (row.created_by == actor)
          && not permissions.manage_transactions)
        (forbidden mutation_not_permitted)

  module _ ⦃t : Transactions⦄ where
    unfoldable pub create : ObjectId → ObjectId → CreatePlan → Db → Result (WithActors Plan) × Db
    unfolding run
    create space_id actor dto =
        run (space_budget space_id) actor
          (do
            row ← Plans.create_for_budget (space_budget space_id) actor dto
            enrich_one plan_actors row)
          none

    unfoldable pub update :
        ObjectId → ObjectId → ObjectId → UpdatePlan → Db → Result (WithActors Plan) × Db
    unfolding run require_mutation
    update space_id actor id dto db =
        if is_empty_update dto
        then (err (bad_request empty_update), db)
        else run (space_budget space_id) actor
            (do
              require_mutation space_id actor id
              updated ← Plans.update_for_budget (space_budget space_id) id dto
              row ← or_raise updated (not_found plan_not_found)
              enrich_one plan_actors row)
            none db

    -- The expense is somebody's who is a member.
    unfoldable pub close :
        ObjectId → ObjectId → Date → ObjectId → ClosePlan → Db → Result (WithActors Plan) × Db
    unfolding run require_mutation
    close space_id actor now id dto =
        run (space_budget space_id) actor
          (do
            require_mutation space_id actor id
            require_member space_id (get_or dto.participant_id actor)
            row ← close_for_budget (space_budget space_id) actor now id dto
            enrich_one plan_actors row)
          none

    unfoldable pub archive : ObjectId → ObjectId → Date → ObjectId → Db → Result (Unit {0}) × Db
    unfolding run require_mutation
    archive space_id actor now id =
        run (space_budget space_id) actor
          (do require_mutation space_id actor id; archive_for_budget (space_budget space_id) now id)
          none

    unfoldable pub remove : ObjectId → ObjectId → ObjectId → Db → Result (Unit {0}) × Db
    unfolding run require_mutation
    remove space_id actor id =
        run (space_budget space_id) actor
          (do
            require_mutation space_id actor id
            Plans.remove_for_budget (space_budget space_id) id)
          none
