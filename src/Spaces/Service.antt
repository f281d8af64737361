-- ===== src/Spaces/Service.antt =====
-- The operations on spaces, each in its transaction
-- (src/modules/spaces/spaces.service.ts).
use babki_back.Prelude.{Bool, true, false, ◌&&◌, not, is_some, if◌then◌else◌}
use babki_back.Dates.{Date}
use babki_back.Mongo.{Mongo}
use babki_back.Http.{Result, err, bad_request, empty_permissions, empty_update}
use babki_back.Schemas.{Db, ObjectId, Space, SpacePermissions}
use babki_back.Access.{Transactions, run_transaction}
use babki_back.Session.{Action}
use babki_back.Spaces.{CreateSpace, UpdateSpace, UpdateSpacePermissions, SpaceDto, changes_nothing}
use babki_back.Spaces.Actions.{
  mutation, create_space, update_space, remove_space, change_permissions, leave_space, expel_member,
  hand_over,
}

module _ ⦃m : Mongo⦄ ⦃t : Transactions⦄ where
  unfoldable pub mutate :
      {A : Type 0} → ObjectId → ObjectId → Bool → (Space → Action A) → Db → Result A × Db
  unfolding mutation run_transaction
  mutate user_id space_id owner_only callback =
      run_transaction (mutation user_id space_id owner_only callback)

  unfoldable pub create : ObjectId → CreateSpace → Date → Db → Result SpaceDto × Db
  unfolding run_transaction create_space
  create user_id dto now = run_transaction (create_space user_id dto now)

  unfoldable pub update : ObjectId → ObjectId → UpdateSpace → Db → Result SpaceDto × Db
  unfolding mutate update_space
  update user_id space_id dto db =
      if not (is_some dto.name) && not (is_some dto.description)
      then (err (bad_request empty_update), db)
      else mutate user_id space_id true (update_space user_id dto) db

  unfoldable pub remove : ObjectId → ObjectId → Date → Db → Result (Unit {0}) × Db
  unfolding mutate remove_space
  remove user_id space_id now = mutate user_id space_id true (remove_space user_id space_id now)

  unfoldable pub update_permissions :
      ObjectId
      → ObjectId
      → ObjectId
      → UpdateSpacePermissions
      → Date
      → Db
      → Result SpacePermissions × Db
  unfolding mutate change_permissions
  update_permissions actor_id space_id user_id dto now db =
      if changes_nothing dto
      then (err (bad_request empty_permissions), db)
      else mutate actor_id space_id true (change_permissions actor_id space_id user_id dto now) db

  unfoldable pub leave : ObjectId → ObjectId → Date → Db → Result (Unit {0}) × Db
  unfolding mutate leave_space
  leave user_id space_id now = mutate user_id space_id false (leave_space user_id space_id now)

  unfoldable pub remove_member : ObjectId → ObjectId → ObjectId → Date → Db → Result (Unit {0}) × Db
  unfolding mutate expel_member
  remove_member actor_id space_id user_id now =
      mutate actor_id space_id true (expel_member actor_id space_id user_id now)

  unfoldable pub transfer_ownership :
      ObjectId → ObjectId → ObjectId → Date → Db → Result SpaceDto × Db
  unfolding mutate hand_over
  transfer_ownership actor_id space_id user_id now =
      mutate actor_id space_id true (hand_over actor_id space_id user_id now)
