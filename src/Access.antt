-- ===== src/Access.antt =====
-- Who may work on a space, and the transaction that the work runs in
-- (src/modules/spaces/spaces-access.service.ts, src/modules/spaces/space-permissions.ts,
-- src/modules/spaces/spaces-transaction.service.ts,
-- src/modules/budgets/budget-access.service.ts, src/modules/budgets/budget-write.service.ts).
pub mod Permits
pub mod Atomic
pub mod Runs
use babki_back.Prelude.{
  ◌+◌, ◌≡◌, ◌⊎◌, Bool, true, false, ◌&&◌, ◌||◌, not, Option, none, some, ◌==◌, is_some,
  if◌then◌else◌,
}
use babki_back.Mongo.{Mongo}
use babki_back.Http.{
  Exception, Result, ok, err, is_http, other_error, not_found, forbidden, service_unavailable,
  account_not_found, space_not_found, space_owner_required, space_permission_required,
  operation_failed,
}
use babki_back.Schemas.{
  Db, ObjectId, Account, Space, SpaceMembership, SpacePermissions, MembershipStatus,
}
use babki_back.Budget.{BudgetContext, budget_filter, space_budget}
use babki_back.Tables
use babki_back.Session.{
  Action, pure, or_raise, raise_if, ◌>>=◌, ◌>>◌, find_one, exists, find_one_and_update,
}

-- How a transaction of the driver throws: the work has thrown and is rolled back; or the driver has
-- given up, by an error of its own, and nothing is written; or the result of the commit is unknown,
-- as when its time is over, and what the work has done is written all the same.
pub data Failure {A : Type 0} (work : Action A) (db db' : Db) (e : Exception) : Type 0 where
  rolled_back : work db ≡ err e → db' ≡ db → Failure work db db' e
  gave_up : e ≡ other_error → db' ≡ db → Failure work db db' e
  unknown_commit : (a : A) → e ≡ other_error → work db ≡ ok (a, db') → Failure work db db' e

-- The transactions of the driver: `startSession` and `withTransaction`. Its own errors are no HTTP
-- exceptions.
pub record Transactions : Type 1 where
  pub with_transaction : {A : Type 0} → Action A → Db → Result A × Db
  pub commits :
      {A : Type 0} (work : Action A) (db db' : Db) (a : A)
      → with_transaction work db ≡ (ok a, db')
      → work db ≡ ok (a, db')
  pub throws :
      {A : Type 0} (work : Action A) (db db' : Db) (e : Exception)
      → with_transaction work db ≡ (err e, db')
      → Failure work db db' e

pub data SpacePermission : Type 0 where
  accounts categories limits transactions : SpacePermission

-- `permissions[permission]`
unfoldable pub has_permission : SpacePermissions → SpacePermission → Bool
has_permission p accounts = p.manage_accounts
has_permission p categories = p.manage_categories
has_permission p limits = p.manage_limits
has_permission p transactions = p.manage_transactions

unfoldable pub effective_permissions : Bool → SpacePermissions → SpacePermissions
effective_permissions owner p = record {
  manage_accounts = owner || p.manage_accounts;
  manage_categories = owner || p.manage_categories;
  manage_limits = owner || p.manage_limits;
  manage_transactions = owner || p.manage_transactions;
}

unfoldable pub is_active : MembershipStatus → Bool
is_active MembershipStatus.active = true
is_active MembershipStatus.left = false
is_active MembershipStatus.removed = false

-- `{ _id: spaceId, deletedAt: null }`
unfoldable pub space_filter : ObjectId → Space → Bool
space_filter id s = s.id == id && not (is_some s.deleted_at)

-- `{ spaceId, userId, status: 'active' }`
unfoldable pub member_filter : ObjectId → ObjectId → SpaceMembership → Bool
member_filter space_id user_id s =
    s.space_id == space_id && s.user_id == user_id && is_active s.status

-- `error instanceof HttpException`: other errors are hidden.
unfoldable pub hide_error : Exception → Exception
hide_error e = if is_http e then e else service_unavailable operation_failed

module _ ⦃m : Mongo⦄ where
  unfoldable pub require_member : ObjectId → ObjectId → Action Space
  require_member space_id user_id = do
    found ← find_one Tables.spaces (space_filter space_id)
    space ← or_raise found (not_found space_not_found)
    is_member ← exists Tables.memberships (member_filter space_id user_id)
    raise_if (not is_member) (not_found space_not_found)
    pure space

  unfoldable pub require_owner : ObjectId → ObjectId → Action Space
  unfolding require_member
  require_owner space_id user_id = do
    space ← require_member space_id user_id
    raise_if (not (space.owner_id == user_id)) (forbidden space_owner_required)
    pure space

  unfoldable pub member_context : ObjectId → ObjectId → Action (Space × SpacePermissions)
  unfolding require_member
  member_context space_id user_id = do
    space ← require_member space_id user_id
    found ← find_one Tables.memberships (member_filter space_id user_id)
    membership ← or_raise found (not_found space_not_found)
    pure (space, effective_permissions (space.owner_id == user_id) membership.permissions)

  unfoldable pub require_permission : ObjectId → ObjectId → SpacePermission → Action Space
  unfolding member_context
  require_permission space_id user_id permission = do
    (space, permissions) ← member_context space_id user_id
    raise_if (not (has_permission permissions permission)) (forbidden space_permission_required)
    pure space

  unfoldable pub serialize_mutation : ObjectId → Action Space
  serialize_mutation space_id = do
    found ←
        find_one_and_update Tables.spaces (space_filter space_id)
          (λ s. record s { mutation_version = s.mutation_version + 1 })
    or_raise found (not_found space_not_found)

  unfoldable pub resolve : ObjectId → ObjectId → Action BudgetContext
  unfolding require_member
  resolve actor_id space_id = do
    space ← require_member space_id actor_id
    pure (space_budget space_id)

  unfoldable pub account : BudgetContext → ObjectId → Action Account
  account budget id = do
    found ← find_one Tables.accounts (λ a. a.id == id && budget_filter budget a.space_id)
    or_raise found (not_found account_not_found)

  -- The member, with the permission where one is asked for.
  unfoldable pub check_actor : BudgetContext → ObjectId → Option SpacePermission → Action Space
  unfolding require_permission require_member
  check_actor budget actor_id (some permission) =
      require_permission budget.space_id actor_id permission
  check_actor budget actor_id none = require_member budget.space_id actor_id

  unfoldable pub execute :
      {A : Type 0} → BudgetContext → ObjectId → Action A → Option SpacePermission → Action A
  unfolding serialize_mutation check_actor
  execute budget actor_id work permission = do
    serialize_mutation budget.space_id
    check_actor budget actor_id permission
    work

  -- In the session of the caller.
  unfoldable pub run_supplied :
      {A : Type 0} → BudgetContext → ObjectId → Action A → Option SpacePermission → Action A
  unfolding execute
  run_supplied budget actor_id work permission db =
      elim (execute budget actor_id work permission db) [ ok r ↦ ok r | err e ↦ err (hide_error e) ]

  -- In a transaction of its own.
  unfoldable pub run :
      {A : Type 0}
      → ⦃t : Transactions⦄ → BudgetContext
      → ObjectId
      → Action A
      → Option SpacePermission
      → Db
      → Result A × Db
  unfolding execute
  run ⦃t⦄ budget actor_id work permission db =
      let (r, db') = t.with_transaction (execute budget actor_id work permission) db in
      (elim r [ ok a ↦ ok a | err e ↦ err (hide_error e) ], db')

-- `SpacesTransactionService.run`: a transaction without the checks.
unfoldable pub run_transaction : {A : Type 0} → ⦃t : Transactions⦄ → Action A → Db → Result A × Db
unfolding hide_error
run_transaction ⦃t⦄ work db =
    let (r, db') = t.with_transaction work db in
    (elim r [ ok a ↦ ok a | err e ↦ err (hide_error e) ], db')
