-- ===== src/Finances.antt =====
-- The finances of a space: who did what, shown beside the rows
-- (src/modules/space-finances/space-financial-actors.service.ts).
pub mod Debts
pub mod Plans
pub mod Settings
pub mod Wallet
pub mod Transfers
pub mod Entries
pub mod Rights
pub mod Authorised
use mathlib.Core.Option
use babki_back.Prelude.{
  Bool, true, false, ◌&&◌, ◌||◌, not, Option, none, some, List, [], ◌∷◌, ◌++◌, ◌==◌, is_some, map,
}
use babki_back.Mongo.{Mongo, first}
use babki_back.Http.{ok, other_error}
use babki_back.Schemas.{
  ObjectId, Text, User, UserStatus, Transaction, TransactionDetail, income, expense, transfer, Debt,
  DebtTransaction, Plan,
}
use babki_back.Tables
use babki_back.Session.{Action, pure, or_raise, ◌>>=◌, find}

pub record SpaceFinancialActor : Type 0 where
  pub user_id : ObjectId
  pub first_name : Option Text
  pub last_name : Option Text
  pub is_anonymized : Bool

-- The users that a row names.
pub record ActorIds : Type 0 where
  pub created_by : ObjectId
  pub cancelled_by : Option ObjectId
  pub participant_id : Option ObjectId

pub record WithActors (D : Type 0) : Type 0 where
  pub row : D
  pub created_by_actor : SpaceFinancialActor
  pub cancelled_by_actor : Option SpaceFinancialActor
  pub participant_actor : Option SpaceFinancialActor

unfoldable pub participant_of : TransactionDetail → Option ObjectId
participant_of (income p) = none
participant_of (expense p x) = some x.participant_id
participant_of (transfer s d) = none

unfoldable pub transaction_actors : Transaction → ActorIds
unfolding participant_of
transaction_actors tx = record {
  created_by = tx.created_by;
  cancelled_by = none;
  participant_id = participant_of tx.detail;
}

unfoldable pub debt_actors : Debt → ActorIds
debt_actors d = record { created_by = d.created_by; cancelled_by = none; participant_id = none }

unfoldable pub repayment_actors : DebtTransaction → ActorIds
repayment_actors r = record {
  created_by = r.created_by;
  cancelled_by = r.cancelled_by;
  participant_id = none;
}

unfoldable pub plan_actors : Plan → ActorIds
plan_actors p = record { created_by = p.created_by; cancelled_by = none; participant_id = none }

unfoldable pub some_ids : Option ObjectId → List ObjectId
some_ids none = []
some_ids (some id) = id ∷ []

-- The loop over the rows; the filter does not see that an id stands twice.
unfoldable pub actor_ids : {D : Type 0} → (D → ActorIds) → List D → List ObjectId
unfolding some_ids
actor_ids of_row [] = []
actor_ids of_row (d ∷ rows) =
    let a = of_row d in
    a.created_by ∷ (some_ids a.cancelled_by ++ (some_ids a.participant_id ++ actor_ids of_row rows))

unfoldable pub contains_id : ObjectId → List ObjectId → Bool
contains_id id [] = false
contains_id id (a ∷ ids) = a == id || contains_id id ids

unfoldable pub is_active_user : UserStatus → Bool
is_active_user UserStatus.active = true
is_active_user UserStatus.deletion_pending = false
is_active_user UserStatus.deleted = false

-- `{ _id: { $in: ids }, status: 'active' }`
unfoldable pub profile_filter : List ObjectId → User → Bool
unfolding contains_id is_active_user
profile_filter ids u = contains_id u.id ids && is_active_user u.status

-- `actorFor`, on the profiles that are found
unfoldable pub actor_for : List User → ObjectId → SpaceFinancialActor
actor_for profiles id =
    let profile = first (λ u. u.id == id) profiles in
    record {
      user_id = id;
      first_name = elim profile [ none ↦ none | some u ↦ u.first_name ];
      last_name = elim profile [ none ↦ none | some u ↦ u.last_name ];
      is_anonymized = not (is_some profile);
    }

unfoldable pub with_actors : {D : Type 0} → (D → ActorIds) → List User → D → WithActors D
unfolding actor_for
with_actors of_row profiles d = record {
  row = d;
  created_by_actor = actor_for profiles (of_row d).created_by;
  cancelled_by_actor = Option.map (actor_for profiles) (of_row d).cancelled_by;
  participant_actor = Option.map (actor_for profiles) (of_row d).participant_id;
}

module _ ⦃m : Mongo⦄ {D : Type 0} where
  unfoldable pub enrich : (D → ActorIds) → List D → Action (List (WithActors D))
  unfolding profile_filter actor_ids with_actors
  enrich of_row [] = pure []
  enrich of_row (d ∷ rows) = do
    profiles ← find Tables.users (profile_filter (actor_ids of_row (d ∷ rows)))
    pure (map (with_actors of_row profiles) (d ∷ rows))

  -- `enrichOne`: the first of the enriched rows.
  unfoldable pub enrich_one : (D → ActorIds) → D → Action (WithActors D)
  unfolding profile_filter actor_ids with_actors
  enrich_one of_row d = do
    profiles ← find Tables.users (profile_filter (actor_ids of_row (d ∷ [])))
    pure (with_actors of_row profiles d)
