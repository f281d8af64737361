-- ===== src/Access/Atomic.antt =====
-- A financial operation is done by somebody who may do it and as a whole, or not at all
-- (src/modules/budgets/budget-write.service.ts, `run`).
use mathlib.Core.Option
use mathlib.Core.Path.{subst}
use babki_back.Prelude.{◌≡◌, ◌+◌, refl, sym, ap, ◌∙◌, true, Option, none, some, is_some, arith}
use babki_back.Mongo.{Mongo, first}
use babki_back.Http.{
  service_unavailable, operation_failed, Exception, Result, ok, err, is_http, not_found,
  space_not_found,
}
use babki_back.Schemas.{Db, ObjectId, Space}
use babki_back.Budget.{BudgetContext}
use babki_back.Access.{
  Failure, rolled_back, gave_up, unknown_commit, Transactions, SpacePermission, space_filter,
  member_filter, hide_error, serialize_mutation, check_actor, execute, run,
}
use babki_back.Access.Permits.{IsPermitted, member_ok, IsPermitted-of_ok}
use babki_back.Session.{Action}
use babki_back.Session.Inversion.{bind_ok, or_raise_ok, mapped}

hidden_is_http : (e : Exception) → is_http (hide_error e) ≡ true
unfolding hide_error
hidden_is_http e = ground arith

ok_eq : {A : Type 0} (a b : A) → ◌≡◌ {A = Result A} (ok a) (ok b) → a ≡ b
ok_eq a b h = cc

err_eq : {A : Type 0} (e e' : Exception) → ◌≡◌ {A = Result A} (err e) (err e') → e ≡ e'
err_eq e e' h = cc

-- Who may work: a member with the permission, or any member where none is asked for.
pub data MayWork (space_id user_id : ObjectId) (space : Space) (db : Db)
    : Option SpacePermission → Type 0 where
  with_permission :
      (k : SpacePermission)
      → IsPermitted space_id user_id k space db
      → MayWork space_id user_id space db (some k)
  as_member :
      first (space_filter space_id) db.spaces ≡ some space
      → is_some (first (member_filter space_id user_id) db.memberships) ≡ true
      → MayWork space_id user_id space db none

module _ ⦃m : Mongo⦄ where
  actor_ok :
      (budget : BudgetContext) (actor_id : ObjectId) (o : Option SpacePermission) (space : Space)
      (db db' : Db)
      → check_actor budget actor_id o db ≡ ok (space, db')
      → (db' ≡ db) × MayWork budget.space_id actor_id space db o
  unfolding check_actor
  actor_ok budget actor_id (some k) space db db' h =
      let (same, p) = IsPermitted-of_ok budget.space_id actor_id k space db db' h in
      (same, with_permission k p)
  actor_ok budget actor_id none space db db' h =
      let (same, live, joined) = member_ok budget.space_id actor_id space db db' h in
      (same, as_member live joined)

  -- The state that the work begins in: the space has a new version.
  pub record IsStarted (budget : BudgetContext) (db start : Db) : Type 0 where
    pub was : Space
    pub live : first (space_filter budget.space_id) db.spaces ≡ some was
    pub touched : start ≡ record db {
      spaces =
          m.update_one
            (space_filter budget.space_id)
            (λ s. record s { mutation_version = s.mutation_version + 1 })
            db.spaces;
    }

  pub serialize_ok :
      (budget : BudgetContext) (space : Space) (db db' : Db)
      → serialize_mutation budget.space_id db ≡ ok (space, db')
      → IsStarted budget db db'
  unfolding serialize_mutation
  serialize_ok budget space db db' h =
      let p = space_filter budget.space_id in
      let f : Space → Space = λ s. record s { mutation_version = s.mutation_version + 1 } in
      let written : Db = record db { spaces = m.update_one p f db.spaces } in
      let (found, same) =
        or_raise_ok (Option.map f (m.find_one p db.spaces)) (not_found space_not_found) written db'
          space h in
      let (x, hit, same_x) = mapped f (m.find_one p db.spaces) space found in
      record { was = x; live = sym (m.find_one_law p db.spaces) ∙ hit; touched = same }

  -- Work that is done: somebody who may do it, on the space in its new version.
  pub record IsDone {A : Type 0} (budget : BudgetContext) (actor_id : ObjectId) (work : Action A)
      (o : Option SpacePermission) (a : A) (db db' : Db) : Type 0 where
    pub start : Db
    pub started : IsStarted budget db start
    pub space : Space
    pub may : MayWork budget.space_id actor_id space start o
    pub done : work start ≡ ok (a, db')

  execute_ok :
      {A : Type 0} (budget : BudgetContext) (actor_id : ObjectId) (work : Action A)
      (o : Option SpacePermission) (a : A) (db db' : Db)
      → execute budget actor_id work o db ≡ ok (a, db')
      → IsDone budget actor_id work o a db db'
  unfolding execute
  execute_ok budget actor_id work o a db db' h =
      let (s, d1, h1, k1) = bind_ok (serialize_mutation budget.space_id) _ db h in
      let (space, d2, h2, k2) = bind_ok (check_actor budget actor_id o) _ d1 k1 in
      let (same, may) = actor_ok budget actor_id o space d1 d2 h2 in
      record {
        start = d1;
        started = serialize_ok budget s db d1 h1;
        space = space;
        may = may;
        done = subst (λ z. work z ≡ ok (a, db')) same k2;
      }

  -- How an operation fails: by an exception that its work has thrown, of which other errors than
  -- HTTP exceptions are hidden; or by the driver, which may have written the finished work or not.
  pub data IsFailed {A : Type 0} (budget : BudgetContext) (actor_id : ObjectId) (work : Action A)
      (o : Option SpacePermission) (e : Exception) (db db' : Db) : Type 0 where
    thrown :
        (cause : Exception)
        → execute budget actor_id work o db ≡ err cause
        → e ≡ hide_error cause
        → db' ≡ db
        → IsFailed budget actor_id work o e db db'
    abandoned :
        e ≡ service_unavailable operation_failed
        → db' ≡ db
        → IsFailed budget actor_id work o e db db'
    unknown :
        (a : A)
        → e ≡ service_unavailable operation_failed
        → IsDone budget actor_id work o a db db'
        → IsFailed budget actor_id work o e db db'

  -- The outcomes of an operation.
  pub record IsAtomic {A : Type 0} (budget : BudgetContext) (actor_id : ObjectId) (work : Action A)
      (o : Option SpacePermission) (r : Result A) (db db' : Db) : Type 0 where
    pub committed : (a : A) → r ≡ ok a → IsDone budget actor_id work o a db db'
    pub failed :
        (e : Exception) → r ≡ err e → (is_http e ≡ true) × IsFailed budget actor_id work o e db db'

  failure :
      {A : Type 0} (budget : BudgetContext) (actor_id : ObjectId) (work : Action A)
      (o : Option SpacePermission) (cause e : Exception) (db db' : Db)
      → hide_error cause ≡ e
      → Failure (execute budget actor_id work o) db db' cause
      → IsFailed budget actor_id work o e db db'
  unfolding hide_error
  failure budget actor_id work o cause e db db' q (rolled_back h same) = thrown cause h (sym q) same
  failure budget actor_id work o cause e db db' q (gave_up own same) =
      abandoned (sym q ∙ ap hide_error own) same
  failure budget actor_id work o cause e db db' q (unknown_commit a own h) =
      unknown a (sym q ∙ ap hide_error own) (execute_ok budget actor_id work o a db db' h)

  outcome :
      {A : Type 0} ⦃t : Transactions⦄ (budget : BudgetContext) (actor_id : ObjectId)
      (work : Action A) (o : Option SpacePermission) (r : Result A) (db db' : Db)
      → t.with_transaction (execute budget actor_id work o) db ≡ (r, db')
      → IsAtomic budget actor_id work o
          (elim r as (λ x. Result A) [ ok a ↦ ok a | err e ↦ err (hide_error e) ])
          db
          db'
  outcome ⦃t⦄ budget actor_id work o (ok a) db db' h = record {
    committed = λ b q. execute_ok budget actor_id work o b db db' (
        t.commits (execute budget actor_id work o) db db' a h
        ∙ ap (λ x. ok (x, db')) (ok_eq a b q));
    failed = λ e q. cc;
  }
  outcome ⦃t⦄ budget actor_id work o (err e) db db' h = record {
    committed = λ b q. cc;
    failed = λ e' q.
        let hidden = err_eq (hide_error e) e' q in
        (
          ap is_http (sym hidden) ∙ hidden_is_http e,
          failure budget actor_id work o e e' db db' hidden
              (t.throws (execute budget actor_id work o) db db' e h),
        );
  }

  pub run-IsAtomic :
      {A : Type 0} ⦃t : Transactions⦄ (budget : BudgetContext) (actor_id : ObjectId)
      (work : Action A) (o : Option SpacePermission) (r : Result A) (db db' : Db)
      → run budget actor_id work o db ≡ (r, db')
      → IsAtomic budget actor_id work o r db db'
  unfolding run
  run-IsAtomic ⦃t⦄ budget actor_id work o r db db' h =
      let out = t.with_transaction (execute budget actor_id work o) db in
      subst (λ z. IsAtomic budget actor_id work o z.0 db z.1) h
        (outcome budget actor_id work o out.0 db out.1 refl)
