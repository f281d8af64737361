-- ===== src/Finances/Authorised.antt =====
-- Who changes the expenses and incomes of a space
-- (src/modules/space-finances/space-transactions.service.ts, `change`).
use mathlib.Core.Path.{subst}
use babki_back.Prelude.{
  ◌≡◌, ◌⊎◌, ◌≢◌, inl, inr, refl, true, false, not, Option, none, some, is_some, Bool-cases,
  if◌then◌else◌,
}
use babki_back.Money.{Intl}
use babki_back.Dates.{Date}
use babki_back.Mongo.{Mongo, first}
use babki_back.Http.{
  service_unavailable, operation_failed, Exception, Result, ok, err, is_http, bad_request,
  empty_update, forbidden, reassignment_not_permitted,
}
use babki_back.Schemas.{Db, ObjectId, Transaction}
use babki_back.Budget.{space_budget}
use babki_back.Access.{Transactions, member_filter, require_member, run}
use babki_back.Access.Permits.{member_ok, not-false}
use babki_back.Access.Atomic.{thrown, abandoned, unknown, IsStarted, run-IsAtomic}
use babki_back.Finances.{WithActors, participant_of}
use babki_back.Finances.Entries.{
  Kind, UpdateEntry, Permit, takes_part, is_empty_update, check_change, new_participant, reassign,
  update_entry, update, remove_entry, remove,
}
use babki_back.Finances.Rights.{IsTrusted, IsAuthorised, takes_part_iff, check_change-IsAuthorised}
use babki_back.Session.{Action, pure, raise_if}
use babki_back.Session.Inversion.{bind_ok, raise_if_ok}

not_participant :
    (u : ObjectId) (row : Transaction)
    → participant_of row.detail ≢ some u
    → takes_part u row ≡ false
not_participant u row h = elim (Bool-cases (takes_part u row)) [
  | inl t ↦ elim (h ((takes_part_iff u row).0 t)) [ ]
  | inr f ↦ f
]

module _ ⦃m : Mongo⦄ ⦃intl : Intl⦄ where
  reassigned :
      (sid u : ObjectId) (permit : Permit) (r : Option ObjectId) (db db' : Db)
      → new_participant sid permit (some u) db ≡ ok (r, db')
      → participant_of permit.row.detail ≢ some u
      → (permit.may_reassign ≡ true) × (is_some (first (member_filter sid u) db.memberships) ≡ true)
  unfolding new_participant reassign
  reassigned sid u permit r db db' h other =
      let run : reassign sid permit u db ≡ ok (r, db') =
        subst (λ b. (if b then pure none else reassign sid permit u) db ≡ ok (r, db'))
          (not_participant u permit.row other) h in
      let refused = not permit.may_reassign in
      let (x, d1, h1, k1) =
        bind_ok (raise_if refused (forbidden reassignment_not_permitted)) _ db run in
      let (granted, e1) = raise_if_ok refused _ db d1 h1 in
      let (space, d2, h2, k2) = bind_ok (require_member sid u) _ d1 k1 in
      let (e2, live, joined) = member_ok sid u space d1 d2 h2 in
      (
        not-false permit.may_reassign granted,
        subst (λ (z : Db). is_some (first (member_filter sid u) z.memberships) ≡ true) e1 joined,
      )

  -- An update that is done: its row is one that the actor may change, and who is named as the new
  -- participant is an active member, named by somebody who is trusted with the row.
  pub record IsEntryUpdate (sid actor id : ObjectId) (kind : Kind) (dto : UpdateEntry) (db : Db)
      : Type 0 where
    pub permit : Permit
    pub authorised : IsAuthorised sid actor id kind permit db
    pub passed_on :
        (u : ObjectId)
        → dto.participant_id ≡ some u
        → participant_of permit.row.detail ≢ some u
        → IsTrusted actor permit.row authorised.space authorised.membership
          × (is_some (first (member_filter sid u) db.memberships) ≡ true)

  update_entry_ok :
      (sid actor id : ObjectId) (kind : Kind) (dto : UpdateEntry) (db db' : Db)
      (shown : WithActors Transaction)
      → update_entry sid actor id kind dto db ≡ ok (shown, db')
      → IsEntryUpdate sid actor id kind dto db
  unfolding update_entry
  update_entry_ok sid actor id kind dto db db' shown h =
      let (permit, d1, h1, k1) = bind_ok (check_change sid actor id kind) _ db h in
      let (e1, facts) = check_change-IsAuthorised sid actor id kind permit db d1 h1 in
      let (r, d2, h2, k2) = bind_ok (new_participant sid permit dto.participant_id) _ d1 k1 in
      record {
        permit = permit;
        authorised = facts;
        passed_on = λ u named other.
            let (granted, member) =
              reassigned sid u permit r d1 d2
                (subst (λ o. new_participant sid permit o d1 ≡ ok (r, d2)) named h2) other in
            (
              facts.trusted granted,
              subst (λ (z : Db). is_some (first (member_filter sid u) z.memberships) ≡ true) e1
                  member,
            );
      }

  remove_entry_ok :
      (sid actor : ObjectId) (now : Date) (id : ObjectId) (kind : Kind) (db db' : Db)
      (row : Transaction)
      → remove_entry sid actor now id kind db ≡ ok (row, db')
      → (permit : Permit) × IsAuthorised sid actor id kind permit db
  unfolding remove_entry
  remove_entry_ok sid actor now id kind db db' row h =
      let (permit, d1, h1, k1) = bind_ok (check_change sid actor id kind) _ db h in
      (permit, (check_change-IsAuthorised sid actor id kind permit db d1 h1).1)

  -- What an outcome tells: the work was done in a state that began like the old one and where what
  -- is asked for holds, or the exception is an HTTP exception and nothing is written, unless the
  -- commit itself has failed after it was applied.
  pub record IsGuarded {A : Type 0} (sid : ObjectId) (allowed : Db → Type 0) (r : Result A)
      (db db' : Db) : Type 0 where
    pub done :
        (a : A) → r ≡ ok a → (start : Db) × IsStarted (space_budget sid) db start × allowed start
    pub refused :
        (e : Exception)
        → r ≡ err e
        → (is_http e ≡ true)
          × ((db' ≡ db)
              ⊎ ((e ≡ service_unavailable operation_failed)
                  × (start : Db) × IsStarted (space_budget sid) db start
                  × allowed start))

  IsGuarded-run :
      {A : Type 0} ⦃t : Transactions⦄ (sid actor : ObjectId) (work : Action A)
      (allowed : Db → Type 0) (r : Result A) (db db' : Db)
      → ((start end : Db) (a : A) → work start ≡ ok (a, end) → allowed start)
      → run (space_budget sid) actor work none db ≡ (r, db')
      → IsGuarded sid allowed r db db'
  IsGuarded-run sid actor work allowed r db db' gives h =
      let atomic = run-IsAtomic (space_budget sid) actor work none r db db' h in
      record {
        done =
            λ a q. let d = atomic.committed a q in (d.start, d.started, gives d.start db' a d.done);
        refused = λ e q.
            let (http, failed) = atomic.failed e q in
            (
              http,
              elim failed [
                | thrown cause h hidden same ↦ inl same
                | abandoned own same ↦ inl same
                | unknown a own d ↦ inr (own, d.start, d.started, gives d.start db' a d.done)
              ],
            );
      }

  IsGuarded-early :
      {A : Type 0} (sid : ObjectId) (allowed : Db → Type 0) (e : Exception) (r : Result A)
      (db db' : Db)
      → is_http e ≡ true
      → ◌≡◌ {A = Result A × Db} (err e, db) (r, db')
      → IsGuarded sid allowed r db db'
  IsGuarded-early {A} sid allowed e r db db' http h =
      subst (λ (z : Result A × Db). IsGuarded sid allowed z.0 db z.1) h
        (record { done = λ a q. cc; refused = λ e' q. (cc, inl refl) })

  -- An expense or an income is updated by an active member of the space who owns it, wrote the row,
  -- may manage transactions or takes part in the row; an income of a debt is not updated; and the
  -- participant changes only to another active member, and not by a member who merely takes part.
  -- An update that fails throws an HTTP exception and writes nothing, unless the driver has failed
  -- at a commit that it applied, of an update that was allowed.
  pub update-IsGuarded :
      ⦃t : Transactions⦄ (sid actor id : ObjectId) (kind : Kind) (dto : UpdateEntry)
      (r : Result (WithActors Transaction)) (db db' : Db)
      → update sid actor id kind dto db ≡ (r, db')
      → IsGuarded sid (IsEntryUpdate sid actor id kind dto) r db db'
  unfolding update
  update-IsGuarded sid actor id kind dto r db db' h = elim (Bool-cases (is_empty_update dto)) [
    | inl e ↦ IsGuarded-early sid _ (bad_request empty_update) r db db' refl (
        subst
          (λ b.
            (if b
              then (err (bad_request empty_update), db)
              else run (space_budget sid) actor (update_entry sid actor id kind dto) none db)
            ≡ (r, db'))
          e h)
    | inr e ↦
        IsGuarded-run sid actor (update_entry sid actor id kind dto) _ r db db'
          (λ start end a q. update_entry_ok sid actor id kind dto start end a q)
          (subst
            (λ b.
              (if b
                then (err (bad_request empty_update), db)
                else run (space_budget sid) actor (update_entry sid actor id kind dto) none db)
              ≡ (r, db'))
            e h)
  ]

  -- An expense or an income is deleted by an active member of the space who owns it, wrote the row,
  -- may manage transactions or takes part in the row, and an income of a debt is not deleted. A
  -- deletion that fails throws an HTTP exception and writes nothing, unless the driver has failed at
  -- a commit that it applied, of a deletion that was allowed.
  pub remove-IsGuarded :
      ⦃t : Transactions⦄ (sid actor : ObjectId) (now : Date) (id : ObjectId) (kind : Kind)
      (r : Result Transaction) (db db' : Db)
      → remove sid actor now id kind db ≡ (r, db')
      → IsGuarded sid
          (λ start. (permit : Permit) × IsAuthorised sid actor id kind permit start)
          r
          db
          db'
  unfolding remove
  remove-IsGuarded sid actor now id kind r db db' h =
      IsGuarded-run sid actor (remove_entry sid actor now id kind) _ r db db'
        (λ start end a q. remove_entry_ok sid actor now id kind start end a q) h
