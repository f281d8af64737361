-- ===== src/Finances/Rights.antt =====
-- Who may change the expenses and incomes of a space
-- (src/modules/space-finances/space-transactions.service.ts, `change`).
use mathlib.Core.Path.{subst}
use babki_back.Prelude.{
  ◌≡◌, ◌⊎◌, inl, inr, ◌↔◌, sym, refl, ap, ◌∙◌, Bool, true, false, ◌&&◌, ◌||◌, not, some, ◌==◌,
  ==_iff, arith,
}
use babki_back.Money.{Intl}
use babki_back.Mongo.{Mongo, first}
use babki_back.Http.{
  ok, forbidden, conflict, not_found, other_error, mutation_not_permitted, debt_income_locked,
  space_not_found, transaction_not_found, account_not_found,
}
use babki_back.Schemas.{
  Db, ObjectId, Account, Transaction, Space, SpaceMembership, SpacePermissions,
}
use babki_back.Budget.{space_budget}
use babki_back.Access.{
  space_filter, member_filter, effective_permissions, require_member, member_context,
}
use babki_back.Access.Permits.{member_ok, not-false}
use babki_back.Transactions.Defs.{
  transaction_filter, find_one_for_budget, account_for_budget, account_filter, posting_of,
}
use babki_back.Finances.{participant_of}
use babki_back.Finances.Entries.{
  Kind, type_of, Permit, takes_part, is_from_debt, is_income_kind, check_change,
}
use babki_back.Session.{raise_if, or_raise}
use babki_back.Session.Inversion.{bind_ok, raise_if_ok, or_raise_ok, pure_ok}

-- The owner of the space, the author of the row, or a member who may manage transactions.
pub data IsTrusted (actor : ObjectId) (row : Transaction) (space : Space)
    (membership : SpaceMembership) : Type 0 where
  as_owner : space.owner_id ≡ actor → IsTrusted actor row space membership
  as_author : row.created_by ≡ actor → IsTrusted actor row space membership
  as_manager :
      membership.permissions.manage_transactions ≡ true → IsTrusted actor row space membership

any_of : (a b c : Bool) → (a || b || (a || c)) ≡ true → (a ≡ true) ⊎ ((b ≡ true) ⊎ (c ≡ true))
any_of true b c h = inl refl
any_of false true c h = inr (inl refl)
any_of false false true h = inr (inr refl)
any_of false false false h = inl h

IsTrusted-of :
    (actor : ObjectId) (row : Transaction) (space : Space) (x : SpaceMembership)
    → (space.owner_id == actor
        || row.created_by == actor
        || (effective_permissions (space.owner_id == actor) x.permissions).manage_transactions)
      ≡ true
    → IsTrusted actor row space x
unfolding effective_permissions
IsTrusted-of actor row space x h =
    elim (any_of (space.owner_id == actor) (row.created_by == actor)
      x.permissions.manage_transactions h) [
        | inl e ↦ as_owner ((==_iff space.owner_id actor).0 e)
        | inr (inl e) ↦ as_author ((==_iff row.created_by actor).0 e)
        | inr (inr e) ↦ as_manager e
      ]

pub takes_part_iff :
    (id : ObjectId) (row : Transaction)
    → (takes_part id row ≡ true) ↔ (participant_of row.detail ≡ some id)
unfolding takes_part
takes_part_iff id row = (λ h. ground arith, λ h. ground arith)

refused_or :
    (trusted part : Bool) → (not trusted && not part) ≡ false → (trusted ≡ true) ⊎ (part ≡ true)
refused_or true part h = inl refl
refused_or false part h = inr (not-false part h)

module _ ⦃m : Mongo⦄ where
  member_context_ok :
      (sid user : ObjectId) (space : Space) (p : SpacePermissions) (db db' : Db)
      → member_context sid user db ≡ ok ((space, p), db')
      → (db' ≡ db)
        × (first (space_filter sid) db.spaces ≡ some space)
        × (x : SpaceMembership) × (first (member_filter sid user) db.memberships ≡ some x)
        × (p ≡ effective_permissions (space.owner_id == user) x.permissions)
  unfolding member_context
  member_context_ok sid user space p db db' h =
      let (s, d1, h1, k1) = bind_ok (require_member sid user) _ db h in
      let (e1, live, joined₁) = member_ok sid user s db d1 h1 in
      let q = member_filter sid user in
      let (x, d2, h2, k2) =
        bind_ok (or_raise (m.find_one q d1.memberships) (not_found space_not_found)) _ d1 k1 in
      let (joined, e2) = or_raise_ok _ _ d1 d2 x h2 in
      let (pair, same) =
        pure_ok (s, effective_permissions (s.owner_id == user) x.permissions) (space, p) d2 db'
          k2 in
      let s_eq = ap (λ (z : Space × SpacePermissions). z.0) pair in
      (
        sym same ∙ e2 ∙ e1,
        live ∙ ap some s_eq,
        x,
        sym (m.find_one_law q db.memberships)
            ∙ ap (λ (z : Db). m.find_one q z.memberships) (sym e1)
            ∙ joined,
        sym (ap (λ (z : Space × SpacePermissions). z.1) pair)
            ∙ ap (λ (z : Space). effective_permissions (z.owner_id == user) x.permissions) s_eq,
      )

-- The row is there, the actor is an active member of the space, who may be trusted with the row or
-- takes part in it, and the row is no income of a debt.
pub record IsAuthorised (sid actor id : ObjectId) (kind : Kind) (permit : Permit) (db : Db)
    : Type 0 where
  pub found :
      first (transaction_filter (space_budget sid) id (some (type_of kind))) db.transactions
      ≡ some permit.row
  pub space : Space
  pub live : first (space_filter sid) db.spaces ≡ some space
  pub membership : SpaceMembership
  pub joined : first (member_filter sid actor) db.memberships ≡ some membership
  pub right :
      IsTrusted actor permit.row space membership ⊎ (participant_of permit.row.detail ≡ some actor)
  pub trusted : permit.may_reassign ≡ true → IsTrusted actor permit.row space membership
  pub unlocked : is_income_kind kind ≡ true → is_from_debt permit.row.origin ≡ false

module _ ⦃m : Mongo⦄ ⦃intl : Intl⦄ where
  find_entry_ok :
      (sid id : ObjectId) (kind : Kind) (row : Transaction) (db db' : Db)
      → find_one_for_budget (space_budget sid) id (some (type_of kind)) db ≡ ok (row, db')
      → (db' ≡ db)
        × (first (transaction_filter (space_budget sid) id (some (type_of kind))) db.transactions
            ≡ some row)
  unfolding find_one_for_budget
  find_entry_ok sid id kind row db db' h =
      let p = transaction_filter (space_budget sid) id (some (type_of kind)) in
      let (found, e) =
        or_raise_ok (m.find_one p db.transactions) (not_found transaction_not_found) db db' row h in
      (e, sym (m.find_one_law p db.transactions) ∙ found)

  account_ok :
      (sid id : ObjectId) (account : Account) (db db' : Db)
      → account_for_budget (space_budget sid) id db ≡ ok (account, db')
      → db' ≡ db
  unfolding account_for_budget
  account_ok sid id account db db' h =
      (or_raise_ok (m.find_one (account_filter (space_budget sid) id) db.accounts)
        (not_found account_not_found) db db' account h).1

  pub check_change-IsAuthorised :
      (sid actor id : ObjectId) (kind : Kind) (permit : Permit) (db db' : Db)
      → check_change sid actor id kind db ≡ ok (permit, db')
      → (db' ≡ db) × IsAuthorised sid actor id kind permit db
  unfolding check_change
  check_change-IsAuthorised sid actor id kind permit db db' h =
      let (row, d1, h1, k1) =
        bind_ok (find_one_for_budget (space_budget sid) id (some (type_of kind))) _ db h in
      let (e1, found) = find_entry_ok sid id kind row db d1 h1 in
      let ((space, ps), d2, h2, k2) = bind_ok (member_context sid actor) _ d1 k1 in
      let (e2, live, x, joined, ps_eq) = member_context_ok sid actor space ps d1 d2 h2 in
      let trusted = space.owner_id == actor || row.created_by == actor || ps.manage_transactions in
      let refused = not trusted && not (takes_part actor row) in
      let (u3, d3, h3, k3) =
        bind_ok (raise_if refused (forbidden mutation_not_permitted)) _ d2 k2 in
      let (allowed, e3) = raise_if_ok refused _ d2 d3 h3 in
      let (p, d4, h4, k4) = bind_ok (or_raise (posting_of row.detail) other_error) _ d3 k3 in
      let (posted, e4) = or_raise_ok _ _ d3 d4 p h4 in
      let (account, d5, h5, k5) =
        bind_ok (account_for_budget (space_budget sid) p.account_id) _ d4 k4 in
      let e5 = account_ok sid p.account_id account d4 d5 h5 in
      let locked = is_income_kind kind && is_from_debt row.origin in
      let (u6, d6, h6, k6) = bind_ok (raise_if locked (conflict debt_income_locked)) _ d5 k5 in
      let (free, e6) = raise_if_ok locked _ d5 d6 h6 in
      let made : Permit = record { row = row; account = account; may_reassign = trusted } in
      let (same, same_db) = pure_ok made permit d6 db' k6 in
      let trust : trusted ≡ true → IsTrusted actor row space x = λ t.
        IsTrusted-of actor row space x (
          ap
            (λ (z : SpacePermissions).
              space.owner_id == actor || row.created_by == actor || z.manage_transactions)
            (sym ps_eq)
          ∙ t) in
      let facts : IsAuthorised sid actor id kind made db = record {
        found = found;
        space = space;
        live = subst (λ (z : Db). first (space_filter sid) z.spaces ≡ some space) e1 live;
        membership = x;
        joined =
            subst (λ (z : Db). first (member_filter sid actor) z.memberships ≡ some x) e1 joined;
        right = elim (refused_or trusted (takes_part actor row) allowed) [
          | inl t ↦ inl (trust t)
          | inr t ↦ inr ((takes_part_iff actor row).0 t)
        ];
        trusted = trust;
        unlocked = λ t. subst (λ b. (b && is_from_debt row.origin) ≡ false) t free;
      } in
      (
        sym same_db ∙ e6 ∙ e5 ∙ e4 ∙ e3 ∙ e2 ∙ e1,
        subst (λ z. IsAuthorised sid actor id kind z db) same facts,
      )
