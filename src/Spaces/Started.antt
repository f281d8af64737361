-- ===== src/Spaces/Started.antt =====
-- What has happened when the work of an operation on a space begins, and the steps that several
-- operations share (src/modules/spaces/spaces.service.ts, `mutate` and `resetPermissions`).
use mathlib.Core.Path.{subst}
use babki_back.Prelude.{◌≡◌, true, false, not, sym, ap, ◌∙◌, Bool, some, is_some, ◌==◌}
use babki_back.Mongo.{Mongo, first}
use babki_back.Http.{ok, not_found, forbidden, member_not_found, space_owner_required}
use babki_back.Schemas.{Db, ObjectId, Space, SpacePermissions, SpaceMembership}
use babki_back.Budget.{space_budget}
use babki_back.Access.{
  effective_permissions, space_filter, member_filter, serialize_mutation, require_member,
  require_owner,
}
use babki_back.Access.Permits.{member_ok, not-false}
use babki_back.Access.Atomic.{IsStarted, serialize_ok}
use babki_back.Spaces.{no_permissions, set_permissions}
use babki_back.Spaces.Actions.{mutation, reset_permissions, save_permissions}
use babki_back.Session.{Action, raise_if, or_raise}
use babki_back.Session.Inversion.{bind_ok, raise_if_ok, or_raise_ok, pure_ok}

module _ ⦃m : Mongo⦄ where
  pub owner_ok :
      (space_id user_id : ObjectId) (space : Space) (db db' : Db)
      → require_owner space_id user_id db ≡ ok (space, db')
      → (db' ≡ db)
        × (first (space_filter space_id) db.spaces ≡ some space)
        × (is_some (first (member_filter space_id user_id) db.memberships) ≡ true)
        × ((space.owner_id == user_id) ≡ true)
  unfolding require_owner
  owner_ok space_id user_id space db db' h =
      let (s, d1, h1, k1) = bind_ok (require_member space_id user_id) _ db h in
      let (e1, live, joined) = member_ok space_id user_id s db d1 h1 in
      let refused = not (s.owner_id == user_id) in
      let (u2, d2, h2, k2) = bind_ok (raise_if refused (forbidden space_owner_required)) _ d1 k1 in
      let (owns, e2) = raise_if_ok refused _ d1 d2 h2 in
      let (same, same_db) = pure_ok s space d2 db' k2 in
      (
        sym same_db ∙ e2 ∙ e1,
        live ∙ ap some same,
        joined,
        ap (λ (z : Space). z.owner_id == user_id) (sym same) ∙ not-false _ owns,
      )

  -- The work begins in the state `start`: the space has a new version, the user is a member, and
  -- the owner if only the owner may do the work.
  pub record Begins (user_id space_id : ObjectId) (owner_only : Bool) (db : Db) : Type 0 where
    pub start : Db
    pub started : IsStarted (space_budget space_id) db start
    pub space : Space
    pub live : first (space_filter space_id) start.spaces ≡ some space
    pub joined : is_some (first (member_filter space_id user_id) start.memberships) ≡ true
    pub owns : owner_only ≡ true → (space.owner_id == user_id) ≡ true

  pub mutation_ok :
      {A : Type 0} (user_id space_id : ObjectId) (owner_only : Bool) (callback : Space → Action A)
      (a : A) (db db' : Db)
      → mutation user_id space_id owner_only callback db ≡ ok (a, db')
      → (b : Begins user_id space_id owner_only db) × (callback b.space b.start ≡ ok (a, db'))
  unfolding mutation
  mutation_ok user_id space_id true callback a db db' h =
      let (s, d1, h1, k1) = bind_ok (serialize_mutation space_id) _ db h in
      let (space, d2, h2, k2) = bind_ok (require_owner space_id user_id) _ d1 k1 in
      let (same, live, joined, owns) = owner_ok space_id user_id space d1 d2 h2 in
      (
        record {
          start = d1;
          started = serialize_ok (space_budget space_id) s db d1 h1;
          space = space;
          live = live;
          joined = joined;
          owns = λ e. owns;
        },
        subst (λ z. callback space z ≡ ok (a, db')) same k2,
      )
  mutation_ok user_id space_id false callback a db db' h =
      let (s, d1, h1, k1) = bind_ok (serialize_mutation space_id) _ db h in
      let (space, d2, h2, k2) = bind_ok (require_member space_id user_id) _ d1 k1 in
      let (same, live, joined) = member_ok space_id user_id space d1 d2 h2 in
      (
        record {
          start = d1;
          started = serialize_ok (space_budget space_id) s db d1 h1;
          space = space;
          live = live;
          joined = joined;
          owns = λ e. cc;
        },
        subst (λ z. callback space z ≡ ok (a, db')) same k2,
      )

  -- The member is found, and loses every granted permission.
  pub record IsReset (space_id user_id : ObjectId) (p : SpacePermissions) (db db' : Db)
      : Type 0 where
    pub member : SpaceMembership
    pub joined : first (member_filter space_id user_id) db.memberships ≡ some member
    pub before : p ≡ effective_permissions false member.permissions
    pub after : db' ≡ record db {
      memberships =
          m.update_one
            (λ x. x.id == member.id)
            (set_permissions (effective_permissions false no_permissions))
            db.memberships;
    }

  pub IsReset-ok :
      (space_id user_id : ObjectId) (p : SpacePermissions) (db db' : Db)
      → reset_permissions space_id user_id db ≡ ok (p, db')
      → IsReset space_id user_id p db db'
  unfolding reset_permissions save_permissions
  IsReset-ok space_id user_id p db db' h =
      let q = member_filter space_id user_id in
      let (x, d1, h1, k1) =
        bind_ok (or_raise (m.find_one q db.memberships) (not_found member_not_found)) _ db h in
      let (found, e1) = or_raise_ok (m.find_one q db.memberships) _ db d1 x h1 in
      let written : Db → Db = λ z. record z {
        memberships =
            m.update_one (λ y. y.id == x.id)
              (set_permissions (effective_permissions false no_permissions)) z.memberships;
      } in
      let (same, same_db) =
        pure_ok (effective_permissions false x.permissions) p (written d1) db' k1 in
      record {
        member = x;
        joined = sym (m.find_one_law q db.memberships) ∙ found;
        before = sym same;
        after = sym same_db ∙ ap written e1;
      }
