-- ===== src/Access/Permits.antt =====
-- The permission check, against what it promises
-- (src/modules/spaces/spaces-access.service.ts, src/modules/spaces/space-permissions.ts).
use mathlib.Core.Path.{subst}
use babki_back.Prelude.{
  ◌≡◌, ◌↔◌, ◌⊎◌, sym, ap, ◌∙◌, Bool, true, false, not, none, some, ◌==◌, arith, is_some,
}
use babki_back.Mongo.{Mongo, first}
use babki_back.Mongo.Lookup.{first_matches}
use babki_back.Http.{ok, not_found, space_not_found, forbidden, space_permission_required}
use babki_back.Schemas.{Db, ObjectId, Space, SpaceMembership, SpacePermissions, MembershipStatus}
use babki_back.Access.{
  SpacePermission, accounts, categories, limits, transactions, has_permission,
  effective_permissions, space_filter, member_filter, is_active, require_member, member_context,
  require_permission,
}
use babki_back.Session.{raise_if, or_raise}
use babki_back.Session.Inversion.{bind_ok, raise_if_ok, or_raise_ok, pure_ok}

pub not-false : (b : Bool) → not b ≡ false → b ≡ true
not-false b h = ground arith

-- The owner has every permission, and every other member those that are granted.
allowed_iff :
    (owner user : ObjectId) (p : SpacePermissions) (k : SpacePermission)
    → (has_permission (effective_permissions (owner == user) p) k ≡ true)
      ↔ ((owner ≡ user) ⊎ (has_permission p k ≡ true))
unfolding has_permission effective_permissions
allowed_iff owner user p accounts = (λ h. ground arith, λ h. ground arith)
allowed_iff owner user p categories = (λ h. ground arith, λ h. ground arith)
allowed_iff owner user p limits = (λ h. ground arith, λ h. ground arith)
allowed_iff owner user p transactions = (λ h. ground arith, λ h. ground arith)

-- The space is not deleted, the user is an active member of it, and its owner or granted the
-- permission.
pub record IsPermitted (space_id user_id : ObjectId) (k : SpacePermission) (space : Space) (db : Db)
    : Type 0 where
  pub live : first (space_filter space_id) db.spaces ≡ some space
  pub membership : SpaceMembership
  pub joined : first (member_filter space_id user_id) db.memberships ≡ some membership
  pub space_facts : (space.id ≡ space_id) × (space.deleted_at ≡ none)
  pub member_facts :
      (membership.space_id ≡ space_id)
      × (membership.user_id ≡ user_id)
      × (membership.status ≡ MembershipStatus.active)
  pub allowed : (space.owner_id ≡ user_id) ⊎ (has_permission membership.permissions k ≡ true)

pub space_filter-true :
    (space_id : ObjectId) (s : Space)
    → space_filter space_id s ≡ true
    → (s.id ≡ space_id) × (s.deleted_at ≡ none)
unfolding space_filter
space_filter-true space_id s h = (ground arith, ground arith)

pub member_filter-true :
    (space_id user_id : ObjectId) (s : SpaceMembership)
    → member_filter space_id user_id s ≡ true
    → (s.space_id ≡ space_id) × (s.user_id ≡ user_id) × (s.status ≡ MembershipStatus.active)
unfolding member_filter is_active
member_filter-true space_id user_id s h = (ground arith, ground arith, ground arith)

module _ ⦃m : Mongo⦄ where
  pub member_ok :
      (space_id user_id : ObjectId) (space : Space) (db db' : Db)
      → require_member space_id user_id db ≡ ok (space, db')
      → (db' ≡ db)
        × (first (space_filter space_id) db.spaces ≡ some space)
        × (is_some (first (member_filter space_id user_id) db.memberships) ≡ true)
  unfolding require_member
  member_ok space_id user_id space db db' h =
      let (s, d1, h1, k1) =
        bind_ok
          (or_raise (m.find_one (space_filter space_id) db.spaces) (not_found space_not_found)) _ db
          h in
      let (found, e1) = or_raise_ok _ _ db d1 s h1 in
      let missing = not (is_some (m.find_one (member_filter space_id user_id) d1.memberships)) in
      let (u2, d2, h2, k2) = bind_ok (raise_if missing (not_found space_not_found)) _ d1 k1 in
      let (joined, e2) = raise_if_ok missing _ d1 d2 h2 in
      let (same, same_db) = pure_ok s space d2 db' k2 in
      (
        sym same_db ∙ e2 ∙ e1,
        sym (m.find_one_law (space_filter space_id) db.spaces) ∙ found ∙ ap some same,
        ap is_some (
              sym (m.find_one_law (member_filter space_id user_id) db.memberships)
              ∙ ap (λ (z : Db). m.find_one (member_filter space_id user_id) z.memberships) (sym e1))
            ∙ not-false _ joined,
      )

  pub IsPermitted-of_ok :
      (space_id user_id : ObjectId) (k : SpacePermission) (space : Space) (db db' : Db)
      → require_permission space_id user_id k db ≡ ok (space, db')
      → (db' ≡ db) × IsPermitted space_id user_id k space db
  unfolding require_permission member_context
  IsPermitted-of_ok space_id user_id k space db db' h =
      let ((s, p), d1, h1, k1) = bind_ok (member_context space_id user_id) _ db h in
      let (s', d2, h2, k2) = bind_ok (require_member space_id user_id) _ db h1 in
      let (e2, live, joined₁) = member_ok space_id user_id s' db d2 h2 in
      let q = member_filter space_id user_id in
      let (ms, d3, h3, k3) =
        bind_ok (or_raise (m.find_one q d2.memberships) (not_found space_not_found)) _ d2 k2 in
      let (joined, e3) = or_raise_ok _ _ d2 d3 ms h3 in
      let (pair, same₁) =
        pure_ok (s', effective_permissions (s'.owner_id == user_id) ms.permissions) (s, p) d3 d1
          k3 in
      let refused = not (has_permission p k) in
      let (u4, d4, h4, k4) =
        bind_ok (raise_if refused (forbidden space_permission_required)) _ d1 k1 in
      let (granted, e4) = raise_if_ok refused _ d1 d4 h4 in
      let (same, same_db) = pure_ok s space d4 db' k4 in
      let first_eq = ap (λ (z : Space × SpacePermissions). z.0) pair in
      let second_eq = ap (λ (z : Space × SpacePermissions). z.1) pair in
      let has : has_permission (effective_permissions (s'.owner_id == user_id) ms.permissions) k
          ≡ true =
        ap (λ z. has_permission z k) second_eq ∙ not-false _ granted in
      let to_space = first_eq ∙ same in
      let joined_first =
        sym (m.find_one_law q db.memberships)
        ∙ ap (λ (z : Db). m.find_one q z.memberships) (sym e2)
        ∙ joined in
      (
        sym same_db ∙ e4 ∙ sym same₁ ∙ e3 ∙ e2,
        record {
          live = live ∙ ap some to_space;
          membership = ms;
          joined = joined_first;
          space_facts =
              space_filter-true space_id space
                (first_matches _ db.spaces space (live ∙ ap some to_space));
          member_facts =
              member_filter-true space_id user_id ms
                (first_matches q db.memberships ms joined_first);
          allowed =
              subst
                (λ (z : Space). (z.owner_id ≡ user_id) ⊎ (has_permission ms.permissions k ≡ true))
                to_space ((allowed_iff s'.owner_id user_id ms.permissions k).0 has);
        },
      )

  ok_of_permitted :
      (space_id user_id : ObjectId) (k : SpacePermission) (space : Space) (db : Db)
      → IsPermitted space_id user_id k space db
      → require_permission space_id user_id k db ≡ ok (space, db)
  unfolding require_permission member_context require_member
  ok_of_permitted space_id user_id k space db p =
      let spaces_eq = m.find_one_law (space_filter space_id) db.spaces ∙ p.live in
      let members_eq = m.find_one_law (member_filter space_id user_id) db.memberships ∙ p.joined in
      let granted = (allowed_iff space.owner_id user_id p.membership.permissions k).1 p.allowed in
      ground arith

  -- The permission check lets through exactly who is permitted: an active member of a space that is
  -- not deleted, who owns it or is granted the permission. It changes nothing.
  pub require_permission-IsPermitted :
      (space_id user_id : ObjectId) (k : SpacePermission) (space : Space) (db db' : Db)
      → (require_permission space_id user_id k db ≡ ok (space, db'))
        ↔ ((db' ≡ db) × IsPermitted space_id user_id k space db)
  require_permission-IsPermitted space_id user_id k space db db' = (
    IsPermitted-of_ok space_id user_id k space db db',
    λ h. ok_of_permitted space_id user_id k space db h.1 ∙ ap (λ z. ok (space, z)) (sym h.0),
  )
