-- ===== src/Spaces/Rights.antt =====
-- What a transfer of ownership does to the rights of the two members
-- (src/modules/spaces/spaces.service.ts, `transferOwnership`).
use babki_back.Prelude.{◌≡◌, inl, inr, false, sym, refl, ap, ◌∙◌, Bool, some, ◌==◌, ==_iff, arith}
use babki_back.Dates.{Date}
use babki_back.Mongo.{Mongo, first, change_first}
use babki_back.Mongo.Lookup.{first_after, first-change_first, first-In, first_matches}
use babki_back.Http.{ok, err, forbidden, space_permission_required}
use babki_back.Schemas.{Db, ObjectId, Space, SpacePermissions, SpaceMembership}
use babki_back.Access.{effective_permissions, space_filter, member_filter}
use babki_back.Access.Permits.{space_filter-true, member_filter-true}
use babki_back.Spaces.{SpaceDto, no_permissions, set_permissions}
use babki_back.Spaces.Actions.{hand_over}
use babki_back.Spaces.Book.{IsSpaceBook, filter_same, filter_same}
use babki_back.Spaces.Started.{IsReset}
use babki_back.Spaces.Keeps.{reset-IsSpaceBook, permissions_keep}
use babki_back.Access.{
  SpacePermission, accounts, categories, limits, transactions, has_permission, require_permission,
  member_context, require_member,
}
use babki_back.Access.Permits.{require_permission-IsPermitted}
use babki_back.Mongo.Distinct.{first_by_key}
use babki_back.Mongo.Writes.{Distinct-of_Unique, first_changed}
use babki_back.Spaces.Ownership.{IsHandedOver, hand_over_ok}

abbrev stripped : SpaceMembership → SpaceMembership
stripped = set_permissions (effective_permissions false no_permissions)

-- A membership to which nothing is granted.
stripped_rights :
    (x : SpaceMembership) → (stripped x).permissions ≡ effective_permissions false no_permissions
unfolding set_permissions
stripped_rights x = refl

no_right :
    (p : SpacePermissions) (k : SpacePermission)
    → p ≡ effective_permissions false no_permissions
    → has_permission (effective_permissions false p) k ≡ false
unfolding has_permission effective_permissions no_permissions
no_right p accounts h = rw h refl
no_right p categories h = rw h refl
no_right p limits h = rw h refl
no_right p transactions h = rw h refl

same_filter :
    (s u : ObjectId) (x : SpaceMembership) → member_filter s u (stripped x) ≡ member_filter s u x
same_filter s u x = filter_same stripped s u x (permissions_keep _)

same_id : (x : SpaceMembership) → (stripped x).id ≡ x.id
unfolding set_permissions
same_id x = refl

owner_changed :
    (sid user_id : ObjectId) (s : Space)
    → space_filter sid (record s { owner_id = user_id }) ≡ space_filter sid s
unfolding space_filter
owner_changed sid user_id s = refl

module _ ⦃m : Mongo⦄ where
  lacks :
      (sid u : ObjectId) (k : SpacePermission) (space : Space) (x : SpaceMembership) (db : Db)
      → first (space_filter sid) db.spaces ≡ some space
      → first (member_filter sid u) db.memberships ≡ some x
      → (space.owner_id == u) ≡ false
      → has_permission (effective_permissions false x.permissions) k ≡ false
      → require_permission sid u k db ≡ err (forbidden space_permission_required)
  unfolding require_permission member_context require_member
  lacks sid u k space x db live joined differs n =
      let here = m.find_one_law (space_filter sid) db.spaces ∙ live in
      let mine = m.find_one_law (member_filter sid u) db.memberships ∙ joined in ground arith

  -- A reset of the member that it concerns, and of another.
  reset_mine :
      (sid u : ObjectId) (p : SpacePermissions) (db db' : Db)
      → IsSpaceBook db
      → (r : IsReset sid u p db db')
      → first (member_filter sid u) db'.memberships ≡ some (stripped r.member)
  reset_mine sid u p db db' b r =
      let q : SpaceMembership → Bool = λ x. x.id == r.member.id in
      ap (λ (z : Db). first (member_filter sid u) z.memberships) r.after
      ∙ ap (first (member_filter sid u)) (m.update_one_law q stripped db.memberships)
      ∙ first_changed (λ x. x.id) (member_filter sid u) q stripped db.memberships r.member
          b.member_ids (same_filter sid u) (λ e y. (==_iff e.id r.member.id).0 y)
          ((==_iff r.member.id r.member.id).1 refl) r.joined

  reset_other :
      (sid u v : ObjectId) (p : SpacePermissions) (x : SpaceMembership) (db db' : Db)
      → IsReset sid v p db db'
      → first (member_filter sid u) db.memberships ≡ some x
      → x.permissions ≡ effective_permissions false no_permissions
      → (y : SpaceMembership) × (first (member_filter sid u) db'.memberships ≡ some y)
        × (y.permissions ≡ effective_permissions false no_permissions)
  reset_other sid u v p x db db' r joined none_granted =
      let q : SpaceMembership → Bool = λ z. z.id == r.member.id in
      let after =
        ap (λ (z : Db). first (member_filter sid u) z.memberships) r.after
        ∙ ap (first (member_filter sid u)) (m.update_one_law q stripped db.memberships) in
      elim (first_after (member_filter sid u) q stripped db.memberships x (same_filter sid u)
        joined) [
          | inl h ↦ (x, after ∙ h, none_granted)
          | inr h ↦ (stripped x, after ∙ h, stripped_rights x)
        ]

  -- The space is the new owner's.
  owned_now :
      (actor_id sid user_id : ObjectId) (space : Space) (r : SpaceDto) (db db' : Db)
      → IsSpaceBook db
      → first (space_filter sid) db.spaces ≡ some space
      → IsHandedOver actor_id sid user_id space r db db'
      → first (space_filter sid) db'.spaces ≡ some (record space { owner_id = user_id })
  owned_now actor_id sid user_id space r db db' b live t =
      let f : Space → Space = λ s. record s { owner_id = user_id } in
      let q : Space → Bool = λ s. s.id == space.id in
      let hit = first_matches (space_filter sid) db.spaces space live in
      let mine = (space_filter-true sid space hit).0 in
      let found : first q db.spaces ≡ some space =
        first_by_key (λ s. s.id) q db.spaces space
          (Distinct-of_Unique (λ s. s.id) db.spaces b.space_ids)
          (first-In (space_filter sid) db.spaces space live) ((==_iff space.id space.id).1 refl)
          (λ e y. (==_iff e.id space.id).0 y) in
      let spaces_same : t.last.spaces ≡ db.spaces =
        ap (λ (z : Db). z.spaces) t.second_reset.after
        ∙ ap (λ (z : Db). z.spaces) t.first_reset.after in
      ap (first (space_filter sid))
        (t.spaces_after ∙ m.update_one_law q f t.last.spaces ∙ ap (change_first q f) spaces_same)
      ∙ first-change_first (space_filter sid) q f db.spaces space
          (λ e y. (==_iff e.id space.id).1 ((space_filter-true sid e y).0 ∙ sym mine))
          (owner_changed sid user_id space ∙ hit) found

  -- After a transfer of ownership the new owner has every permission and the former owner none, if
  -- what the spaces promise held before.
  pub hand_over_rights :
      (actor_id sid user_id : ObjectId) (now : Date) (space : Space) (r : SpaceDto) (db db' : Db)
      → IsSpaceBook db
      → first (space_filter sid) db.spaces ≡ some space
      → space.owner_id ≡ actor_id
      → hand_over actor_id sid user_id now space db ≡ ok (r, db')
      → (k : SpacePermission)
      → (require_permission sid user_id k db' ≡ ok (record space { owner_id = user_id }, db'))
        × (require_permission sid actor_id k db' ≡ err (forbidden space_permission_required))
  hand_over_rights actor_id sid user_id now space r db db' b live owns h k =
      let t = hand_over_ok actor_id sid user_id now space r db db' h in
      let b1 = reset-IsSpaceBook sid actor_id t.previous db t.middle t.first_reset b in
      let live' = owned_now actor_id sid user_id space r db db' b live t in
      let members : db'.memberships ≡ t.last.memberships = t.others_after.0 in
      let mine =
        ap (first (member_filter sid user_id)) members
        ∙ reset_mine sid user_id t.next t.middle t.last b1 t.second_reset in
      let (y, theirs, granted) =
        reset_other sid actor_id user_id t.next (stripped t.first_reset.member) t.middle t.last
          t.second_reset (reset_mine sid actor_id t.previous db t.middle b t.first_reset)
          (stripped_rights t.first_reset.member) in
      let differs : (user_id == actor_id) ≡ false =
        swapped user_id actor_id (ap (λ z. z == user_id) (sym owns) ∙ t.differs) in
      let hit =
        first_matches (space_filter sid) db'.spaces (record space { owner_id = user_id }) live' in
      (
        (require_permission-IsPermitted sid user_id k (record space { owner_id = user_id }) db'
              db').1
            (
              refl,
              record {
                live = live';
                membership = stripped t.second_reset.member;
                joined = mine;
                space_facts = space_filter-true sid (record space { owner_id = user_id }) hit;
                member_facts = member_filter-true sid user_id (stripped t.second_reset.member) (
                    first_matches (member_filter sid user_id) db'.memberships
                      (stripped t.second_reset.member) mine);
                allowed = inl refl;
              },
            ),
        lacks sid actor_id k (record space { owner_id = user_id }) y db' live'
            (ap (first (member_filter sid actor_id)) members ∙ theirs) differs
            (no_right y.permissions k granted),
      )
    where
      swapped : (a c : ObjectId) → (c == a) ≡ false → (a == c) ≡ false
      swapped a c h = ground arith
