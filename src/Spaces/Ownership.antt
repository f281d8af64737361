-- ===== src/Spaces/Ownership.antt =====
-- The creation of a space, and the transfer of its ownership
-- (src/modules/spaces/spaces.service.ts, `create` and `transferOwnership`).
use mathlib.Core.Path.{subst}
use babki_back.Prelude.{
  ◌≡◌, true, false, not, sym, refl, ap, ◌∙◌, Bool, some, is_some, ◌++◌, [], ◌∷◌, ◌==◌, ==_iff,
  arith, map,
}
use babki_back.Dates.{Date}
use babki_back.Mongo.{Mongo, first, change_first}
use babki_back.Mongo.Lookup.{first_matches}
use babki_back.Mongo.Writes.{Finds, Finds-change_first, Finds-of_some, Finds-of_some}
use babki_back.Http.{ok, conflict, not_found, member_not_found, already_owner}
use babki_back.Schemas.{Db, ObjectId, Space, SpacePermissions, SpaceMembership}
use babki_back.Access.{effective_permissions, is_active, space_filter, member_filter}
use babki_back.Access.Permits.{space_filter-true}
use babki_back.Spaces.{
  CreateSpace, SpaceDto, no_permissions, space_document, owner_membership, set_permissions,
}
use babki_back.Spaces.Actions.{create_space, hand_over, save_space, event, reset_permissions}
use babki_back.Spaces.Book.{IsSpaceBook, SpaceBook, filter_same}
use babki_back.Spaces.Changes.{change_spaces, add_space}
use babki_back.Spaces.Keeps.{reset-IsSpaceBook, permissions_keep}
use babki_back.Spaces.Started.{IsReset, IsReset-ok}
use babki_back.Session.{raise_if}
use babki_back.Session.Inversion.{bind_ok, raise_if_ok, pure_ok}

false_of_not : (b : Bool) → not b ≡ false → b ≡ true
false_of_not b h = ground arith

joined_owner :
    (sid user_id : ObjectId) (dto : CreateSpace) (now : Date) (id : ObjectId)
    → member_filter sid
        (space_document user_id dto sid).owner_id
        (owner_membership sid user_id now id)
      ≡ true
unfolding member_filter is_active owner_membership space_document
joined_owner sid user_id dto now id = ground arith

module _ ⦃m : Mongo⦄ where
  pub create_space-IsSpaceBook :
      (user_id : ObjectId) (dto : CreateSpace) (now : Date) (r : SpaceDto) (db db' : Db)
      → create_space user_id dto now db ≡ ok (r, db')
      → IsSpaceBook db
      → IsSpaceBook db'
  unfolding create_space event space_document owner_membership
  create_space-IsSpaceBook user_id dto now r db db' h b =
      let sid = m.object_id (map (λ (s : Space). s.id) db.spaces) in
      let mid = m.object_id (map (λ (x : SpaceMembership). x.id) db.memberships) in
      let s = space_document user_id dto sid in
      let x = owner_membership sid user_id now mid in
      subst IsSpaceBook (pure_ok _ r _ db' h).1 (
        subst (λ ss. SpaceBook ss (m.insert x db.memberships) db.invitations)
          (sym (m.insert_law s db.spaces))
          (subst (λ ms. SpaceBook (db.spaces ++ s ∷ []) ms db.invitations)
            (sym (m.insert_law x db.memberships))
            (add_space db.spaces db.memberships db.invitations s x
              (m.object_id_new (map (λ (z : Space). z.id) db.spaces)) refl refl
              (m.object_id_new (map (λ (z : SpaceMembership). z.id) db.memberships))
              (joined_owner sid user_id dto now mid) b)))

  -- A reset leaves members in their places.
  reset-Finds :
      (sid user_id a c : ObjectId) (p : SpacePermissions) (db db' : Db)
      → IsReset sid user_id p db db'
      → Finds (member_filter a c) db.memberships
      → Finds (member_filter a c) db'.memberships
  reset-Finds sid user_id a c p db db' r h =
      let q : SpaceMembership → Bool = λ x. x.id == r.member.id in
      let f = set_permissions (effective_permissions false no_permissions) in
      subst (λ (z : Db). Finds (member_filter a c) z.memberships) (sym r.after)
        (subst (Finds (member_filter a c)) (sym (m.update_one_law q f db.memberships)) (
          Finds-change_first (member_filter a c) q f db.memberships
            (λ x i y e. filter_same f a c x (permissions_keep _) ∙ e) h))

  -- What a transfer of ownership has done, one step after the other.
  pub record IsHandedOver (actor_id sid user_id : ObjectId) (space : Space) (r : SpaceDto)
      (db db' : Db) : Type 0 where
    pub differs : (space.owner_id == user_id) ≡ false
    pub middle : Db
    pub last : Db
    pub previous : SpacePermissions
    pub next : SpacePermissions
    pub first_reset : IsReset sid actor_id previous db middle
    pub second_reset : IsReset sid user_id next middle last
    pub spaces_after :
        db'.spaces
        ≡ m.update_one (λ s. s.id == space.id) (λ s. record s { owner_id = user_id }) last.spaces
    pub others_after : (db'.memberships ≡ last.memberships) × (db'.invitations ≡ last.invitations)

  pub hand_over_ok :
      (actor_id sid user_id : ObjectId) (now : Date) (space : Space) (r : SpaceDto) (db db' : Db)
      → hand_over actor_id sid user_id now space db ≡ ok (r, db')
      → IsHandedOver actor_id sid user_id space r db db'
  unfolding hand_over save_space
  hand_over_ok actor_id sid user_id now space r db db' h =
      let (u1, d1, h1, k1) =
        bind_ok (raise_if (space.owner_id == user_id) (conflict already_owner)) _ db h in
      let (differs, e1) = raise_if_ok (space.owner_id == user_id) _ db d1 h1 in
      let missing = not (is_some (m.find_one (member_filter sid user_id) d1.memberships)) in
      let (u2, d2, h2, k2) = bind_ok (raise_if missing (not_found member_not_found)) _ d1 k1 in
      let (found, e2) = raise_if_ok missing _ d1 d2 h2 in
      let (previous, d3, h3, k3) = bind_ok (reset_permissions sid actor_id) _ d2 k2 in
      let (next, d4, h4, k4) = bind_ok (reset_permissions sid user_id) _ d3 k3 in
      let same_db = (pure_ok _ r _ db' k4).1 in
      record {
        differs = differs;
        middle = d3;
        last = d4;
        previous = previous;
        next = next;
        first_reset =
            subst (λ z. IsReset sid actor_id previous z d3) (e2 ∙ e1)
              (IsReset-ok sid actor_id previous d2 d3 h3);
        second_reset = IsReset-ok sid user_id next d3 d4 h4;
        spaces_after = sym (ap (λ (z : Db). z.spaces) same_db);
        others_after = (
          sym (ap (λ (z : Db). z.memberships) same_db),
          sym (ap (λ (z : Db). z.invitations) same_db),
        );
      }

  pub hand_over-IsSpaceBook :
      (actor_id sid user_id : ObjectId) (space : Space) (r : SpaceDto) (db db' : Db)
      → first (space_filter sid) db.spaces ≡ some space
      → IsHandedOver actor_id sid user_id space r db db'
      → IsSpaceBook db
      → IsSpaceBook db'
  hand_over-IsSpaceBook actor_id sid user_id space r db db' live t b =
      let f : Space → Space = λ s. record s { owner_id = user_id } in
      let q : Space → Bool = λ s. s.id == space.id in
      let same =
        (space_filter-true sid space (first_matches (space_filter sid) db.spaces space live)).0 in
      let b3 = reset-IsSpaceBook sid actor_id t.previous db t.middle t.first_reset b in
      let b4 = reset-IsSpaceBook sid user_id t.next t.middle t.last t.second_reset b3 in
      let joined = reset-Finds sid user_id sid user_id t.next t.middle t.last t.second_reset (
        Finds-of_some (member_filter sid user_id) t.middle.memberships
          (ap is_some t.second_reset.joined)) in
      let changed =
        change_spaces t.last.spaces t.last.memberships t.last.invitations q f
          (record { id = λ x. refl; deleted_at = λ x. refl })
          (λ s y o l.
            subst (λ z. Finds (member_filter z user_id) t.last.memberships)
              (sym ((==_iff s.id space.id).0 y ∙ same)) joined)
          b4 in
      let e1 : db'.spaces ≡ change_first q f t.last.spaces =
        t.spaces_after ∙ m.update_one_law q f t.last.spaces in
      subst (λ ss. SpaceBook ss db'.memberships db'.invitations) (sym e1)
        (subst (λ ms. SpaceBook (change_first q f t.last.spaces) ms db'.invitations)
          (sym t.others_after.0)
          (subst (λ is. SpaceBook (change_first q f t.last.spaces) t.last.memberships is)
            (sym t.others_after.1) changed))
