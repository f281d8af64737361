-- ===== src/Spaces/Keeps.antt =====
-- The work of each operation on a space keeps what the spaces promise
-- (src/modules/spaces/spaces.service.ts).
use mathlib.Core.Path.{subst}
use babki_back.Prelude.{
  ◌≡◌, true, false, not, sym, refl, ap, ◌∙◌, Bool, some, is_some, List, In, ◌==◌, ==_iff, ◌+◌,
}
use babki_back.Dates.{Date}
use babki_back.Mongo.{Mongo, first, change_first, change_all}
use babki_back.Mongo.Lookup.{first-In, first_matches}
use babki_back.Mongo.Writes.{Unique-In}
use babki_back.Http.{
  ok, conflict, not_found, member_not_found, owner_must_stay, cannot_remove_owner,
  owner_permissions_fixed,
}
use babki_back.Schemas.{
  Db, ObjectId, Space, SpacePermissions, SpaceMembership, MembershipStatus, MembershipEndReason,
  SpaceInvitation,
}
use babki_back.Budget.{space_budget}
use babki_back.Access.{effective_permissions, is_active, space_filter, member_filter}
use babki_back.Access.Atomic.{IsStarted}
use babki_back.Access.Permits.{space_filter-true, member_filter-true}
use babki_back.Spaces.{
  UpdateSpace, UpdateSpacePermissions, SpaceDto, no_permissions, changed_permissions, renamed,
  set_permissions, ended, active_in, pending_in, revoked_with_space,
}
use babki_back.Spaces.Actions.{
  update_space, remove_space, change_permissions, leave_space, expel_member, save_space, event,
  reset_permissions, save_permissions,
}
use babki_back.Spaces.Book.{
  IsSpaceBook, SpaceBook, KeepsMember, SetsPermissions, change_members, change_permissions_book,
}
use babki_back.Spaces.Changes.{change_spaces}
use babki_back.Spaces.Delete.{delete_space}
use babki_back.Spaces.Started.{IsReset, IsReset-ok}
use babki_back.Session.{raise_if, or_raise}
use babki_back.Session.Inversion.{bind_ok, raise_if_ok, or_raise_ok, pure_ok}

ended_keeps :
    (status : MembershipStatus) (now : Date) (reason : MembershipEndReason)
    → KeepsMember (ended status now reason)
unfolding ended
ended_keeps status now reason = record { id = λ x. refl; pair = λ x. (refl, refl) }

pub permissions_keep : (p : SpacePermissions) → SetsPermissions (set_permissions p)
unfolding set_permissions
permissions_keep p = record {
  member = record { id = λ x. refl; pair = λ x. (refl, refl) };
  status = λ x. refl;
}

not_active :
    (status : MembershipStatus) (now : Date) (reason : MembershipEndReason) (x : SpaceMembership)
    → is_active status ≡ false
    → is_active (ended status now reason x).status ≡ true
    → ⊥
unfolding ended
not_active status now reason x h a = cc

true-false : {b : Bool} → b ≡ true → b ≡ false → ⊥
true-false h k = cc

-- A member who is not the owner of the space is not needed as an owner.
not_needed :
    (ss : List Space) (ms : List SpaceMembership) (invites : List SpaceInvitation)
    (sid user_id : ObjectId) (space s : Space) (x : SpaceMembership)
    → SpaceBook ss ms invites
    → first (space_filter sid) ss ≡ some space
    → (space.owner_id == user_id) ≡ false
    → In s ss
    → member_filter sid user_id x ≡ true
    → member_filter s.id s.owner_id x ≡ true
    → ⊥
not_needed ss ms invites sid user_id space s x b live differs i y e =
    let (xs, xu, a) = member_filter-true sid user_id x y in
    let (xs', xu', a') = member_filter-true s.id s.owner_id x e in
    let here = space_filter-true sid space (first_matches (space_filter sid) ss space live) in
    let same : space ≡ s =
      Unique-In (λ z. z.id) ss space s b.space_ids (first-In (space_filter sid) ss space live) i
        (here.0 ∙ sym xs ∙ xs') in
    true-false
      ((==_iff space.owner_id user_id).1 (ap (λ (z : Space). z.owner_id) same ∙ sym xu' ∙ xu))
      differs

module _ ⦃m : Mongo⦄ where
  pub started-IsSpaceBook :
      (sid : ObjectId) (db start : Db)
      → IsStarted (space_budget sid) db start
      → IsSpaceBook db
      → IsSpaceBook start
  started-IsSpaceBook sid db start s b =
      let f : Space → Space = λ x. record x { mutation_version = x.mutation_version + 1 } in
      subst IsSpaceBook (sym s.touched) (
        subst (λ ss. SpaceBook ss db.memberships db.invitations)
          (sym (m.update_one_law (space_filter sid) f db.spaces))
          (change_spaces db.spaces db.memberships db.invitations (space_filter sid) f
            (record { id = λ x. refl; deleted_at = λ x. refl }) (λ x y o. o) b))

  -- Permissions of one member are set.
  set_permissions-Book :
      (id : ObjectId) (p : SpacePermissions) (db : Db)
      → IsSpaceBook db
      → SpaceBook db.spaces
          (m.update_one (λ x. x.id == id) (set_permissions p) db.memberships)
          db.invitations
  set_permissions-Book id p db b =
      subst (λ ms. SpaceBook db.spaces ms db.invitations)
        (sym (m.update_one_law (λ x. x.id == id) (set_permissions p) db.memberships))
        (change_permissions_book db.spaces db.memberships db.invitations id (set_permissions p)
          (permissions_keep p) b)

  pub reset-IsSpaceBook :
      (sid user_id : ObjectId) (p : SpacePermissions) (db db' : Db)
      → IsReset sid user_id p db db'
      → IsSpaceBook db
      → IsSpaceBook db'
  reset-IsSpaceBook sid user_id p db db' r b =
      subst IsSpaceBook (sym r.after)
        (set_permissions-Book r.member.id (effective_permissions false no_permissions) db b)

  pub reset_spaces :
      (sid user_id : ObjectId) (p : SpacePermissions) (db db' : Db)
      → IsReset sid user_id p db db'
      → db'.spaces ≡ db.spaces
  reset_spaces sid user_id p db db' r = ap (λ (z : Db). z.spaces) r.after

  -- A membership ends that is not the owner's.
  end-Book :
      (sid user_id : ObjectId) (status : MembershipStatus) (now : Date)
      (reason : MembershipEndReason) (space : Space) (db : Db)
      → is_active status ≡ false
      → first (space_filter sid) db.spaces ≡ some space
      → (space.owner_id == user_id) ≡ false
      → IsSpaceBook db
      → SpaceBook db.spaces
          (m.update_one (member_filter sid user_id) (ended status now reason) db.memberships)
          db.invitations
  end-Book sid user_id status now reason space db ends live differs b =
      subst (λ ms. SpaceBook db.spaces ms db.invitations)
        (sym
          (m.update_one_law (member_filter sid user_id) (ended status now reason) db.memberships))
        (change_members db.spaces db.memberships db.invitations (member_filter sid user_id)
          (ended status now reason) (ended_keeps status now reason)
          (λ s x i l y e. absurd (
            not_needed db.spaces db.memberships db.invitations sid user_id space s x b live differs
              i y e))
          (λ x y a. absurd (not_active status now reason x ends a)) b)

  pub leave-IsSpaceBook :
      (user_id sid : ObjectId) (now : Date) (space : Space) (db db' : Db)
      → first (space_filter sid) db.spaces ≡ some space
      → leave_space user_id sid now space db ≡ ok (tt, db')
      → IsSpaceBook db
      → IsSpaceBook db'
  unfolding leave_space event is_active
  leave-IsSpaceBook user_id sid now space db db' live h b =
      let (u1, d1, h1, k1) =
        bind_ok (raise_if (space.owner_id == user_id) (conflict owner_must_stay)) _ db h in
      let (differs, e1) = raise_if_ok (space.owner_id == user_id) _ db d1 h1 in
      let (p, d2, h2, k2) = bind_ok (reset_permissions sid user_id) _ d1 k1 in
      let r = IsReset-ok sid user_id p d1 d2 h2 in
      let b1 = subst IsSpaceBook (sym e1) b in
      let b2 = reset-IsSpaceBook sid user_id p d1 d2 r b1 in
      let live2 =
        ap (first (space_filter sid))
          (reset_spaces sid user_id p d1 d2 r ∙ ap (λ (z : Db). z.spaces) e1)
        ∙ live in
      subst IsSpaceBook (pure_ok tt tt _ db' k2).1 (
        end-Book sid user_id MembershipStatus.left now MembershipEndReason.member_left space d2 refl
          live2 differs b2)

  pub expel-IsSpaceBook :
      (actor_id sid user_id : ObjectId) (now : Date) (space : Space) (db db' : Db)
      → first (space_filter sid) db.spaces ≡ some space
      → expel_member actor_id sid user_id now space db ≡ ok (tt, db')
      → IsSpaceBook db
      → IsSpaceBook db'
  unfolding expel_member event is_active
  expel-IsSpaceBook actor_id sid user_id now space db db' live h b =
      let (u1, d1, h1, k1) =
        bind_ok (raise_if (space.owner_id == user_id) (conflict cannot_remove_owner)) _ db h in
      let (differs, e1) = raise_if_ok (space.owner_id == user_id) _ db d1 h1 in
      let (p, d2, h2, k2) = bind_ok (reset_permissions sid user_id) _ d1 k1 in
      let r = IsReset-ok sid user_id p d1 d2 h2 in
      let b1 = subst IsSpaceBook (sym e1) b in
      let b2 = reset-IsSpaceBook sid user_id p d1 d2 r b1 in
      let live2 =
        ap (first (space_filter sid))
          (reset_spaces sid user_id p d1 d2 r ∙ ap (λ (z : Db). z.spaces) e1)
        ∙ live in
      let f = ended MembershipStatus.removed now MembershipEndReason.member_removed in
      let written : Db = record d2 {
        memberships = m.update_one (member_filter sid user_id) f d2.memberships;
      } in
      let missing = not (is_some (m.find_one (member_filter sid user_id) d2.memberships)) in
      let (u3, d3, h3, k3) = bind_ok (raise_if missing (not_found member_not_found)) _ written k2 in
      let (found, e3) = raise_if_ok missing _ written d3 h3 in
      let b3 : IsSpaceBook written =
        end-Book sid user_id MembershipStatus.removed now MembershipEndReason.member_removed space
          d2 refl live2 differs b2 in
      let b4 : IsSpaceBook d3 = subst IsSpaceBook (sym e3) b3 in
      subst IsSpaceBook (pure_ok tt tt _ db' k3).1 b4

  pub change_permissions-IsSpaceBook :
      (actor_id sid user_id : ObjectId) (dto : UpdateSpacePermissions) (now : Date) (space : Space)
      (p : SpacePermissions) (db db' : Db)
      → change_permissions actor_id sid user_id dto now space db ≡ ok (p, db')
      → IsSpaceBook db
      → IsSpaceBook db'
  unfolding change_permissions event save_permissions
  change_permissions-IsSpaceBook actor_id sid user_id dto now space p db db' h b =
      let (u1, d1, h1, k1) =
        bind_ok (raise_if (space.owner_id == user_id) (conflict owner_permissions_fixed)) _ db h in
      let (differs, e1) = raise_if_ok (space.owner_id == user_id) _ db d1 h1 in
      let q = member_filter sid user_id in
      let (x, d2, h2, k2) =
        bind_ok (or_raise (m.find_one q d1.memberships) (not_found member_not_found)) _ d1 k1 in
      let (found, e2) = or_raise_ok (m.find_one q d1.memberships) _ d1 d2 x h2 in
      let after = changed_permissions dto (effective_permissions false x.permissions) in
      let b2 = subst IsSpaceBook (sym (e2 ∙ e1)) b in
      subst IsSpaceBook (pure_ok after p _ db' k2).1 (set_permissions-Book x.id after d2 b2)

  pub update_space-IsSpaceBook :
      (user_id : ObjectId) (dto : UpdateSpace) (space : Space) (r : SpaceDto) (db db' : Db)
      → update_space user_id dto space db ≡ ok (r, db')
      → IsSpaceBook db
      → IsSpaceBook db'
  unfolding update_space save_space renamed
  update_space-IsSpaceBook user_id dto space r db db' h b =
      subst IsSpaceBook (pure_ok _ r _ db' h).1 (
        subst (λ ss. SpaceBook ss db.memberships db.invitations)
          (sym (m.update_one_law (λ s. s.id == space.id) (renamed dto) db.spaces))
          (change_spaces db.spaces db.memberships db.invitations (λ s. s.id == space.id)
            (renamed dto) (record { id = λ x. refl; deleted_at = λ x. refl }) (λ x y o. o) b))

  pub remove_space-IsSpaceBook :
      (user_id sid : ObjectId) (now : Date) (space : Space) (db db' : Db)
      → first (space_filter sid) db.spaces ≡ some space
      → remove_space user_id sid now space db ≡ ok (tt, db')
      → IsSpaceBook db
      → IsSpaceBook db'
  unfolding remove_space save_space event
  remove_space-IsSpaceBook user_id sid now space db db' live h b =
      let same =
        (space_filter-true sid space (first_matches (space_filter sid) db.spaces space live)).0 in
      let here = first-In (space_filter sid) db.spaces space live in
      let f : Space → Space = λ s. record s { deleted_at = some now } in
      let g = ended MembershipStatus.removed now MembershipEndReason.space_deleted in
      let deleted =
        delete_space sid user_id now db.spaces db.memberships db.invitations space same here b in
      let ss_eq : m.update_one (λ s. s.id == space.id) f db.spaces
          ≡ change_first (λ s. s.id == sid) f db.spaces =
        m.update_one_law (λ s. s.id == space.id) f db.spaces
        ∙ ap (λ z. change_first (λ s. s.id == z) f db.spaces) same in
      let ms_eq = m.update_many_law (active_in sid) g db.memberships in
      let is_eq =
        m.update_many_law (pending_in sid) (revoked_with_space user_id now) db.invitations in
      subst IsSpaceBook (pure_ok tt tt _ db' h).1 (
        subst
          (λ ss.
            SpaceBook ss (m.update_many (active_in sid) g db.memberships)
              (m.update_many (pending_in sid) (revoked_with_space user_id now) db.invitations))
          (sym ss_eq)
          (subst
            (λ ms.
              SpaceBook (change_first (λ s. s.id == sid) f db.spaces) ms
                (m.update_many (pending_in sid) (revoked_with_space user_id now) db.invitations))
            (sym ms_eq)
            (subst
              (λ is.
                SpaceBook (change_first (λ s. s.id == sid) f db.spaces)
                  (change_all (active_in sid) g db.memberships) is)
              (sym is_eq) deleted)))
