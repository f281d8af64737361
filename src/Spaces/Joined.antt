-- ===== src/Spaces/Joined.antt =====
-- What the acceptance of an invitation promises, and what the operations on invitations keep
-- (src/modules/spaces/space-invitations.service.ts).
use mathlib.Core.Path.{subst}
use babki_back.Prelude.{
  ◌≡◌, true, false, sym, refl, ap, ◌∙◌, Option, none, some, is_some, List, [], ◌∷◌, ◌++◌, arith,
  inl, inr, map, Bool-cases,
}
use babki_back.Dates.{Date}
use babki_back.Mongo.{Mongo, first, change_first}
use babki_back.Mongo.Lookup.{first_matches, first-change_first, first-append_new, first-none_narrow}
use babki_back.Mongo.Writes.{Finds-of_some, some_of_Finds, Unique}
use babki_back.Http.{ok}
use babki_back.Schemas.{Db, ObjectId, Token, SpaceMembership, SpaceInvitation}
use babki_back.Access.{effective_permissions, is_active, member_filter}
use babki_back.Spaces.{is_pending, no_permissions}
use babki_back.Spaces.Book.{IsSpaceBook, SpaceBook}
use babki_back.Spaces.Changes.{change_invites}
use babki_back.Spaces.Keeps.{started-IsSpaceBook}
use babki_back.Spaces.Invitations.{
  Hash, Accepted, acceptable, mark_accepted, mark_revoked, rejoined, joined_document, any_member,
  joined_members, accept_invitation,
}
use babki_back.Spaces.Accept.{accept_ok, join-Book, started-Live}

pub accepted_ends :
    (u : ObjectId) (now : Date) (i : SpaceInvitation)
    → is_pending (mark_accepted u now i).status ≡ false
unfolding mark_accepted is_pending
accepted_ends u now i = refl

pub revoked_ends :
    (u : ObjectId) (now : Date) (i : SpaceInvitation)
    → is_pending (mark_revoked u now i).status ≡ false
unfolding mark_revoked is_pending
revoked_ends u now i = refl

narrow :
    (sid u : ObjectId) (x : SpaceMembership)
    → member_filter sid u x ≡ true
    → any_member sid u x ≡ true
unfolding member_filter any_member
narrow sid u x h = ground arith

rejoined_member :
    (sid u : ObjectId) (now : Date) (x : SpaceMembership)
    → any_member sid u x ≡ true
    → member_filter sid u (rejoined now x) ≡ true
unfolding any_member member_filter rejoined is_active
rejoined_member sid u now x h = ground arith

joined_member :
    (sid u : ObjectId) (now : Date) (id : ObjectId)
    → member_filter sid u (joined_document sid u now id) ≡ true
unfolding member_filter joined_document is_active
joined_member sid u now id = ground arith

none_of : (o : Option SpaceMembership) → is_some o ≡ false → o ≡ none
none_of none h = refl
none_of (some x) h = cc

-- The user is an active member since `now`, to whom nothing is granted.
pub record IsNewMember (sid u : ObjectId) (now : Date) (ms : List SpaceMembership) : Type 0 where
  pub membership : SpaceMembership
  pub found : first (member_filter sid u) ms ≡ some membership
  pub since : membership.joined_at ≡ now
  pub granted : membership.permissions ≡ effective_permissions false no_permissions

updated :
    (sid u : ObjectId) (now : Date) (ms : List SpaceMembership) (d : SpaceMembership)
    → first (any_member sid u) ms ≡ some d
    → IsNewMember sid u now (change_first (any_member sid u) (rejoined now) ms)
unfolding rejoined
updated sid u now ms d here = record {
  membership = rejoined now d;
  found =
      first-change_first (member_filter sid u) (any_member sid u) (rejoined now) ms d (narrow sid u)
        (rejoined_member sid u now d (first_matches (any_member sid u) ms d here)) here;
  since = refl;
  granted = refl;
}

added :
    (sid u : ObjectId) (now : Date) (ms : List SpaceMembership) (id : ObjectId)
    → first (any_member sid u) ms ≡ none
    → IsNewMember sid u now (ms ++ joined_document sid u now id ∷ [])
unfolding joined_document
added sid u now ms id nobody = record {
  membership = joined_document sid u now id;
  found =
      first-append_new (member_filter sid u) ms (joined_document sid u now id)
        (first-none_narrow (member_filter sid u) (any_member sid u) ms (narrow sid u) nobody)
        (joined_member sid u now id);
  since = refl;
  granted = refl;
}

-- No two invitations have the same id or the same token, as the indexes of the collection see to.
pub record IsIndexed (invites : List SpaceInvitation) : Type 0 where
  pub ids : Unique (map (λ i. i.id) invites)
  pub digests : Unique (map (λ i. i.token_digest) invites)

module _ ⦃m : Mongo⦄ where
  joins :
      (sid u : ObjectId) (now : Date) (ms : List SpaceMembership)
      → IsNewMember sid u now (joined_members sid u now ms)
  unfolding joined_members
  joins sid u now ms =
      let q = any_member sid u in
      elim (Bool-cases (is_some (m.find_one q ms))) [
        | inl y ↦
            let (d, here) =
              some_of_Finds q ms
                (Finds-of_some q ms (ap is_some (sym (m.find_one_law q ms)) ∙ y)) in
            rw y (
              subst (IsNewMember sid u now) (sym (m.update_one_law q (rejoined now) ms))
                (updated sid u now ms d here))
        | inr n ↦
            let x = joined_document sid u now (m.object_id (map (λ y. y.id) ms)) in
            rw n (
              subst (IsNewMember sid u now) (sym (m.insert_law x ms)) (
                added sid u now ms (m.object_id (map (λ y. y.id) ms))
                  (sym (m.find_one_law q ms) ∙ none_of (m.find_one q ms) n)))
      ]

  module _ ⦃hash : Hash⦄ where
    -- Who accepts an invitation was no active member of its space, and is one afterwards, from the
    -- time of the acceptance on and with no permission granted.
    pub accept_invitation-IsNewMember :
        (user_id : ObjectId) (token : Token) (early late now : Date) (r : Accepted) (db db' : Db)
        → accept_invitation user_id token early late now db ≡ ok (r, db')
        → (first (member_filter r.space_id user_id) db.memberships ≡ none)
          × IsNewMember r.space_id user_id now db'.memberships
    accept_invitation-IsNewMember user_id token early late now r db db' h =
        let a = accept_ok user_id token early late now r db db' h in
        let q = member_filter a.found.space_id user_id in
        let before : first q a.start.memberships ≡ none =
          sym (m.find_one_law q a.start.memberships)
          ∙ none_of (m.find_one q a.start.memberships) a.admitted.stranger in
        let same : a.start.memberships ≡ db.memberships =
          ap (λ (z : Db). z.memberships) a.started.touched in
        subst
          (λ z.
            (first (member_filter z user_id) db.memberships ≡ none)
            × IsNewMember z user_id now db'.memberships)
          (sym a.admitted.space)
          (
            ap (first q) (sym same) ∙ before,
            subst (IsNewMember a.found.space_id user_id now) (sym a.admitted.members_after)
                (joins a.found.space_id user_id now a.start.memberships),
          )

    pub accept-IsSpaceBook :
        (user_id : ObjectId) (token : Token) (early late now : Date) (r : Accepted) (db db' : Db)
        → accept_invitation user_id token early late now db ≡ ok (r, db')
        → IsSpaceBook db
        → IsSpaceBook db'
    accept-IsSpaceBook user_id token early late now r db db' h b =
        let a = accept_ok user_id token early late now r db db' h in
        let sid = a.found.space_id in
        let start_book = started-IsSpaceBook sid db a.start a.started b in
        let joined =
          join-Book sid user_id now a.start.spaces a.start.memberships a.start.invitations
            (started-Live sid db a.start a.started) start_book in
        let q = acceptable a.invitation.id now in
        let marked =
          change_invites a.start.spaces (joined_members sid user_id now a.start.memberships)
            a.start.invitations q (mark_accepted user_id now) (accepted_ends user_id now) joined in
        let invites_eq =
          a.admitted.invites_after
          ∙ m.update_one_law q (mark_accepted user_id now) a.start.invitations in
        subst (λ ss. SpaceBook ss db'.memberships db'.invitations) (sym a.admitted.spaces_after)
          (subst (λ ms. SpaceBook a.start.spaces ms db'.invitations) (sym a.admitted.members_after)
            (subst (SpaceBook a.start.spaces (joined_members sid user_id now a.start.memberships))
              (sym invites_eq) marked))
