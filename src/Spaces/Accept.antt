-- ===== src/Spaces/Accept.antt =====
-- The acceptance of an invitation (src/modules/spaces/space-invitations.service.ts, `accept`).
use mathlib.Core.Path.{subst}
use babki_back.Prelude.{
  ◌≡◌, ◌+◌, true, false, not, sym, refl, ap, ◌∙◌, Option, some, is_some, List, [], ◌∷◌, arith, inl,
  inr, map, Bool-cases,
}
use babki_back.Dates.{Date}
use babki_back.Mongo.{Mongo, first}
use babki_back.Mongo.Writes.{Finds-In, Finds-of_some, some_of_Finds, In-map_inv}
use babki_back.Http.{Result, ok, err, bad_request, conflict, invalid_invitation, already_member}
use babki_back.Schemas.{Db, ObjectId, Token, Space, SpaceMembership, SpaceInvitation}
use babki_back.Budget.{space_budget}
use babki_back.Access.{is_active, space_filter, member_filter, serialize_mutation}
use babki_back.Access.Atomic.{IsStarted, serialize_ok}
use babki_back.Access.Permits.{not-false}
use babki_back.Spaces.{member}
use babki_back.Spaces.Book.{SpaceBook, KeepsMember, pair, Known, Live, change_members}
use babki_back.Spaces.Changes.{Live-change, add_member}
use babki_back.Spaces.Invitations.{
  Hash, Accepted, token_filter, acceptable, mark_accepted, rejoined, joined_document, any_member,
  hide_missing, joined_members, join, serialize_or_invalid, pending_invitation, accept_invitation,
  admit, joined_event,
}
use babki_back.Session.{raise_if}
use babki_back.Session.Inversion.{bind_ok, raise_if_ok, or_raise_ok, pure_ok}

pub any_member-true :
    (sid u : ObjectId) (x : SpaceMembership)
    → any_member sid u x ≡ true
    → (x.space_id ≡ sid) × (x.user_id ≡ u)
unfolding any_member
any_member-true sid u x h = (ground arith, ground arith)

any_member_of_pair :
    (sid u : ObjectId) (x : SpaceMembership) → pair x ≡ (sid, u) → any_member sid u x ≡ true
unfolding any_member
any_member_of_pair sid u x h =
    let a : x.space_id ≡ sid = ap (λ (z : ObjectId × ObjectId). z.0) h in
    let b : x.user_id ≡ u = ap (λ (z : ObjectId × ObjectId). z.1) h in ground arith

rejoined_filter :
    (s u : ObjectId) (now : Date) (x : SpaceMembership)
    → member_filter s u x ≡ true
    → member_filter s u (rejoined now x) ≡ true
unfolding member_filter rejoined is_active
rejoined_filter s u now x h = ground arith

rejoined_keeps : (now : Date) → KeepsMember (rejoined now)
unfolding rejoined
rejoined_keeps now = record { id = λ x. refl; pair = λ x. (refl, refl) }

Known-of_Live : (ss : List Space) (sid : ObjectId) → Live ss sid → Known ss sid
unfolding space_filter
Known-of_Live [] sid h = absurd h
Known-of_Live (s ∷ ss) sid (inl h) = inl (ground arith)
Known-of_Live (s ∷ ss) sid (inr h) = inr (Known-of_Live ss sid h)

module _ ⦃m : Mongo⦄ where
  -- Somebody joins a space that is not deleted.
  pub join-Book :
      (sid u : ObjectId) (now : Date) (ss : List Space) (ms : List SpaceMembership)
      (invites : List SpaceInvitation)
      → Live ss sid
      → SpaceBook ss ms invites
      → SpaceBook ss (joined_members sid u now ms) invites
  unfolding joined_members joined_document
  join-Book sid u now ss ms invites live b =
      let q = any_member sid u in
      let x = joined_document sid u now (m.object_id (map (λ y. y.id) ms)) in
      elim (Bool-cases (is_some (m.find_one q ms))) [
        | inl y ↦ rw y (
            subst (λ z. SpaceBook ss z invites) (sym (m.update_one_law q (rejoined now) ms))
              (change_members ss ms invites q (rejoined now) (rejoined_keeps now)
                (λ s z i l h e. rejoined_filter s.id s.owner_id now z e)
                (λ z h a. subst (Live ss) (sym (any_member-true sid u z h).0) live) b))
        | inr n ↦ rw n (
            subst (λ z. SpaceBook ss z invites) (sym (m.insert_law x ms))
              (add_member ss ms invites x (Known-of_Live ss sid live) live
                (m.object_id_new (map (λ y. y.id) ms))
                (λ h.
                  let (y, i, e) = In-map_inv pair ms (pair x) h in
                  let (d, found) =
                    some_of_Finds q ms (Finds-In q ms y i (any_member_of_pair sid u y e)) in
                  taken (m.find_one q ms) d (m.find_one_law q ms ∙ found) n)
                b))
      ]
    where
      taken :
          (o : Option SpaceMembership) (d : SpaceMembership) → o ≡ some d → is_some o ≡ false → ⊥
      taken o d h k = cc

  serialize_or_invalid_ok :
      (sid : ObjectId) (space : Space) (db db' : Db)
      → serialize_or_invalid sid db ≡ ok (space, db')
      → IsStarted (space_budget sid) db db'
  unfolding serialize_or_invalid
  serialize_or_invalid_ok sid space db db' h =
      serialize_ok (space_budget sid) space db db' (rethrown (serialize_mutation sid db) h)
    where
      rethrown :
          (r : Result (Space × Db))
          → elim r as (λ x. Result (Space × Db)) [ ok a ↦ ok a | err e ↦ err (hide_missing e) ]
            ≡ ok (space, db')
          → r ≡ ok (space, db')
      rethrown (ok a) h = h
      rethrown (err e) h = cc

  pub started-Live :
      (sid : ObjectId) (db start : Db)
      → IsStarted (space_budget sid) db start
      → Live start.spaces sid
  started-Live sid db start s =
      let f : Space → Space = λ x. record x { mutation_version = x.mutation_version + 1 } in
      subst (λ (z : Db). Live z.spaces sid) (sym s.touched)
        (subst (λ z. Live z sid) (sym (m.update_one_law (space_filter sid) f db.spaces))
          (Live-change db.spaces (space_filter sid) f sid
            (record { id = λ x. refl; deleted_at = λ x. refl })
            (Finds-of_some (space_filter sid) db.spaces (ap is_some s.live))))

  -- What an admission has found and done.
  pub record IsAdmitted (user_id sid : ObjectId) (i : SpaceInvitation) (now : Date) (r : Accepted)
      (db db' : Db) : Type 0 where
    pub stranger : is_some (m.find_one (member_filter sid user_id) db.memberships) ≡ false
    pub in_time : is_some (m.find_one (acceptable i.id now) db.invitations) ≡ true
    pub spaces_after : db'.spaces ≡ db.spaces
    pub members_after : db'.memberships ≡ joined_members sid user_id now db.memberships
    pub invites_after :
        db'.invitations
        ≡ m.update_one (acceptable i.id now) (mark_accepted user_id now) db.invitations
    pub space : r.space_id ≡ sid

  -- The state after the invitation is marked, and the one after the event is written.
  marked : ObjectId → SpaceInvitation → Date → Db → Db
  marked user_id i now db = record db {
    invitations = m.update_one (acceptable i.id now) (mark_accepted user_id now) db.invitations;
  }

  entered : ObjectId → ObjectId → Date → Db → Db
  entered user_id sid now db = record db {
    memberships = joined_members sid user_id now db.memberships;
    events =
        m.insert (joined_event sid user_id now (m.object_id (map (λ e. e.id) db.events))) db.events;
  }

  admit_ok :
      (user_id sid : ObjectId) (i : SpaceInvitation) (now : Date) (r : Accepted) (db db' : Db)
      → admit user_id sid i now db ≡ ok (r, db')
      → IsAdmitted user_id sid i now r db db'
  unfolding admit join marked entered
  admit_ok user_id sid i now r db db' h =
      let joined = is_some (m.find_one (member_filter sid user_id) db.memberships) in
      let (u4, d4, h4, k4) = bind_ok (raise_if joined (conflict already_member)) _ db h in
      let (stranger, e4) = raise_if_ok joined _ db d4 h4 in
      let missing = not (is_some (m.find_one (acceptable i.id now) d4.invitations)) in
      let (u5, d5, h5, k5) =
        bind_ok (raise_if missing (bad_request invalid_invitation)) _ (marked user_id i now d4)
          k4 in
      let (in_time, e5) = raise_if_ok missing _ (marked user_id i now d4) d5 h5 in
      let (same, same_db) =
        pure_ok (record { space_id = sid; role = member }) r (entered user_id sid now d5) db' k5 in
      let last : entered user_id sid now (marked user_id i now db) ≡ db' =
        ap (λ (z : Db). entered user_id sid now (marked user_id i now z)) (sym e4)
        ∙ ap (entered user_id sid now) (sym e5)
        ∙ same_db in
      record {
        stranger = stranger;
        in_time =
            subst (λ (z : Db). is_some (m.find_one (acceptable i.id now) z.invitations) ≡ true) e4
              (not-false _ in_time);
        spaces_after = sym (ap (λ (z : Db). z.spaces) last);
        members_after = sym (ap (λ (z : Db). z.memberships) last);
        invites_after = sym (ap (λ (z : Db). z.invitations) last);
        space = sym (ap (λ (z : Accepted). z.space_id) same);
      }

  module _ ⦃hash : Hash⦄ where
    pending_ok :
        (token : Token) (now : Date) (i : SpaceInvitation) (db db' : Db)
        → pending_invitation token now db ≡ ok (i, db')
        → (first (token_filter (hash.digest token) now) db.invitations ≡ some i) × (db' ≡ db)
    unfolding pending_invitation
    pending_ok token now i db db' h =
        let (found, same) =
          or_raise_ok (m.find_one (token_filter (hash.digest token) now) db.invitations) _ db db' i
            h in
        (sym (m.find_one_law _ db.invitations) ∙ found, same)

    -- What an acceptance has found, and the admission at its end.
    pub record IsAccepted (user_id : ObjectId) (token : Token) (early late now : Date)
        (r : Accepted) (db db' : Db) : Type 0 where
      pub found : SpaceInvitation
      pub was_pending : first (token_filter (hash.digest token) early) db.invitations ≡ some found
      pub start : Db
      pub started : IsStarted (space_budget found.space_id) db start
      pub invitation : SpaceInvitation
      pub still_pending :
          first (token_filter (hash.digest token) late) start.invitations ≡ some invitation
      pub admitted : IsAdmitted user_id found.space_id invitation now r start db'

    pub accept_ok :
        (user_id : ObjectId) (token : Token) (early late now : Date) (r : Accepted) (db db' : Db)
        → accept_invitation user_id token early late now db ≡ ok (r, db')
        → IsAccepted user_id token early late now r db db'
    unfolding accept_invitation
    accept_ok user_id token early late now r db db' h =
        let (found, d1, h1, k1) = bind_ok (pending_invitation token early) _ db h in
        let (pending₁, e1) = pending_ok token early found db d1 h1 in
        let sid = found.space_id in
        let (s, d2, h2, k2) = bind_ok (serialize_or_invalid sid) _ d1 k1 in
        let (i, d3, h3, k3) = bind_ok (pending_invitation token late) _ d2 k2 in
        let (pending₂, e3) = pending_ok token late i d2 d3 h3 in
        record {
          found = found;
          was_pending = pending₁;
          start = d2;
          started =
              subst (λ z. IsStarted (space_budget sid) z d2) e1
                (serialize_or_invalid_ok sid s d1 d2 h2);
          invitation = i;
          still_pending = pending₂;
          admitted =
              subst (λ z. IsAdmitted user_id sid i now r z db') e3
                (admit_ok user_id sid i now r d3 db' k3);
        }
