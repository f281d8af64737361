-- ===== src/Spaces/Leave.antt =====
-- How members leave a space (src/modules/spaces/spaces.service.ts, `leave`).
use mathlib.Core.Option
use mathlib.Core.Path.{subst}
use babki_back.Prelude.{
  ◌≡◌, ◌≢◌, true, false, refl, ap, ◌∙◌, Bool, some, List, ◌==◌, ==_iff, ◌+◌, arith,
}
use babki_back.Dates.{Date}
use babki_back.Mongo.{Mongo, first, change_first}
use babki_back.Mongo.Lookup.{first-change_first, first_matches}
use babki_back.Mongo.Writes.{Finds, some_of_Finds, no_more}
use babki_back.Http.{ok, err, space_not_found, conflict, not_found, owner_must_stay}
use babki_back.Schemas.{Db, ObjectId, Space, SpaceMembership, MembershipStatus, MembershipEndReason}
use babki_back.Access.{
  effective_permissions, serialize_mutation, require_member, is_active, space_filter, member_filter,
}
use babki_back.Access.Permits.{member_filter-true}
use babki_back.Spaces.{no_permissions, set_permissions, ended}
use babki_back.Spaces.Actions.{leave_space, event, reset_permissions, save_permissions}
use babki_back.Spaces.Book.{IsSpaceBook, pair, change_permissions_book}
use babki_back.Spaces.Keeps.{permissions_keep}
use babki_back.Session.{Action, raise_if, or_raise}
use babki_back.Session.Inversion.{bind_run, raise_if_run}
use babki_back.Spaces.Actions.{mutation}

-- The space in its new version.
abbrev pub touched : Space → Space
touched s = record s { mutation_version = s.mutation_version + 1 }

touched_filter : (sid : ObjectId) (s : Space) → space_filter sid (touched s) ≡ space_filter sid s
unfolding space_filter
touched_filter sid s = refl

ended_filter :
    (sid u : ObjectId) (now : Date) (reason : MembershipEndReason) (x : SpaceMembership)
    → member_filter sid u (ended MembershipStatus.left now reason x) ≡ false
unfolding member_filter ended is_active
ended_filter sid u now reason x = ground arith

pair_of :
    (sid u : ObjectId) (x : SpaceMembership) → member_filter sid u x ≡ true → pair x ≡ (sid, u)
pair_of sid u x h = let (a, b, c) = member_filter-true sid u x h in rw (a, b) refl

module _ ⦃m : Mongo⦄ where
  -- The state that the work begins in.
  pub begun : ObjectId → Db → Db
  begun sid db = record db { spaces = m.update_one (space_filter sid) touched db.spaces }

  begun_live :
      (sid : ObjectId) (space : Space) (db : Db)
      → first (space_filter sid) db.spaces ≡ some space
      → first (space_filter sid) (begun sid db).spaces ≡ some (touched space)
  unfolding begun
  begun_live sid space db live =
      ap (first (space_filter sid)) (m.update_one_law (space_filter sid) touched db.spaces)
      ∙ first-change_first (space_filter sid) (space_filter sid) touched db.spaces space (λ e h. h)
          (touched_filter sid space ∙ first_matches (space_filter sid) db.spaces space live) live

  still :
      (u sid : ObjectId) (x : SpaceMembership) (db : Db)
      → first (member_filter sid u) db.memberships ≡ some x
      → first (member_filter sid u) (begun sid db).memberships ≡ some x
  unfolding begun
  still u sid x db h = h

  serialize_runs :
      (sid : ObjectId) (space : Space) (db : Db)
      → first (space_filter sid) db.spaces ≡ some space
      → serialize_mutation sid db ≡ ok (touched space, begun sid db)
  unfolding serialize_mutation begun
  serialize_runs sid space db live =
      let here = m.find_one_law (space_filter sid) db.spaces ∙ live in
      ap (λ o. or_raise (Option.map touched o) (not_found space_not_found) (begun sid db)) here

  member_runs :
      (u sid : ObjectId) (space : Space) (x : SpaceMembership) (db : Db)
      → first (space_filter sid) db.spaces ≡ some space
      → first (member_filter sid u) db.memberships ≡ some x
      → require_member sid u db ≡ ok (space, db)
  unfolding require_member
  member_runs u sid space x db live joined =
      let here = m.find_one_law (space_filter sid) db.spaces ∙ live in
      let mine = m.find_one_law (member_filter sid u) db.memberships ∙ joined in ground arith

  -- Work that any member may do begins for an active member of a space that is not deleted.
  pub member_begins :
      {A : Type 0} (u sid : ObjectId) (work : Space → Action A) (space : Space)
      (x : SpaceMembership) (db : Db)
      → first (space_filter sid) db.spaces ≡ some space
      → first (member_filter sid u) db.memberships ≡ some x
      → mutation u sid false work db ≡ work (touched space) (begun sid db)
  unfolding mutation
  member_begins u sid work space x db live joined =
      bind_run (serialize_mutation sid) _ db (begun sid db) (touched space)
        (serialize_runs sid space db live)
      ∙ bind_run (require_member sid u) _ (begun sid db) (begun sid db) (touched space) (
          member_runs u sid (touched space) x (begun sid db) (begun_live sid space db live)
            (still u sid x db joined))

  -- The memberships after somebody has left.
  without : ObjectId → ObjectId → Date → SpaceMembership → Db → List SpaceMembership
  without u sid now x db =
      m.update_one (member_filter sid u)
        (ended MembershipStatus.left now MembershipEndReason.member_left)
        (m.update_one (λ y. y.id == x.id)
          (set_permissions (effective_permissions false no_permissions)) db.memberships)

  reset_state : ObjectId → Db → Db
  reset_state id db = record db {
    memberships =
        m.update_one (λ y. y.id == id)
          (set_permissions (effective_permissions false no_permissions)) db.memberships;
  }

  reset_runs :
      (u sid : ObjectId) (x : SpaceMembership) (db : Db)
      → first (member_filter sid u) db.memberships ≡ some x
      → reset_permissions sid u db
        ≡ ok (effective_permissions false x.permissions, reset_state x.id db)
  unfolding reset_permissions save_permissions reset_state
  reset_runs u sid x db joined =
      let mine = m.find_one_law (member_filter sid u) db.memberships ∙ joined in rw mine refl

  leaves :
      (u sid : ObjectId) (now : Date) (space : Space) (x : SpaceMembership) (db : Db)
      → (space.owner_id == u) ≡ false
      → first (member_filter sid u) db.memberships ≡ some x
      → (db' : Db) × (leave_space u sid now space db ≡ ok (tt, db'))
        × (db'.memberships ≡ without u sid now x db)
  unfolding leave_space event without reset_state
  leaves u sid now space x db differs joined = (
    _,
    bind_run (raise_if (space.owner_id == u) (conflict owner_must_stay)) _ db db tt
          (raise_if_run (space.owner_id == u) _ db differs)
        ∙ bind_run (reset_permissions sid u) _ db (reset_state x.id db)
            (effective_permissions false x.permissions) (reset_runs u sid x db joined),
    refl,
  )

  gone :
      (u sid : ObjectId) (now : Date) (x : SpaceMembership) (db : Db)
      → IsSpaceBook db
      → ¬ (Finds (member_filter sid u) (without u sid now x db))
  unfolding without
  gone u sid now x db b h =
      let q : SpaceMembership → Bool = λ y. y.id == x.id in
      let f = set_permissions (effective_permissions false no_permissions) in
      let g = ended MembershipStatus.left now MembershipEndReason.member_left in
      let reset =
        change_permissions_book db.spaces db.memberships db.invitations x.id f (permissions_keep _)
          b in
      no_more pair (sid, u) (member_filter sid u) g (change_first q f db.memberships) reset.once
        (pair_of sid u) (ended_filter sid u now MembershipEndReason.member_left)
        (subst (Finds (member_filter sid u))
          (m.update_one_law (member_filter sid u) g (m.update_one q f db.memberships)
            ∙ ap (change_first (member_filter sid u) g) (m.update_one_law q f db.memberships))
          h)

  refused :
      (u sid : ObjectId) (now : Date) (space : Space) (db : Db)
      → (space.owner_id == u) ≡ true
      → leave_space u sid now space db ≡ err (conflict owner_must_stay)
  unfolding leave_space
  refused u sid now space db same = rw same refl

  same_members :
      (u sid : ObjectId) (now : Date) (x : SpaceMembership) (db : Db)
      → without u sid now x (begun sid db) ≡ without u sid now x db
  unfolding without begun
  same_members u sid now x db = refl

  -- An active member of a space that is not deleted can always leave it, unless it is the owner: the
  -- work then returns, and afterwards the user is no active member. The owner is refused, whose
  -- ownership has to be transferred first. This is if what the spaces promise held before.
  pub leave_cases :
      (u sid : ObjectId) (now : Date) (space : Space) (db : Db)
      → IsSpaceBook db
      → first (space_filter sid) db.spaces ≡ some space
      → Finds (member_filter sid u) db.memberships
      → ((space.owner_id ≡ u)
          → mutation u sid false (leave_space u sid now) db ≡ err (conflict owner_must_stay))
        × ((space.owner_id ≢ u)
            → (db' : Db) × (mutation u sid false (leave_space u sid now) db ≡ ok (tt, db'))
              × ¬ (Finds (member_filter sid u) db'.memberships))
  leave_cases u sid now space db b live joined =
      let (x, found) = some_of_Finds (member_filter sid u) db.memberships joined in
      let begins = member_begins u sid (leave_space u sid now) space x db live found in
      (
        λ same.
            begins
            ∙ refused u sid now (touched space) (begun sid db) ((==_iff space.owner_id u).1 same),
        λ ne.
            let (db', runs, after) =
              leaves u sid now (touched space) x (begun sid db) (differ space.owner_id u ne)
                (still u sid x db found) in
            (
              db',
              begins ∙ runs,
              λ h.
                  gone u sid now x db b
                    (subst (Finds (member_filter sid u)) (after ∙ same_members u sid now x db) h),
            ),
      )
    where
      differ : (a c : ObjectId) → a ≢ c → (a == c) ≡ false
      differ a c ne = ground arith
