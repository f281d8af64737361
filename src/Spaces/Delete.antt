-- ===== src/Spaces/Delete.antt =====
-- The deletion of a space, with its memberships and invitations
-- (src/modules/spaces/spaces.service.ts, `remove`).
use mathlib.Core.Path.{subst}
use babki_back.Prelude.{◌≡◌, ◌≢◌, true, false, sym, refl, ◌∙◌, some, List, arith, In, ◌==◌, ==_iff}
use babki_back.Dates.{Date}
use babki_back.Mongo.{first, change_first, change_all}
use babki_back.Mongo.Distinct.{All-change_first, first_by_key}
use babki_back.Mongo.Writes.{
  Finds-change_first, Finds-change_all, All-change_all, map-change_first, map-change_all, Unique,
  Distinct-of_Unique,
}
use babki_back.Schemas.{
  ObjectId, Space, SpaceMembership, MembershipStatus, MembershipEndReason, SpaceInvitation,
}
use babki_back.Access.{is_active, space_filter, member_filter}
use babki_back.Access.Permits.{space_filter-true, member_filter-true}
use babki_back.Spaces.{is_pending, ended, active_in, pending_in, revoked_with_space}
use babki_back.Spaces.Book.{pair, Known, Live, Housed, Invites, SpaceBook}

abbrev deleted : Date → Space → Space
deleted now s = record s { deleted_at = some now }

abbrev closes : Date → SpaceMembership → SpaceMembership
closes now = ended MembershipStatus.removed now MembershipEndReason.space_deleted

active_in-true : (sid : ObjectId) (x : SpaceMembership) → active_in sid x ≡ true → x.space_id ≡ sid
unfolding active_in
active_in-true sid x h = ground arith

active_in-false :
    (sid : ObjectId) (x : SpaceMembership)
    → active_in sid x ≡ false
    → is_active x.status ≡ true
    → x.space_id ≢ sid
unfolding active_in
active_in-false sid x h a = ground arith

pending_in-false :
    (sid : ObjectId) (i : SpaceInvitation)
    → pending_in sid i ≡ false
    → is_pending i.status ≡ true
    → i.space_id ≢ sid
unfolding pending_in
pending_in-false sid i h a = ground arith

-- Other spaces that are not deleted stay.
Live-other :
    (ss : List Space) (sid id : ObjectId) (now : Date)
    → id ≢ sid
    → Live ss id
    → Live (change_first (λ s. s.id == sid) (deleted now) ss) id
Live-other ss sid id now ne h =
    Finds-change_first (space_filter id) (λ s. s.id == sid) (deleted now) ss
      (λ s i y e. absurd (ne (sym (space_filter-true id s e).0 ∙ (==_iff s.id sid).0 y))) h

Known-all :
    (ss : List Space) (sid id : ObjectId) (now : Date)
    → Known ss id
    → Known (change_first (λ s. s.id == sid) (deleted now) ss) id
Known-all ss sid id now h =
    Finds-change_first (λ s. s.id == id) (λ s. s.id == sid) (deleted now) ss (λ s i y e. e) h

module _ (sid user_id : ObjectId) (now : Date) where
  Housed-closed :
      (ss : List Space) (x : SpaceMembership)
      → Housed ss x
      → Housed (change_first (λ s. s.id == sid) (deleted now) ss) (closes now x)
  unfolding ended is_active
  Housed-closed ss x h = (Known-all ss sid x.space_id now h.0, λ a. cc)

  Invites-closed :
      (ss : List Space) (i : SpaceInvitation) → Invites ss (revoked_with_space user_id now i)
  unfolding revoked_with_space is_pending
  Invites-closed ss i p = cc

  closed_same : (x : SpaceMembership) → (pair (closes now x) ≡ pair x) × ((closes now x).id ≡ x.id)
  unfolding ended
  closed_same x = (refl, refl)

  pub delete_space :
      (ss : List Space) (ms : List SpaceMembership) (invites : List SpaceInvitation) (space : Space)
      → space.id ≡ sid
      → In space ss
      → SpaceBook ss ms invites
      → SpaceBook
          (change_first (λ s. s.id == sid) (deleted now) ss)
          (change_all (active_in sid) (closes now) ms)
          (change_all (pending_in sid) (revoked_with_space user_id now) invites)
  delete_space ss ms invites space same here b =
      let ids = Distinct-of_Unique (λ (s : Space). s.id) ss b.space_ids in
      let found : first (λ s. s.id == sid) ss ≡ some space =
        first_by_key (λ s. s.id) (λ s. s.id == sid) ss space ids here ((==_iff space.id sid).1 same)
          (λ s e. (==_iff s.id sid).0 e ∙ sym same) in
      record {
        space_ids =
            subst Unique
              (sym (map-change_first (λ s. s.id) (λ s. s.id == sid) (deleted now) ss (λ s. refl)))
              b.space_ids;
        member_ids =
            subst Unique
              (sym (
                map-change_all (λ x. x.id) (active_in sid) (closes now) ms
                  (λ x. (closed_same x).1)))
              b.member_ids;
        once =
            subst Unique
              (sym (map-change_all pair (active_in sid) (closes now) ms (λ x. (closed_same x).0)))
              b.once;
        owned =
            All-change_first (λ (s : Space). s.id) (λ s. s.id == sid) (deleted now) ss space ids
              found b.owned
              (λ s ne o live.
                Finds-change_all (member_filter s.id s.owner_id) (active_in sid) (closes now) ms
                  (λ x i y e. absurd (
                    ne (
                      sym (member_filter-true s.id s.owner_id x e).0
                      ∙ active_in-true sid x y
                      ∙ sym same)))
                  (o live))
              (λ o live. cc);
        housed =
            All-change_all (active_in sid) (closes now) ms (λ x i y h. Housed-closed ss x h)
              (λ x i n h. (
                Known-all ss sid x.space_id now h.0,
                λ a. Live-other ss sid x.space_id now (active_in-false sid x n a) (h.1 a),
              ))
              b.housed;
        open_invites =
            All-change_all (pending_in sid) (revoked_with_space user_id now) invites
              (λ i j y h. Invites-closed (change_first (λ s. s.id == sid) (deleted now) ss) i)
              (λ i j n h p. Live-other ss sid i.space_id now (pending_in-false sid i n p) (h p))
              b.open_invites;
      }
