-- ===== src/Spaces/Book.antt =====
-- What spaces, memberships and invitations promise together, and the writes that keep it
-- (src/modules/spaces/spaces.service.ts).
use mathlib.Core.Path.{subst}
use babki_back.Prelude.{◌≡◌, true, sym, refl, ap, ◌∙◌, Bool, none, List, All, In, ◌==◌, map}
use babki_back.Mongo.{change_first}
use babki_back.Mongo.Writes.{
  Finds, Finds-change_first, All-map-In, All-change, map-change_first, Unique,
}
use babki_back.Schemas.{Db, ObjectId, Space, SpaceMembership, SpaceInvitation}
use babki_back.Access.{is_active, space_filter, member_filter}
use babki_back.Spaces.{is_pending}

abbrev pub pair : SpaceMembership → ObjectId × ObjectId
pair x = (x.space_id, x.user_id)

-- The owner of a space that is not deleted is an active member of it.
abbrev pub Owned : List SpaceMembership → Space → Type 0
Owned ms s = s.deleted_at ≡ none → Finds (member_filter s.id s.owner_id) ms

abbrev pub Known : List Space → ObjectId → Type 0
Known ss id = Finds (λ s. s.id == id) ss

abbrev pub Live : List Space → ObjectId → Type 0
Live ss id = Finds (space_filter id) ss

-- A membership is of a space that there is, and of one that is not deleted if it is active.
abbrev pub Housed : List Space → SpaceMembership → Type 0
Housed ss x = Known ss x.space_id × (is_active x.status ≡ true → Live ss x.space_id)

-- A pending invitation is to a space that is not deleted.
abbrev pub Invites : List Space → SpaceInvitation → Type 0
Invites ss i = is_pending i.status ≡ true → Live ss i.space_id

pub record SpaceBook (ss : List Space) (ms : List SpaceMembership) (invites : List SpaceInvitation)
    : Type 0 where
  pub space_ids : Unique (map (λ s. s.id) ss)
  pub member_ids : Unique (map (λ x. x.id) ms)
  -- No user is a member of a space twice.
  pub once : Unique (map pair ms)
  pub owned : All (Owned ms) ss
  pub housed : All (Housed ss) ms
  pub open_invites : All (Invites ss) invites

abbrev pub IsSpaceBook : Db → Type 0
IsSpaceBook db = SpaceBook db.spaces db.memberships db.invitations

-- A change of memberships keeps who is whose.
pub record KeepsMember (f : SpaceMembership → SpaceMembership) : Type 0 where
  pub id : (x : SpaceMembership) → (f x).id ≡ x.id
  pub pair : (x : SpaceMembership) → ((f x).space_id ≡ x.space_id) × ((f x).user_id ≡ x.user_id)

pair_same :
    (f : SpaceMembership → SpaceMembership)
    → KeepsMember f
    → (x : SpaceMembership) → pair (f x) ≡ pair x
pair_same f k x = rw ((k.pair x).0, (k.pair x).1) refl

-- The memberships that match change, none of them that an owner needs, and none becomes active.
pub change_members :
    (ss : List Space) (ms : List SpaceMembership) (invites : List SpaceInvitation)
    (q : SpaceMembership → Bool) (f : SpaceMembership → SpaceMembership)
    → KeepsMember f
    → ((s : Space) (x : SpaceMembership)
        → In s ss
        → s.deleted_at ≡ none
        → q x ≡ true
        → member_filter s.id s.owner_id x ≡ true
        → member_filter s.id s.owner_id (f x) ≡ true)
    → ((x : SpaceMembership) → q x ≡ true → is_active (f x).status ≡ true → Live ss x.space_id)
    → SpaceBook ss ms invites
    → SpaceBook ss (change_first q f ms) invites
change_members ss ms invites q f k keeps lives b = record {
  space_ids = b.space_ids;
  member_ids = subst Unique (sym (map-change_first (λ x. x.id) q f ms k.id)) b.member_ids;
  once = subst Unique (sym (map-change_first pair q f ms (pair_same f k))) b.once;
  owned =
      All-map-In ss
        (λ s i o live.
          Finds-change_first (member_filter s.id s.owner_id) q f ms
            (λ x j y h. keeps s x i live y h) (o live))
        b.owned;
  housed =
      All-change q f ms
        (λ x i y h. (
          subst (Known ss) (sym (k.pair x).0) h.0,
          λ a. subst (Live ss) (sym (k.pair x).0) (lives x y a),
        ))
        (λ x i h. h) b.housed;
  open_invites = b.open_invites;
}

-- The permissions of members change.
pub record SetsPermissions (f : SpaceMembership → SpaceMembership) : Type 0 where
  pub member : KeepsMember f
  pub status : (x : SpaceMembership) → (f x).status ≡ x.status

pub filter_same :
    (f : SpaceMembership → SpaceMembership) (s u : ObjectId) (x : SpaceMembership)
    → SetsPermissions f
    → member_filter s u (f x) ≡ member_filter s u x
unfolding member_filter
filter_same f s u x k = rw ((k.member.pair x).0, (k.member.pair x).1, k.status x) refl

pub change_permissions_book :
    (ss : List Space) (ms : List SpaceMembership) (invites : List SpaceInvitation) (id : ObjectId)
    (f : SpaceMembership → SpaceMembership)
    → SetsPermissions f
    → SpaceBook ss ms invites
    → SpaceBook ss (change_first (λ x. x.id == id) f ms) invites
change_permissions_book ss ms invites id f k b = record {
  space_ids = b.space_ids;
  member_ids =
      subst Unique (sym (map-change_first (λ x. x.id) (λ x. x.id == id) f ms k.member.id))
        b.member_ids;
  once =
      subst Unique (sym (map-change_first pair (λ x. x.id == id) f ms (pair_same f k.member)))
        b.once;
  owned =
      All-map-In ss
        (λ s i o live.
          Finds-change_first (member_filter s.id s.owner_id) (λ x. x.id == id) f ms
            (λ x j y h. filter_same f s.id s.owner_id x k ∙ h) (o live))
        b.owned;
  housed =
      All-change (λ x. x.id == id) f ms
        (λ x i y h. (
          subst (Known ss) (sym (k.member.pair x).0) h.0,
          λ a.
              subst (Live ss) (sym (k.member.pair x).0) (h.1 (ap is_active (sym (k.status x)) ∙ a)),
        ))
        (λ x i h. h) b.housed;
  open_invites = b.open_invites;
}
