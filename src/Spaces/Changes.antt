-- ===== src/Spaces/Changes.antt =====
-- The writes to spaces and invitations that keep the promises of the spaces
-- (src/modules/spaces/spaces.service.ts).
use mathlib.Core.Path.{subst}
use babki_back.Prelude.{
  ◌≡◌, true, false, sym, refl, ap, ◌∙◌, Bool, none, List, [], ◌∷◌, ◌++◌, arith, In, inl, inr, ◌==◌,
  ==_iff, map,
}
use babki_back.Mongo.{change_first}
use babki_back.Mongo.Distinct.{All-In, All-append, All-map}
use babki_back.Mongo.Writes.{
  Finds-change_first, Finds-append, Finds-append_new, All-change, map-change_first, In-map_inv,
  Unique, Unique-append, map-append,
}
use babki_back.Schemas.{ObjectId, Space, SpaceMembership, SpaceInvitation}
use babki_back.Access.{space_filter, member_filter}
use babki_back.Spaces.{is_pending}
use babki_back.Spaces.Book.{pair, Owned, Known, Live, Housed, Invites, SpaceBook}

false-true : ¬ (false ≡ true)
false-true h = cc

-- A change of spaces keeps which spaces there are.
pub record KeepsSpace (f : Space → Space) : Type 0 where
  pub id : (s : Space) → (f s).id ≡ s.id
  pub deleted_at : (s : Space) → (f s).deleted_at ≡ s.deleted_at

Known-change :
    (ss : List Space) (q : Space → Bool) (f : Space → Space) (id : ObjectId)
    → ((s : Space) → (f s).id ≡ s.id)
    → Known ss id
    → Known (change_first q f ss) id
Known-change ss q f id k h =
    Finds-change_first (λ s. s.id == id) q f ss (λ s i y e. ap (λ z. z == id) (k s) ∙ e) h

space_same :
    (f : Space → Space) (id : ObjectId) (s : Space)
    → KeepsSpace f
    → space_filter id (f s) ≡ space_filter id s
unfolding space_filter
space_same f id s k = rw (k.id s, k.deleted_at s) refl

pub Live-change :
    (ss : List Space) (q : Space → Bool) (f : Space → Space) (id : ObjectId)
    → KeepsSpace f
    → Live ss id
    → Live (change_first q f ss) id
Live-change ss q f id k h =
    Finds-change_first (space_filter id) q f ss (λ s i y e. space_same f id s k ∙ e) h

-- Spaces change, and each still has its owner as a member.
pub change_spaces :
    (ss : List Space) (ms : List SpaceMembership) (invites : List SpaceInvitation)
    (q : Space → Bool) (f : Space → Space)
    → KeepsSpace f
    → ((s : Space) → q s ≡ true → Owned ms s → Owned ms (f s))
    → SpaceBook ss ms invites
    → SpaceBook (change_first q f ss) ms invites
change_spaces ss ms invites q f k owner b = record {
  space_ids = subst Unique (sym (map-change_first (λ s. s.id) q f ss k.id)) b.space_ids;
  member_ids = b.member_ids;
  once = b.once;
  owned = All-change q f ss (λ s i y o. owner s y o) (λ s i o. o) b.owned;
  housed =
      All-map ms
        (λ x h.
          (Known-change ss q f x.space_id k.id h.0, λ a. Live-change ss q f x.space_id k (h.1 a)))
        b.housed;
  open_invites = All-map invites (λ i h p. Live-change ss q f i.space_id k (h p)) b.open_invites;
}

pub change_invites :
    (ss : List Space) (ms : List SpaceMembership) (invites : List SpaceInvitation)
    (q : SpaceInvitation → Bool) (f : SpaceInvitation → SpaceInvitation)
    → ((i : SpaceInvitation) → is_pending (f i).status ≡ false)
    → SpaceBook ss ms invites
    → SpaceBook ss ms (change_first q f invites)
change_invites ss ms invites q f ends b = record {
  space_ids = b.space_ids;
  member_ids = b.member_ids;
  once = b.once;
  owned = b.owned;
  housed = b.housed;
  open_invites =
      All-change q f invites (λ i j y h p. absurd (false-true (sym (ends i) ∙ p))) (λ i j h. h)
        b.open_invites;
}

pub add_invite :
    (ss : List Space) (ms : List SpaceMembership) (invites : List SpaceInvitation)
    (i : SpaceInvitation)
    → Live ss i.space_id
    → SpaceBook ss ms invites
    → SpaceBook ss ms (invites ++ i ∷ [])
add_invite ss ms invites i live b = record {
  space_ids = b.space_ids;
  member_ids = b.member_ids;
  once = b.once;
  owned = b.owned;
  housed = b.housed;
  open_invites = All-append (Invites ss) invites i b.open_invites (λ p. live);
}

-- A new member of a space that is not deleted.
pub add_member :
    (ss : List Space) (ms : List SpaceMembership) (invites : List SpaceInvitation)
    (x : SpaceMembership)
    → Known ss x.space_id
    → Live ss x.space_id
    → ¬ (In x.id (map (λ y. y.id) ms))
    → ¬ (In (pair x) (map pair ms))
    → SpaceBook ss ms invites
    → SpaceBook ss (ms ++ x ∷ []) invites
add_member ss ms invites x known live new fresh b = record {
  space_ids = b.space_ids;
  member_ids =
      subst Unique (sym (map-append (λ y. y.id) ms x)) (Unique-append _ x.id b.member_ids new);
  once = subst Unique (sym (map-append pair ms x)) (Unique-append _ (pair x) b.once fresh);
  owned = All-map ss (λ s o l. Finds-append (member_filter s.id s.owner_id) ms x (o l)) b.owned;
  housed = All-append (Housed ss) ms x b.housed (known, λ a. live);
  open_invites = b.open_invites;
}

-- A new space, whose id no space has.
pub add_space :
    (ss : List Space) (ms : List SpaceMembership) (invites : List SpaceInvitation) (s : Space)
    (x : SpaceMembership)
    → ¬ (In s.id (map (λ y. y.id) ss))
    → s.deleted_at ≡ none
    → x.space_id ≡ s.id
    → ¬ (In x.id (map (λ y. y.id) ms))
    → member_filter s.id s.owner_id x ≡ true
    → SpaceBook ss ms invites
    → SpaceBook (ss ++ s ∷ []) (ms ++ x ∷ []) invites
unfolding space_filter
add_space ss ms invites s x fresh live home new joined b = record {
  space_ids =
      subst Unique (sym (map-append (λ y. y.id) ss s)) (Unique-append _ s.id b.space_ids fresh);
  member_ids =
      subst Unique (sym (map-append (λ y. y.id) ms x)) (Unique-append _ x.id b.member_ids new);
  once = subst Unique (sym (map-append pair ms x)) (Unique-append _ (pair x) b.once unpaired);
  owned =
      All-append (Owned (ms ++ x ∷ [])) ss s
        (All-map ss (λ y o l. Finds-append (member_filter y.id y.owner_id) ms x (o l)) b.owned)
        (λ l. Finds-append_new (member_filter s.id s.owner_id) ms x joined);
  housed =
      All-append (Housed (ss ++ s ∷ [])) ms x
        (All-map ms
          (λ y h. (
            Finds-append (λ z. z.id == y.space_id) ss s h.0,
            λ a. Finds-append (space_filter y.space_id) ss s (h.1 a),
          ))
          b.housed)
        (
          Finds-append_new (λ z. z.id == x.space_id) ss s ((==_iff s.id x.space_id).1 (sym home)),
          λ a. Finds-append_new (space_filter x.space_id) ss s (ground arith),
        );
  open_invites =
      All-map invites (λ i h p. Finds-append (space_filter i.space_id) ss s (h p)) b.open_invites;
}
  where
    known_id : (id : ObjectId) (c : List Space) → Known c id → In id (map (λ y. y.id) c)
    known_id id [] h = absurd h
    known_id id (y ∷ c) (inl q) = inl (sym ((==_iff y.id id).0 q))
    known_id id (y ∷ c) (inr h) = inr (known_id id c h)

    unpaired : ¬ (In (pair x) (map pair ms))
    unpaired h =
        let (y, i, q) = In-map_inv pair ms (pair x) h in
        fresh (
          subst (λ z. In z (map (λ y. y.id) ss)) (ap (λ (z : ObjectId × ObjectId). z.0) q ∙ home)
            (known_id y.space_id ss (All-In (Housed ss) ms y b.housed i).0))
