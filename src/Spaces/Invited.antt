-- ===== src/Spaces/Invited.antt =====
-- What an invitation can still do after it is accepted or revoked, and what the operations on
-- invitations keep (src/modules/spaces/space-invitations.service.ts).
use mathlib.Core.Path.{subst}
use babki_back.Prelude.{
  ◌≡◌, ◌≢◌, ◌+◌, ◌*◌, ◌&&◌, ◌||◌, true, false, not, sym, refl, ap, ◌∙◌, Bool, none, some, is_some,
  List, [], ◌∷◌, arith, ◌==◌, leb, map, All,
}
use babki_back.Dates.{Date, day_ms}
use babki_back.Mongo.{Mongo, first, change_first}
use babki_back.Mongo.Lookup.{first-In, first_matches}
use babki_back.Mongo.Distinct.{All-change_first}
use babki_back.Mongo.Writes.{Finds-of_some, some_of_Finds, Unique, Unique-In, Distinct-of_Unique}
use babki_back.Http.{
  ok, err, bad_request, not_found, conflict, invalid_invitation, invitation_not_found,
  invitation_not_pending,
}
use babki_back.Schemas.{Db, ObjectId, Token, Digest, SpaceInvitation}
use babki_back.Budget.{space_budget}
use babki_back.Access.{serialize_mutation, require_owner}
use babki_back.Access.Atomic.{serialize_ok}
use babki_back.Spaces.{is_pending}
use babki_back.Spaces.Book.{IsSpaceBook, SpaceBook, Live}
use babki_back.Spaces.Changes.{change_invites, add_invite}
use babki_back.Spaces.Keeps.{started-IsSpaceBook}
use babki_back.Spaces.Started.{owner_ok}
use babki_back.Spaces.Invitations.{
  Hash, IssuedInvitation, Accepted, token_filter, acceptable, mark_accepted, mark_revoked,
  invitation_document, pending_invitation, accept_invitation, create_invitation, revoke_invitation,
}
use babki_back.Spaces.Accept.{accept_ok, started-Live}
use babki_back.Session.{raise_if, or_raise}
use babki_back.Session.Inversion.{bind_ok, raise_if_ok, or_raise_ok, pure_ok}
use babki_back.Spaces.Joined.{IsIndexed, accepted_ends, revoked_ends}

not_usable :
    (d : Digest) (t : Date) (i : SpaceInvitation)
    → is_pending i.status ≡ false
    → token_filter d t i ≡ false
unfolding token_filter
not_usable d t i h = ground arith

token_filter-true :
    (d : Digest) (t : Date) (i : SpaceInvitation) → token_filter d t i ≡ true → i.token_digest ≡ d
unfolding token_filter
token_filter-true d t i h = ground arith

other_token :
    (d : Digest) (t : Date) (i : SpaceInvitation) → i.token_digest ≢ d → token_filter d t i ≡ false
unfolding token_filter
other_token d t i h = ground arith

acceptable-true :
    (id : ObjectId) (t : Date) (i : SpaceInvitation) → acceptable id t i ≡ true → i.id ≡ id
unfolding acceptable
acceptable-true id t i h = ground arith

none_matches :
    (p : SpaceInvitation → Bool) (c : List SpaceInvitation)
    → All (λ i. p i ≡ false) c
    → first p c ≡ none
unfolding first
none_matches p [] a = refl
none_matches p (i ∷ c) a = rw a.0 (none_matches p c a.1)

module _ ⦃m : Mongo⦄ ⦃hash : Hash⦄ where
  -- A token of which no invitation is usable is refused.
  refused :
      (user_id : ObjectId) (token : Token) (early late now : Date) (db : Db)
      → first (token_filter (hash.digest token) early) db.invitations ≡ none
      → accept_invitation user_id token early late now db ≡ err (bad_request invalid_invitation)
  unfolding accept_invitation pending_invitation
  refused user_id token early late now db h =
      let nobody = m.find_one_law (token_filter (hash.digest token) early) db.invitations ∙ h in
      ground arith

  -- After an invitation is accepted, its token is refused, to whoever comes with it and whenever, if
  -- no two invitations have the same id or the same token.
  pub accept_invitation_once :
      (user_id : ObjectId) (token : Token) (early late now : Date) (r : Accepted) (db db' : Db)
      → IsIndexed db.invitations
      → accept_invitation user_id token early late now db ≡ ok (r, db')
      → (other : ObjectId) (e l n : Date)
      → accept_invitation other token e l n db' ≡ err (bad_request invalid_invitation)
  accept_invitation_once user_id token early late now r db db' x h other e l n =
      let a = accept_ok user_id token early late now r db db' h in
      let i = a.invitation in
      let c = a.start.invitations in
      let same : c ≡ db.invitations = ap (λ (z : Db). z.invitations) a.started.touched in
      let ids = subst (λ z. Unique (map (λ y. y.id) z)) (sym same) x.ids in
      let digests = subst (λ z. Unique (map (λ y. y.token_digest) z)) (sym same) x.digests in
      let d = hash.digest token in
      let q = acceptable i.id now in
      let mine =
        token_filter-true d late i (first_matches (token_filter d late) c i a.still_pending) in
      let (found, hit) =
        some_of_Finds q c
          (Finds-of_some q c (ap is_some (sym (m.find_one_law q c)) ∙ a.admitted.in_time)) in
      let is_i : found ≡ i =
        Unique-In (λ y. y.id) c found i ids (first-In q c found hit)
          (first-In (token_filter d late) c i a.still_pending)
          (acceptable-true i.id now found (first_matches q c found hit)) in
      let gone =
        All-change_first (λ y. y.token_digest) {P = λ y. Unit} {Q = λ y. token_filter d e y ≡ false}
          q (mark_accepted user_id now) c i (Distinct-of_Unique (λ y. y.token_digest) c digests)
          (subst (λ z. first q c ≡ some z) is_i hit) (everything c)
          (λ y ne u. other_token d e y (λ q. ne (q ∙ sym mine)))
          (λ u. not_usable d e (mark_accepted user_id now i) (accepted_ends user_id now i)) in
      let after = a.admitted.invites_after ∙ m.update_one_law q (mark_accepted user_id now) c in
      refused other token e l n db' (
        ap (first (token_filter d e)) after
        ∙ none_matches (token_filter d e) (change_first q (mark_accepted user_id now) c) gone)
    where
      everything : (c : List SpaceInvitation) → All (λ y. Unit {0}) c
      everything [] = tt
      everything (y ∷ c) = (tt, everything c)

  pub create_invitation-IsSpaceBook :
      (user_id sid : ObjectId) (token : Token) (now : Date) (r : IssuedInvitation) (db db' : Db)
      → create_invitation user_id sid token now db ≡ ok (r, db')
      → IsSpaceBook db
      → IsSpaceBook db'
  unfolding create_invitation invitation_document
  create_invitation-IsSpaceBook user_id sid token now r db db' h b =
      let (s, d1, h1, k1) = bind_ok (serialize_mutation sid) _ db h in
      let (space, d2, h2, k2) = bind_ok (require_owner sid user_id) _ d1 k1 in
      let started = serialize_ok (space_budget sid) s db d1 h1 in
      let (same, live, joined, owns) = owner_ok sid user_id space d1 d2 h2 in
      let b1 = started-IsSpaceBook sid db d1 started b in
      let b2 = subst IsSpaceBook (sym same) b1 in
      let live2 =
        subst (λ (z : Db). Live z.spaces sid) (sym same) (started-Live sid db d1 started) in
      let i =
        invitation_document sid user_id (hash.digest token) (now + 7 * day_ms)
          (m.object_id (map (λ y. y.id) d2.invitations)) in
      subst IsSpaceBook (pure_ok _ r _ db' k2).1 (
        subst (SpaceBook d2.spaces d2.memberships) (sym (m.insert_law i d2.invitations))
          (add_invite d2.spaces d2.memberships d2.invitations i live2 b2))

  pub revoke_invitation-IsSpaceBook :
      (user_id sid id : ObjectId) (now : Date) (db db' : Db)
      → revoke_invitation user_id sid id now db ≡ ok (tt, db')
      → IsSpaceBook db
      → IsSpaceBook db'
  unfolding revoke_invitation
  revoke_invitation-IsSpaceBook user_id sid id now db db' h b =
      let (s, d1, h1, k1) = bind_ok (serialize_mutation sid) _ db h in
      let (space, d2, h2, k2) = bind_ok (require_owner sid user_id) _ d1 k1 in
      let (same, live, joined, owns) = owner_ok sid user_id space d1 d2 h2 in
      let p : SpaceInvitation → Bool = λ i. i.id == id && i.space_id == sid in
      let (i, d3, h3, k3) =
        bind_ok (or_raise (m.find_one p d2.invitations) (not_found invitation_not_found)) _ d2 k2 in
      let (found, e3) = or_raise_ok (m.find_one p d2.invitations) _ d2 d3 i h3 in
      let over = not (is_pending i.status) || leb i.expires_at now in
      let (u4, d4, h4, k4) = bind_ok (raise_if over (conflict invitation_not_pending)) _ d3 k3 in
      let (open_still, e4) = raise_if_ok over _ d3 d4 h4 in
      let q : SpaceInvitation → Bool = λ x. x.id == id && is_pending x.status in
      let b1 = started-IsSpaceBook sid db d1 (serialize_ok (space_budget sid) s db d1 h1) b in
      let b4 = subst IsSpaceBook (sym (e4 ∙ e3 ∙ same)) b1 in
      subst IsSpaceBook (pure_ok tt tt _ db' k4).1 (
        subst (SpaceBook d4.spaces d4.memberships)
          (sym (m.update_one_law q (mark_revoked user_id now) d4.invitations))
          (change_invites d4.spaces d4.memberships d4.invitations q (mark_revoked user_id now)
            (revoked_ends user_id now) b4))
