-- ===== src/Spaces/History.antt =====
-- What holds after any sequence of operations on spaces
-- (src/modules/spaces/spaces.service.ts, src/modules/spaces/space-invitations.service.ts).
use mathlib.Core.Path.{subst}
use babki_back.Prelude.{◌≡◌, Bool, true, false, not, ◌&&◌, is_some, inl, inr, Bool-cases, some}
use babki_back.Dates.{Date}
use babki_back.Mongo.{Mongo, first}
use babki_back.Http.{ok}
use babki_back.Schemas.{Db, ObjectId, Token, Space}
use babki_back.Access.{Transactions, space_filter}
use babki_back.Session.{Action}
use babki_back.Access.Runs.{left_by, run_keeps}
use babki_back.Spaces.Invitations.{
  Hash, create_invitation, revoke_invitation, accept_invitation, invite, revoke, accept,
}
use babki_back.Spaces.Joined.{accept-IsSpaceBook}
use babki_back.Spaces.Invited.{create_invitation-IsSpaceBook, revoke_invitation-IsSpaceBook}
use babki_back.Spaces.{CreateSpace, UpdateSpace, UpdateSpacePermissions, changes_nothing}
use babki_back.Spaces.Actions.{
  mutation, create_space, update_space, remove_space, change_permissions, leave_space, expel_member,
  hand_over,
}
use babki_back.Spaces.Service.{
  mutate, create, update, remove, update_permissions, leave, remove_member, transfer_ownership,
}
use babki_back.Spaces.Book.{IsSpaceBook}
use babki_back.Spaces.Started.{mutation_ok}
use babki_back.Spaces.Keeps.{
  started-IsSpaceBook, leave-IsSpaceBook, expel-IsSpaceBook, change_permissions-IsSpaceBook,
  update_space-IsSpaceBook, remove_space-IsSpaceBook,
}
use babki_back.Spaces.Ownership.{create_space-IsSpaceBook, hand_over_ok, hand_over-IsSpaceBook}

module _ ⦃m : Mongo⦄ ⦃t : Transactions⦄ ⦃hash : Hash⦄ where
  -- One operation, whatever it returns.
  pub data Step (db db' : Db) : Type 0 where
    creates :
        (user_id : ObjectId) (dto : CreateSpace) (now : Date)
        → left_by (create user_id dto now db) ≡ db'
        → Step db db'
    updates :
        (user_id space_id : ObjectId) (dto : UpdateSpace)
        → left_by (update user_id space_id dto db) ≡ db'
        → Step db db'
    removes :
        (user_id space_id : ObjectId) (now : Date)
        → left_by (remove user_id space_id now db) ≡ db'
        → Step db db'
    permits :
        (actor_id space_id user_id : ObjectId) (dto : UpdateSpacePermissions) (now : Date)
        → left_by (update_permissions actor_id space_id user_id dto now db) ≡ db'
        → Step db db'
    leaves :
        (user_id space_id : ObjectId) (now : Date)
        → left_by (leave user_id space_id now db) ≡ db'
        → Step db db'
    expels :
        (actor_id space_id user_id : ObjectId) (now : Date)
        → left_by (remove_member actor_id space_id user_id now db) ≡ db'
        → Step db db'
    transfers :
        (actor_id space_id user_id : ObjectId) (now : Date)
        → left_by (transfer_ownership actor_id space_id user_id now db) ≡ db'
        → Step db db'
    invites :
        (user_id space_id : ObjectId) (token : Token) (now : Date)
        → left_by (invite user_id space_id token now db) ≡ db'
        → Step db db'
    revokes :
        (user_id space_id invitation_id : ObjectId) (now : Date)
        → left_by (revoke user_id space_id invitation_id now db) ≡ db'
        → Step db db'
    accepts :
        (user_id : ObjectId) (token : Token) (early late now : Date)
        → left_by (accept user_id token early late now db) ≡ db'
        → Step db db'

  pub data Reach (db : Db) : Db → Type 0 where
    here : Reach db db
    next : {db₁ db₂ : Db} → Reach db db₁ → Step db₁ db₂ → Reach db db₂

  -- Work that keeps the promises on a space that is not deleted keeps them as an operation.
  mutate_keeps :
      {A : Type 0} (user_id space_id : ObjectId) (owner_only : Bool) (work : Space → Action A)
      (db : Db)
      → ((space : Space) (a : A) (start db' : Db)
          → first (space_filter space_id) start.spaces ≡ some space
          → work space start ≡ ok (a, db')
          → IsSpaceBook start
          → IsSpaceBook db')
      → IsSpaceBook db
      → IsSpaceBook (left_by (mutate user_id space_id owner_only work db))
  unfolding mutate
  mutate_keeps user_id space_id owner_only work db keeps b =
      run_keeps IsSpaceBook (mutation user_id space_id owner_only work) db
        (λ a db' h b.
          let (s, k) = mutation_ok user_id space_id owner_only work a db db' h in
          keeps s.space a s.start db' s.live k
            (started-IsSpaceBook space_id db s.start s.started b))
        b

  -- An operation keeps what the spaces promise: the owner of every space that is not deleted is an
  -- active member of it, active memberships and pending invitations are to spaces that are not
  -- deleted, and nobody is a member of a space twice.
  Step-IsSpaceBook : (db db' : Db) → Step db db' → IsSpaceBook db → IsSpaceBook db'
  unfolding invite revoke accept update update_permissions create remove leave remove_member
      transfer_ownership
  Step-IsSpaceBook db db' (creates u dto now e) b = subst IsSpaceBook e (
      run_keeps IsSpaceBook (create_space u dto now) db
        (λ r d h. create_space-IsSpaceBook u dto now r db d h) b)
  Step-IsSpaceBook db db' (removes u s now e) b = subst IsSpaceBook e (
      mutate_keeps u s true (remove_space u s now) db
        (λ space a start d live h. remove_space-IsSpaceBook u s now space start d live h) b)
  Step-IsSpaceBook db db' (leaves u s now e) b = subst IsSpaceBook e (
      mutate_keeps u s false (leave_space u s now) db
        (λ space a start d live h. leave-IsSpaceBook u s now space start d live h) b)
  Step-IsSpaceBook db db' (expels a s u now e) b = subst IsSpaceBook e (
      mutate_keeps a s true (expel_member a s u now) db
        (λ space x start d live h. expel-IsSpaceBook a s u now space start d live h) b)
  Step-IsSpaceBook db db' (transfers a s u now e) b = subst IsSpaceBook e (
      mutate_keeps a s true (hand_over a s u now) db
        (λ space r start d live h.
          hand_over-IsSpaceBook a s u space r start d live
            (hand_over_ok a s u now space r start d h))
        b)
  Step-IsSpaceBook db db' (updates u s dto e) b =
      subst IsSpaceBook e
        (elim (Bool-cases (not (is_some dto.name) && not (is_some dto.description))) [
          | inl y ↦ rw y b
          | inr n ↦ rw n (
              mutate_keeps u s true (update_space u dto) db
                (λ space r start d live h. update_space-IsSpaceBook u dto space r start d h) b)
        ])
  Step-IsSpaceBook db db' (permits a s u dto now e) b =
      subst IsSpaceBook e (elim (Bool-cases (changes_nothing dto)) [
        | inl y ↦ rw y b
        | inr n ↦ rw n (
            mutate_keeps a s true (change_permissions a s u dto now) db
              (λ space p start d live h.
                change_permissions-IsSpaceBook a s u dto now space p start d h)
              b)
      ])
  Step-IsSpaceBook db db' (invites u s token now e) b = subst IsSpaceBook e (
      run_keeps IsSpaceBook (create_invitation u s token now) db
        (λ r d h. create_invitation-IsSpaceBook u s token now r db d h) b)
  Step-IsSpaceBook db db' (revokes u s i now e) b = subst IsSpaceBook e (
      run_keeps IsSpaceBook (revoke_invitation u s i now) db
        (λ r d h. revoke_invitation-IsSpaceBook u s i now db d h) b)
  Step-IsSpaceBook db db' (accepts u token early late now e) b = subst IsSpaceBook e (
      run_keeps IsSpaceBook (accept_invitation u token early late now) db
        (λ r d h. accept-IsSpaceBook u token early late now r db d h) b)

  -- After any sequence of operations on spaces and invitations, failed ones included, the owner of
  -- every space that is not deleted is an active member of it, active memberships and pending
  -- invitations are to spaces that are not deleted, nobody is a member of a space twice, and ids of
  -- spaces and memberships are distinct, if all this held before.
  pub reach-IsSpaceBook : {db db' : Db} → IsSpaceBook db → Reach db db' → IsSpaceBook db'
  reach-IsSpaceBook b here = b
  reach-IsSpaceBook b (next r s) = Step-IsSpaceBook _ _ s (reach-IsSpaceBook b r)
