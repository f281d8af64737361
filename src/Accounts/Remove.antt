-- ===== src/Accounts/Remove.antt =====
-- Which accounts are removed (src/modules/accounts/accounts/accounts.service.ts, `removeForBudget`).
use mathlib.Core.Path.{subst}
use babki_back.Prelude.{
  ◌≡◌, ◌≢◌, ◌⊎◌, inl, inr, In, ◌+◌, refl, sym, ap, ◌∙◌, Bool, true, false, ◌&&◌, not, Option, none,
  some, is_some, arith, map, ◌==◌,
}
use babki_back.Prelude.Int.{pos, eq_ℤ, eq_of_parts}
use babki_back.Money.{Amount, Intl}
use babki_back.Mongo.{Mongo, first, drop_first, change_first}
use babki_back.Mongo.Lookup.{first_before, first-In, first_matches}
use babki_back.Mongo.Writes.{Finds, Finds-In, Unique, map-change_first}
use babki_back.Mongo.Gone.{nothing_found, drop_first_gone, drop_all_gone}
use babki_back.Http.{ok, not_found, conflict, account_not_found, wallet_has_history}
use babki_back.Schemas.{
  Db, ObjectId, Account, AccountSnapshot, Transaction, TransactionDetail, income, expense, transfer,
}
use babki_back.Budget.{BudgetContext, budget_filter}
use babki_back.Snapshots.{detail_concerns}
use babki_back.Snapshots
use babki_back.Transactions.Defs.{has_history_for_budget}
use babki_back.Accounts.{
  account_filter, lock_account_for_lifecycle, has_initial_amount, remove_for_budget,
}
use babki_back.Session.{raise_if, or_raise}
use babki_back.Session.Inversion.{bind_ok, raise_if_ok, or_raise_ok, pure_ok}

account_filter-id :
    (budget : BudgetContext) (id : ObjectId) (a : Account)
    → account_filter budget id a ≡ true
    → a.id ≡ id
unfolding account_filter
account_filter-id budget id a h = ground arith

account_filter-true :
    (budget : BudgetContext) (id : ObjectId) (a : Account)
    → account_filter budget id a ≡ true
    → (a.id ≡ id) × (a.space_id ≡ budget.space_id)
unfolding account_filter
account_filter-true budget id a h = (ground arith, ground arith)

account_filter_of :
    (budget : BudgetContext) (id : ObjectId) (a : Account)
    → a.id ≡ id
    → a.space_id ≡ budget.space_id
    → account_filter budget id a ≡ true
unfolding account_filter
account_filter_of budget id a e s = ground arith

zero_amount :
    (o : Option Amount)
    → elim o as (λ x. Bool) [ none ↦ true | some n ↦ not (eq_ℤ n (pos 0)) ] ≡ false
    → o ≡ some (pos 0)
zero_amount none h = cc
zero_amount (some n) h = let e : n ≡ pos 0 = eq_of_parts n (pos 0) (ground arith) in ap some e

no_amount : (a : Account) → has_initial_amount a ≡ false → a.initial_amount ≡ some (pos 0)
unfolding has_initial_amount
no_amount a h = zero_amount a.initial_amount h

touched_filter :
    (budget : BudgetContext) (id : ObjectId) (a : Account)
    → account_filter budget id (record a { mutation_version = a.mutation_version + 1 })
      ≡ account_filter budget id a
unfolding account_filter
touched_filter budget id a = refl

-- What the operation asks the ledger for.
abbrev history : BudgetContext → ObjectId → Transaction → Bool
history budget id tx = budget_filter budget tx.space_id && detail_concerns id tx.detail

-- A transaction moves money of an account.
abbrev pub Moves : ObjectId → TransactionDetail → Type 0
Moves id (income p) = p.account_id ≡ id
Moves id (expense p x) = p.account_id ≡ id
Moves id (transfer s d) = (s.account_id ≡ id) ⊎ (d.account_id ≡ id)

Moves-concerns : (id : ObjectId) (d : TransactionDetail) → Moves id d → detail_concerns id d ≡ true
unfolding detail_concerns
Moves-concerns id (income p) e = ground arith
Moves-concerns id (expense p x) e = ground arith
Moves-concerns id (transfer s d) (inl e) = ground arith
Moves-concerns id (transfer s d) (inr e) = ground arith

history-Moves :
    (budget : BudgetContext) (id : ObjectId) (tx : Transaction)
    → tx.space_id ≡ budget.space_id
    → Moves id tx.detail
    → history budget id tx ≡ true
history-Moves budget id tx s h = ground (arith, Moves-concerns id tx.detail h)

-- The account was opened with nothing and has no history, and nothing is left of it.
pub record IsRemoved (budget : BudgetContext) (id : ObjectId) (db db' : Db) : Type 0 where
  pub account : Account
  pub was : In account db.accounts × (account.id ≡ id) × (account.space_id ≡ budget.space_id)
  pub empty : account.initial_amount ≡ some (pos 0)
  pub ledger : db'.transactions ≡ db.transactions
  pub no_history :
      (tx : Transaction)
      → In tx db.transactions
      → tx.space_id ≡ budget.space_id
      → ¬ (Moves id tx.detail)
  pub no_snapshot : ¬ (Finds (λ (s : AccountSnapshot). s.account_id == id) db'.snapshots)
  pub gone : (a : Account) → In a db'.accounts → a.space_id ≡ budget.space_id → a.id ≢ id

module _ ⦃m : Mongo⦄ ⦃intl : Intl⦄ where
  -- The account in its new version.
  locked : BudgetContext → ObjectId → Db → Db
  locked budget id db = record db {
    accounts =
        m.update_one (account_filter budget id)
          (λ a. record a { mutation_version = a.mutation_version + 1 }) db.accounts;
  }

  lock_ok :
      (budget : BudgetContext) (id : ObjectId) (db db' : Db)
      → lock_account_for_lifecycle budget id db ≡ ok (tt, db')
      → db' ≡ locked budget id db
  unfolding lock_account_for_lifecycle locked
  lock_ok budget id db db' h =
      let missing = not (is_some (m.find_one (account_filter budget id) db.accounts)) in
      (raise_if_ok missing (not_found account_not_found)
        (record db {
          accounts =
              m.update_one (account_filter budget id)
                (λ a. record a { mutation_version = a.mutation_version + 1 }) db.accounts;
        })
        db' h).1

  snapshots_ok :
      (budget : BudgetContext) (id : ObjectId) (db db' : Db)
      → Snapshots.delete_for_budget budget id db ≡ ok (tt, db')
      → db' ≡ record db {
        snapshots = m.delete_many (λ (s : AccountSnapshot). s.account_id == id) db.snapshots;
      }
  unfolding Snapshots.delete_for_budget
  snapshots_ok budget id db db' h =
      let p : Account → Bool = λ a. a.id == id && budget_filter budget a.space_id in
      let missing = not (is_some (m.find_one p db.accounts)) in
      let (u1, d1, h1, k1) = bind_ok (raise_if missing (not_found account_not_found)) _ db h in
      let (owned, e1) = raise_if_ok missing _ db d1 h1 in
      sym (pure_ok tt tt _ db' k1).1
      ∙ ap
          (λ (z : Db). record z {
            snapshots = m.delete_many (λ (s : AccountSnapshot). s.account_id == id) z.snapshots;
          })
          e1

  history_ok :
      (budget : BudgetContext) (id : ObjectId) (b : Bool) (db db' : Db)
      → has_history_for_budget budget id db ≡ ok (b, db')
      → (is_some (m.find_one (history budget id) db.transactions) ≡ b) × (db' ≡ db)
  unfolding has_history_for_budget
  history_ok budget id b db db' h =
      let (e, e') = pure_ok (is_some (m.find_one (history budget id) db.transactions)) b db db' h in
      (e, sym e')

  -- What stood in the place of the account before it was touched.
  before :
      (budget : BudgetContext) (id : ObjectId) (a : Account) (db : Db)
      → m.find_one (account_filter budget id) (locked budget id db).accounts ≡ some a
      → (x : Account) × (first (account_filter budget id) db.accounts ≡ some x)
        × (x.initial_amount ≡ a.initial_amount)
  unfolding locked
  before budget id a db h =
      let p = account_filter budget id in
      let f : Account → Account = λ x. record x { mutation_version = x.mutation_version + 1 } in
      let seen : first p (change_first p f db.accounts) ≡ some a =
        ap (first p) (sym (m.update_one_law p f db.accounts))
        ∙ sym (m.find_one_law p (m.update_one p f db.accounts))
        ∙ h in
      let (x, here, q) = first_before p f db.accounts a (touched_filter budget id) seen in
      (x, here, ap (λ (z : Account). z.initial_amount) q)

  -- The snapshots of the account are deleted.
  swept : ObjectId → Db → Db
  swept id z = record z {
    snapshots = m.delete_many (λ (s : AccountSnapshot). s.account_id == id) z.snapshots;
  }

  swept_ok :
      (budget : BudgetContext) (id : ObjectId) (db db' : Db)
      → Snapshots.delete_for_budget budget id db ≡ ok (tt, db')
      → db' ≡ swept id db
  unfolding swept
  swept_ok budget id db db' h = snapshots_ok budget id db db' h

  finish :
      (budget : BudgetContext) (id : ObjectId) (a : Account) (db d1 d6 db' : Db)
      → Unique (map (λ (x : Account). x.id) db.accounts)
      → d1 ≡ locked budget id db
      → m.find_one (account_filter budget id) d1.accounts ≡ some a
      → has_initial_amount a ≡ false
      → d6 ≡ swept id d1
      → is_some (m.find_one (history budget id) d1.transactions) ≡ false
      → db' ≡ record d6 { accounts = m.delete_one (account_filter budget id) d6.accounts }
      → IsRemoved budget id db db'
  unfolding locked swept
  finish budget id a db d1 d6 db' u e1 found empty e6 nothing e7 =
      let p = account_filter budget id in
      let f : Account → Account = λ x. record x { mutation_version = x.mutation_version + 1 } in
      let (was, was_first, was_amount) =
        before budget id a db (ap (λ (z : Db). m.find_one p z.accounts) (sym e1) ∙ found) in
      let ledger6 =
        ap (λ (z : Db). z.transactions)
          (e7 ∙ ap (λ (z : Db). record z { accounts = m.delete_one p z.accounts }) e6) in
      let ledger1 = ap (λ (z : Db). z.transactions) e1 in
      let sweep = λ (s : AccountSnapshot). s.account_id == id in
      let snaps : db'.snapshots ≡ m.delete_many sweep d1.snapshots =
        ap (λ (z : Db). z.snapshots) e7 ∙ ap (λ (z : Db). z.snapshots) e6 in
      let accts : db'.accounts ≡ drop_first p d1.accounts =
        ap (λ (z : Db). z.accounts) e7
        ∙ ap (λ (z : Db). m.delete_one p z.accounts) e6
        ∙ m.delete_one_law p d1.accounts in
      let acct1 : d1.accounts ≡ change_first p f db.accounts =
        ap (λ (z : Db). z.accounts) e1 ∙ m.update_one_law p f db.accounts in
      let ids : Unique (map (λ (x : Account). x.id) d1.accounts) =
        subst (λ z. Unique (map (λ (x : Account). x.id) z)) (sym acct1)
          (subst Unique (sym (map-change_first (λ x. x.id) p f db.accounts (λ x. refl))) u) in
      record {
        account = was;
        was = (
          first-In p db.accounts was was_first,
          (account_filter-true budget id was (first_matches p db.accounts was was_first)).0,
          (account_filter-true budget id was (first_matches p db.accounts was was_first)).1,
        );
        empty = was_amount ∙ no_amount a empty;
        ledger = ledger6 ∙ ledger1;
        no_history = λ tx there home moves.
            nothing_found (history budget id) d1.transactions
              (ap is_some (sym (m.find_one_law (history budget id) d1.transactions)) ∙ nothing)
              (Finds-In (history budget id) d1.transactions tx (subst (In tx) (sym ledger1) there)
                (history-Moves budget id tx home moves));
        no_snapshot =
            subst (λ z. ¬ (Finds sweep z)) (sym (snaps ∙ m.delete_many_law sweep d1.snapshots))
              (drop_all_gone sweep d1.snapshots);
        gone = λ b there home same.
            drop_first_gone p (λ x. x.id) id d1.accounts ids (account_filter-id budget id)
              (Finds-In p (drop_first p d1.accounts) b (subst (In b) accts there)
                (account_filter_of budget id b same home));
      }

  -- An account, archived or not, is only removed when it was opened with nothing and no transaction
  -- of the space moves its money, deleted ones included. Then the account and its snapshots are
  -- gone, if ids are distinct, and the ledger is the same.
  pub remove_account-IsRemoved :
      (budget : BudgetContext) (id : ObjectId) (db db' : Db)
      → Unique (map (λ a. a.id) db.accounts)
      → remove_for_budget budget id db ≡ ok (tt, db')
      → IsRemoved budget id db db'
  unfolding remove_for_budget
  remove_account-IsRemoved budget id db db' u h =
      let p = account_filter budget id in
      let (u1, d1, h1, k1) = bind_ok (lock_account_for_lifecycle budget id) _ db h in
      let (a, d2, h2, k2) =
        bind_ok (or_raise (m.find_one p d1.accounts) (not_found account_not_found)) _ d1 k1 in
      let (found, e2) = or_raise_ok (m.find_one p d1.accounts) _ d1 d2 a h2 in
      let (u3, d3, h3, k3) =
        bind_ok (raise_if (has_initial_amount a) (conflict wallet_has_history)) _ d2 k2 in
      let (empty, e3) = raise_if_ok (has_initial_amount a) _ d2 d3 h3 in
      let (b, d4, h4, k4) = bind_ok (has_history_for_budget budget id) _ d3 k3 in
      let (b_eq, e4) = history_ok budget id b d3 d4 h4 in
      let (u5, d5, h5, k5) = bind_ok (raise_if b (conflict wallet_has_history)) _ d4 k4 in
      let (none_there, e5) = raise_if_ok b _ d4 d5 h5 in
      let (u6, d6, h6, k6) = bind_ok (Snapshots.delete_for_budget budget id) _ d5 k5 in
      let missing = not (is_some (m.find_one p d6.accounts)) in
      let (deleted, e7) =
        raise_if_ok missing (not_found account_not_found)
          (record d6 { accounts = m.delete_one p d6.accounts }) db' k6 in
      finish budget id a db d1 d6 db' u (lock_ok budget id db d1 h1) found empty
        (swept_ok budget id d5 d6 h6 ∙ ap (swept id) (e5 ∙ e4 ∙ e3 ∙ e2))
        (subst (λ (z : Db). is_some (m.find_one (history budget id) z.transactions) ≡ false)
          (e3 ∙ e2) (b_eq ∙ none_there))
        e7
