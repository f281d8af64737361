-- ===== src/Transactions/Changed.antt =====
-- Updating and deleting an income or an expense keep the snapshots in step with the ledger
-- (src/modules/transactions/transactions/transactions.service.ts, `updateForBudget` and
-- `deleteForBudget`).
use mathlib.Core.Option
use mathlib.Core.Path.{subst}
use babki_back.Prelude.{
  ℕ, ◌<◌, ◌≡◌, ◌≢◌, refl, sym, ap, ◌∙◌, ◌⊎◌, inl, inr, Bool, true, false, Option, none, some, List,
  [], ◌∷◌, arith, In,
}
use babki_back.Prelude.Int.{ℤ, pos, ◌+ℤ◌, ◌-ℤ◌, int_laws, parts_eq}
use babki_back.Money.{Intl}
use babki_back.Dates.{Date}
use babki_back.Mongo.{Mongo, first, change_first}
use babki_back.Mongo.Lookup.{first_matches, first-In}
use babki_back.Mongo.Distinct.{Distinct, Distinct-In}
use babki_back.Http.{ok, other_error, not_found, transaction_not_found}
use babki_back.Schemas.{
  Db, ObjectId, Account, Transaction, TransactionDetail, Posting, income, expense, transfer,
}
use babki_back.Budget.{BudgetContext}
use babki_back.Snapshots.{rebuild_for_budget, apply_for_budget, detail_concerns}
use babki_back.Snapshots.Balance.{
  ledger_total-change_first, contribution_before, contribution_elsewhere,
}
use babki_back.Snapshots.Invariant.{
  SameLedger, ChangesFrom, SnapshotsMatch, SnapshotsMatch_same, change_rebuild,
}
use babki_back.Transactions.Defs.{
  TransactionType, FinancialChanges, posting_of, account_filter, transaction_filter, mark_deleted,
  set_changes, set_detail, resolve_account, account_for_budget, lock_accounts_for_budget,
  validate_money_for_budget, update_for_budget, delete_for_budget,
}
use babki_back.Transactions.Frames.{
  SameLedger-refl, SameLedger-trans, lock_accounts_for_budget-SameLedger, validate_money-same,
}
use babki_back.Session.{or_raise}
use babki_back.Session.Inversion.{bind_ok, or_raise_ok, pure_ok}

abbrev pub tx_key : Transaction → ℕ
tx_key tx = tx.id

-- An income or an expense is of its account alone.
posting_alone :
    (d : TransactionDetail) (p : Posting) (b : ObjectId)
    → posting_of d ≡ some p
    → b ≢ p.account_id
    → detail_concerns b d ≡ false
unfolding posting_of detail_concerns
posting_alone (income q) p b h ne = ground arith
posting_alone (expense q x) p b h ne = ground arith
posting_alone (transfer s d) p b h ne = cc

set_detail-concerns :
    (c : FinancialChanges) (d : TransactionDetail) (b : ObjectId)
    → detail_concerns b (set_detail c d) ≡ detail_concerns b d
unfolding set_detail detail_concerns
set_detail-concerns c (income q) b = refl
set_detail-concerns c (expense q x) b = refl
set_detail-concerns c (transfer s d) b = refl

cancels : (x y z : ℤ) → y ≡ pos 0 → z ≡ pos 0 → x -ℤ y +ℤ z ≡ x
cancels x y z h k = omega (int_laws, parts_eq h, parts_eq k)

-- A change of one document that keeps its date changes the ledger from that date on, for its
-- account alone.
change_first-ChangesFrom :
    (account : Account) (p : Transaction → Bool) (f : Transaction → Transaction)
    (txs : List Transaction) (row : Transaction)
    → first p txs ≡ some row
    → (f row).transaction_date ≡ row.transaction_date
    → ((b : Account)
        → b.id ≢ account.id
        → (detail_concerns b.id row.detail ≡ false) × (detail_concerns b.id (f row).detail ≡ false))
    → ChangesFrom account row.transaction_date txs (change_first p f txs)
change_first-ChangesFrom account p f txs row found date alone = record {
  same = λ b e why. ledger_total-change_first b e p f txs row found ∙ (elim why [
    | inl other ↦
        let (x, y) = alone b other in
        cancels _ _ _ (contribution_elsewhere b e row x) (contribution_elsewhere b e (f row) y)
    | inr early ↦
        cancels _ _ _ (contribution_before b e row early)
          (contribution_before b e (f row) (subst (λ t. e < t) (sym date) early))
  ]);
}

transaction_filter_id :
    (budget : BudgetContext) (id : ObjectId) (k : Option TransactionType) (tx : Transaction)
    → transaction_filter budget id k tx ≡ true
    → tx.id ≡ id
unfolding transaction_filter
transaction_filter_id budget id k tx h = ground arith

account_filter_id :
    (budget : BudgetContext) (id : ObjectId) (a : Account)
    → account_filter budget id a ≡ true
    → a.id ≡ id
unfolding account_filter
account_filter_id budget id a h = ground arith

map_hit :
    (f : Transaction → Transaction) (o : Option Transaction) (y : Transaction)
    → Option.map f o ≡ some y
    → (x : Transaction) × (o ≡ some x)
map_hit f none y h = cc
map_hit f (some x) y h = (x, refl)

-- An account that a change concerns: the one of the posting, as it is stored, or one with another
-- id.
abbrev pub IsSideOf : BudgetContext → Posting → Account → Db → Type 0
IsSideOf budget p b db =
    (first (account_filter budget p.account_id) db.accounts ≡ some b) ⊎ (b.id ≢ p.account_id)

posting_eq : (p q : Posting) → ◌≡◌ {A = Option Posting} (some p) (some q) → p ≡ q
posting_eq p q h = cc

some_eq : (a b : Account) → ◌≡◌ {A = Option Account} (some a) (some b) → a ≡ b
some_eq a b h = cc

module _ (budget : BudgetContext) where
  which :
      (b a : Account) (p : Posting) (db : Db)
      → first (account_filter budget p.account_id) db.accounts ≡ some a
      → a.id ≡ p.account_id
      → IsSideOf budget p b db
      → (b ≡ a) ⊎ (b.id ≢ a.id)
  which b a p db found a_id (inl h) = inl (some_eq b a (sym h ∙ found))
  which b a p db found a_id (inr ne) = inr (λ q. ne (q ∙ a_id))

module _ ⦃m : Mongo⦄ ⦃intl : Intl⦄ where
  -- The last steps of both operations, on the stored row.
  changed-SnapshotsMatch :
      (budget : BudgetContext) (row : Transaction) (p : Posting) (a b : Account)
      (k : Option TransactionType) (f : Transaction → Transaction) (db locked db' : Db)
      → Distinct tx_key db.transactions
      → In row db.transactions
      → posting_of row.detail ≡ some p
      → first (account_filter budget p.account_id) db.accounts ≡ some a
      → IsSideOf budget p b db
      → SameLedger db locked
      → ((x : Transaction) × (m.find_one (transaction_filter budget row.id k) locked.transactions
            ≡ some x))
      → (f row).transaction_date ≡ row.transaction_date
      → ((c : ObjectId) → detail_concerns c (f row).detail ≡ detail_concerns c row.detail)
      → rebuild_for_budget a row.transaction_date (record locked {
        transactions = m.update_one (transaction_filter budget row.id k) f locked.transactions;
      })
        ≡ ok (tt, db')
      → SnapshotsMatch b db
      → SnapshotsMatch b db'
  changed-SnapshotsMatch budget row p a b k f db locked db' u stored posting found side same
        (x, hit) date concerns r s =
      let q = transaction_filter budget row.id k in
      let hit₁ : first q db.transactions ≡ some x =
        ap (λ c. first q c) (sym same.transactions)
        ∙ sym (m.find_one_law q locked.transactions)
        ∙ hit in
      let x_is : x ≡ row =
        Distinct-In tx_key db.transactions x row u (first-In q db.transactions x hit₁) stored
          (transaction_filter_id budget row.id k x (first_matches q db.transactions x hit₁)) in
      let hit₂ : first q locked.transactions ≡ some row =
        sym (m.find_one_law q locked.transactions) ∙ hit ∙ ap some x_is in
      let a_id : a.id ≡ p.account_id =
        account_filter_id budget p.account_id a (first_matches _ db.accounts a found) in
      let quiet = λ (c : Account) (ne : c.id ≢ a.id).
        posting_alone row.detail p c.id posting (λ z. ne (z ∙ sym a_id)) in
      change_rebuild b a row.transaction_date locked db' (change_first q f locked.transactions)
        (which budget b a p db found a_id side)
        (change_first-ChangesFrom a q f locked.transactions row hit₂ date
          (λ c ne. (quiet c ne, concerns c.id ∙ quiet c ne)))
        (SnapshotsMatch_same b db locked same s)
        (subst
          (λ c.
            rebuild_for_budget a row.transaction_date (record locked { transactions = c })
            ≡ ok (tt, db'))
          (m.update_one_law q f locked.transactions) r)

  resolve_ok :
      (budget : BudgetContext) (row : Transaction) (p : Posting) (a : Account) (db db' : Db)
      → posting_of row.detail ≡ some p
      → resolve_account budget row none db ≡ ok (a, db')
      → (db' ≡ db) × (first (account_filter budget p.account_id) db.accounts ≡ some a)
  unfolding resolve_account account_for_budget
  resolve_ok budget row p a db db' posting h =
      let (q, d1, h1, k1) = bind_ok (or_raise (posting_of row.detail) other_error) _ db h in
      let (is_q, e1) = or_raise_ok (posting_of row.detail) other_error db d1 q h1 in
      let same = posting_eq p q (sym posting ∙ is_q) in
      let (found, e2) = or_raise_ok _ _ d1 db' a k1 in
      (
        e2 ∙ e1,
        sym (m.find_one_law (account_filter budget p.account_id) db.accounts)
            ∙ ap (λ (z : Posting). m.find_one (account_filter budget z.account_id) db.accounts) same
            ∙ ap (λ (z : Db). m.find_one (account_filter budget q.account_id) z.accounts) (sym e1)
            ∙ found,
      )

  -- Where ids are unique and every snapshot stood at a month end, and those of some account held
  -- its balances, they do so again after a stored income or expense is deleted. The account is the
  -- one of the transaction, as it is stored, or one with another id.
  pub delete_transaction-SnapshotsMatch :
      (budget : BudgetContext) (actor_id : ObjectId) (now : Date) (row tx : Transaction)
      (p : Posting) (b : Account) (db db' : Db)
      → Distinct tx_key db.transactions
      → In row db.transactions
      → posting_of row.detail ≡ some p
      → IsSideOf budget p b db
      → delete_for_budget budget actor_id now row none db ≡ ok (tx, db')
      → SnapshotsMatch b db
      → SnapshotsMatch b db'
  unfolding delete_for_budget apply_for_budget mark_deleted
  delete_transaction-SnapshotsMatch budget actor_id now row tx p b db db' u stored posting side h
        s =
      let (a, d1, h1, k1) = bind_ok (resolve_account budget row none) _ db h in
      let (e1, found) = resolve_ok budget row p a db d1 posting h1 in
      let (q, d2, h2, k2) = bind_ok (or_raise (posting_of row.detail) other_error) _ d1 k1 in
      let e2 = (or_raise_ok (posting_of row.detail) other_error d1 d2 q h2).1 in
      let (u3, d3, h3, k3) =
        bind_ok (lock_accounts_for_budget budget (q.account_id ∷ [])) _ d2 k2 in
      let same =
        SameLedger-trans db d2 d3 (SameLedger-refl db d2 (e2 ∙ e1))
          (lock_accounts_for_budget-SameLedger budget _ d2 d3 h3) in
      let f = mark_deleted now actor_id in
      let filter = transaction_filter budget row.id none in
      let marked : Db = record d3 { transactions = m.update_one filter f d3.transactions } in
      let hit = Option.map f (m.find_one filter d3.transactions) in
      let (gone, d5, h5, k5) =
        bind_ok (or_raise hit (not_found transaction_not_found)) _ marked k3 in
      let (is_hit, e5) = or_raise_ok hit _ marked d5 gone h5 in
      let (u6, d6, h6, k6) = bind_ok (rebuild_for_budget a row.transaction_date) _ d5 k5 in
      let last = (pure_ok gone tx d6 db' k6).1 in
      let r = subst (λ z. rebuild_for_budget a row.transaction_date z ≡ ok (tt, d6)) e5 h6 in
      subst (SnapshotsMatch b) last (
        changed-SnapshotsMatch budget row p a b none f db d3 d6 u stored posting found side same
          (map_hit f (m.find_one filter d3.transactions) gone is_hit) refl (λ c. refl) r s)

  -- Where ids are unique and every snapshot stood at a month end, and those of some account held
  -- its balances, they do so again after a stored income or expense is updated. The account is the
  -- one of the transaction, as it is stored, or one with another id.
  pub update_transaction-SnapshotsMatch :
      (budget : BudgetContext) (row tx : Transaction) (changes : FinancialChanges)
      (k : Option TransactionType) (p : Posting) (b : Account) (db db' : Db)
      → Distinct tx_key db.transactions
      → In row db.transactions
      → posting_of row.detail ≡ some p
      → IsSideOf budget p b db
      → update_for_budget budget row changes k none db ≡ ok (tx, db')
      → SnapshotsMatch b db
      → SnapshotsMatch b db'
  unfolding update_for_budget apply_for_budget set_changes
  update_transaction-SnapshotsMatch budget row tx changes k p b db db' u stored posting side h s =
      let (a, d1, h1, k1) = bind_ok (resolve_account budget row none) _ db h in
      let (e1, found) = resolve_ok budget row p a db d1 posting h1 in
      let (u0, d0, h0, k0) =
        bind_ok (validate_money_for_budget a changes.amount changes.items) _ d1 k1 in
      let e0 = validate_money-same a changes.amount changes.items d1 d0 h0 in
      let (q, d2, h2, k2) = bind_ok (or_raise (posting_of row.detail) other_error) _ d0 k0 in
      let e2 = (or_raise_ok (posting_of row.detail) other_error d0 d2 q h2).1 in
      let (u3, d3, h3, k3) =
        bind_ok (lock_accounts_for_budget budget (q.account_id ∷ [])) _ d2 k2 in
      let same =
        SameLedger-trans db d2 d3 (SameLedger-refl db d2 (e2 ∙ e0 ∙ e1))
          (lock_accounts_for_budget-SameLedger budget _ d2 d3 h3) in
      let f = set_changes changes in
      let filter = transaction_filter budget row.id k in
      let marked : Db = record d3 { transactions = m.update_one filter f d3.transactions } in
      let hit = Option.map f (m.find_one filter d3.transactions) in
      let (gone, d5, h5, k5) =
        bind_ok (or_raise hit (not_found transaction_not_found)) _ marked k3 in
      let (is_hit, e5) = or_raise_ok hit _ marked d5 gone h5 in
      let (u6, d6, h6, k6) = bind_ok (rebuild_for_budget a row.transaction_date) _ d5 k5 in
      let last = (pure_ok gone tx d6 db' k6).1 in
      let r = subst (λ z. rebuild_for_budget a row.transaction_date z ≡ ok (tt, d6)) e5 h6 in
      subst (SnapshotsMatch b) last (
        changed-SnapshotsMatch budget row p a b k f db d3 d6 u stored posting found side same
          (map_hit f (m.find_one filter d3.transactions) gone is_hit) refl
          (λ c. set_detail-concerns changes row.detail c) r s)
