-- ===== src/Transactions/Posted.antt =====
-- What the creation of an income or an expense does to the ledger and the snapshots.
use mathlib.Core.Path.{subst₂}
use babki_back.Prelude.{
  ◌≤◌, ◌<◌, ◌≡◌, ◌≢◌, ◌∙◌, ap, true, false, none, some, List, [], ◌∷◌, ◌++◌, ◌⊎◌, inl, inr,
}
use babki_back.Prelude.Int.{ℤ, pos, parts_eq, ◌+ℤ◌, int_laws}
use babki_back.Money.{known_currency, Amount, Currency, Intl}
use babki_back.Money.Precision.{IsExact}
use babki_back.Dates.{Date}
use babki_back.Mongo.{Mongo}
use babki_back.Http.{ok}
use babki_back.Schemas.{Db, Account, Transaction}
use babki_back.Snapshots.{
  rebuild_for_budget, balance_for_budget, detail_concerns, detail_movement, predates,
}
use babki_back.Snapshots.Balance.{
  ledger_total, ledger_total-append, contribution, contribution_before, contribution_elsewhere,
  balance_code, balance_value-of_code, balance_value-append, balance_value_total,
}
use babki_back.Snapshots.Rebuild.{rebuild-transactions}
use babki_back.Snapshots.Invariant.{
  SameLedger, ChangesFrom, SnapshotsMatch, SnapshotsMatch_same, change_rebuild,
  rebuild-SnapshotsMatch,
}

pub add_nothing : (a b : ℤ) → b ≡ pos 0 → a +ℤ b ≡ a
add_nothing a b h = omega (int_laws, parts_eq h)

-- A transaction that is appended changes the ledger from its date on, for its account alone.
pub append-ChangesFrom :
    (account : Account) (tx : Transaction) (txs : List Transaction)
    → ((b : Account) → b.id ≢ account.id → detail_concerns b.id tx.detail ≡ false)
    → ChangesFrom account tx.transaction_date txs (txs ++ tx ∷ [])
append-ChangesFrom account tx txs alone = record {
  same = λ b e why.
      ledger_total-append b e txs tx
      ∙ add_nothing (ledger_total b e txs) (contribution b e tx) (elim why [
        | inl other ↦ contribution_elsewhere b e tx (alone b other)
        | inr early ↦ contribution_before b e tx early
      ]);
}

module _ ⦃m : Mongo⦄ ⦃intl : Intl⦄ where
  -- The snapshots are prepared, the document is added, and the snapshots are rebuilt.
  pub record Posted (account : Account) (tx : Transaction) (db db' : Db) : Type 0 where
    pub before : Db
    pub prepared : Db
    pub same : SameLedger db before
    pub prepares : rebuild_for_budget account tx.transaction_date before ≡ ok (tt, prepared)
    pub applies :
        rebuild_for_budget account tx.transaction_date
          (record prepared { transactions = prepared.transactions ++ tx ∷ [] })
        ≡ ok (tt, db')

  -- From the steps of a service that creates `doc`.
  pub Posted-from :
      (account : Account) (doc tx : Transaction) (db before prepared after db' : Db)
      → SameLedger db before
      → rebuild_for_budget account doc.transaction_date before ≡ ok (tt, prepared)
      → rebuild_for_budget account doc.transaction_date
          (record prepared { transactions = m.insert doc prepared.transactions })
        ≡ ok (tt, after)
      → doc ≡ tx
      → after ≡ db'
      → Posted account tx db db'
  Posted-from account doc tx db before prepared after db' same prepares applies e e' =
      subst₂ (λ x y. Posted account x db y) e e'
        (record {
          before = before;
          prepared = prepared;
          same = same;
          prepares = prepares;
          applies = rw m.insert_law at applies;
        })

  pub Posted-SnapshotsMatch :
      (b account : Account) (tx : Transaction) (db db' : Db)
      → Posted account tx db db'
      → ((b' : Account) → b'.id ≢ account.id → detail_concerns b'.id tx.detail ≡ false)
      → (b ≡ account) ⊎ (b.id ≢ account.id)
      → SnapshotsMatch b db
      → SnapshotsMatch b db'
  Posted-SnapshotsMatch b account tx db db' p alone which h =
      change_rebuild b account tx.transaction_date p.prepared db' _ which
        (append-ChangesFrom account tx p.prepared.transactions alone)
        (rebuild-SnapshotsMatch b account tx.transaction_date p.before p.prepared which
          (SnapshotsMatch_same b db p.before p.same h) p.prepares)
        p.applies

  -- The ledger has the new document behind the others.
  pub Posted-transactions :
      (account : Account) (tx : Transaction) (db db' : Db)
      → Posted account tx db db'
      → db'.transactions ≡ db.transactions ++ tx ∷ []
  Posted-transactions account tx db db' p =
      rebuild-transactions account tx.transaction_date _ db' p.applies
      ∙ ap (λ (c : List Transaction). c ++ tx ∷ [])
          (rebuild-transactions account tx.transaction_date _ p.prepared p.prepares
            ∙ p.same.transactions)

  -- From the date on, the balance of the account moves by the amount. Every other balance stays.
  pub record MovesBalance (account : Account) (date : Date) (amount : Amount) (db db' : Db)
      : Type 0 where
    pub later :
        (e : Date) (v : Amount)
        → date ≤ e
        → balance_for_budget account e db ≡ ok (v, db)
        → balance_for_budget account e db' ≡ ok (v +ℤ amount, db')
    pub elsewhere :
        (b : Account) (e : Date) (v : Amount)
        → (b.id ≢ account.id) ⊎ (e < date)
        → balance_for_budget b e db ≡ ok (v, db)
        → balance_for_budget b e db' ≡ ok (v, db')

  pub Posted-MovesBalance :
      (account : Account) (tx : Transaction) (db db' : Db) (c : Currency)
      → Posted account tx db db'
      → ((b : Account) → b.id ≢ account.id → detail_concerns b.id tx.detail ≡ false)
      → known_currency account.currency ≡ some c
      → IsExact c (detail_movement account.id tx.detail)
      → tx.space_id ≡ account.space_id
      → detail_concerns account.id tx.detail ≡ true
      → tx.deleted_at ≡ none
      → predates tx.transaction_date account.opened_at ≡ false
      → MovesBalance account tx.transaction_date (detail_movement account.id tx.detail) db db'
  Posted-MovesBalance account tx db db' c p alone cur exact space concerned live opened =
      let q = Posted-transactions account tx db db' p in
      let changes = append-ChangesFrom account tx db.transactions alone in
      record {
        later = λ e v le h. balance_code account e db' _ (
            rw q (
              balance_value-append account e db.transactions tx c v cur exact space concerned live
                le opened (balance_value-of_code account e db db v h)));
        elsewhere = λ b e v why h. balance_code b e db' v (
            rw q (
              balance_value_total b e (db.transactions ++ tx ∷ []) db.transactions
                (changes.same b e why)
              ∙ balance_value-of_code b e db db v h));
      }
