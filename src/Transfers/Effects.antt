-- ===== src/Transfers/Effects.antt =====
-- What a transfer does to the snapshots and the balances.
use babki_back.Prelude.{
  ◌≤◌, ◌<◌, ◌≡◌, ◌≢◌, sym, ◌∙◌, ap, true, false, none, some, List, [], ◌∷◌, ◌++◌, ◌⊎◌, inl, inr,
}
use babki_back.Prelude.Int.{◌+ℤ◌}
use babki_back.Money.{known_currency, Amount, Currency, Intl}
use babki_back.Money.Precision.{IsExact}
use babki_back.Dates.{Date}
use babki_back.Mongo.{Mongo}
use babki_back.Http.{ok}
use babki_back.Schemas.{Db, Account, Transaction}
use babki_back.Snapshots.{balance_for_budget, detail_concerns, detail_movement, predates}
use babki_back.Snapshots.Balance.{
  ledger_total-append, contribution, contribution_before, contribution_elsewhere, balance_code,
  balance_value-of_code, balance_value-append, balance_value_total,
}
use babki_back.Snapshots.Rebuild.{rebuild-transactions}
use babki_back.Snapshots.Invariant.{
  ChangesForTwo, SnapshotsMatch, SnapshotsMatch_same, Which, is_source, is_destination, is_other,
  rebuild-SnapshotsMatch, change_rebuild_two,
}
use babki_back.Transactions.Posted.{add_nothing}
use babki_back.Transfers.Steps.{TransferPosted}

-- A transfer is of no other account.
abbrev pub OnlyOf : Account → Account → Transaction → Type 0
OnlyOf source destination tx =
    (b : Account)
    → b.id ≢ source.id
    → b.id ≢ destination.id
    → detail_concerns b.id tx.detail ≡ false

append-ChangesForTwo :
    (source destination : Account) (tx : Transaction) (txs : List Transaction)
    → OnlyOf source destination tx
    → ChangesForTwo source destination tx.transaction_date txs (txs ++ tx ∷ [])
append-ChangesForTwo source destination tx txs only = record {
  same = λ b e why.
      ledger_total-append b e txs tx
      ∙ add_nothing _ (contribution b e tx) (elim why [
        | inl (ns, nd) ↦ contribution_elsewhere b e tx (only b ns nd)
        | inr early ↦ contribution_before b e tx early
      ]);
}

Which-one :
    (source destination b : Account)
    → source.id ≢ destination.id
    → Which source destination b
    → ((b ≡ source) ⊎ (b.id ≢ source.id)) × ((b ≡ destination) ⊎ (b.id ≢ destination.id))
Which-one source destination b ne (is_source e) =
    (inl e, inr (λ q. ne (sym (ap (λ (a : Account). a.id) e) ∙ q)))
Which-one source destination b ne (is_destination e) =
    (inr (λ q. ne (sym q ∙ ap (λ (a : Account). a.id) e)), inl e)
Which-one source destination b ne (is_other ns nd) = (inr ns, inr nd)

module _ ⦃m : Mongo⦄ ⦃intl : Intl⦄ where
  pub TransferPosted-transactions :
      (source destination : Account) (tx : Transaction) (db db' : Db)
      → TransferPosted source destination tx db db'
      → db'.transactions ≡ db.transactions ++ tx ∷ []
  TransferPosted-transactions source destination tx db db' p =
      rebuild-transactions destination tx.transaction_date _ db' p.applied.second_rebuild
      ∙ rebuild-transactions source tx.transaction_date _ _ p.applied.first_rebuild
      ∙ ap (λ (c : List Transaction). c ++ tx ∷ [])
          (rebuild-transactions destination tx.transaction_date _ _ p.prepares_destination
            ∙ rebuild-transactions source tx.transaction_date _ _ p.prepares_source
            ∙ p.same.transactions)

  pub TransferPosted-SnapshotsMatch :
      (source destination b : Account) (tx : Transaction) (db db' : Db)
      → TransferPosted source destination tx db db'
      → source.id ≢ destination.id
      → OnlyOf source destination tx
      → Which source destination b
      → SnapshotsMatch b db
      → SnapshotsMatch b db'
  TransferPosted-SnapshotsMatch source destination b tx db db' p ne only which h =
      let (ws, wd) = Which-one source destination b ne which in
      change_rebuild_two source destination b tx.transaction_date p.prepared₂ p.applied.after db' _
        ne (append-ChangesForTwo source destination tx p.prepared₂.transactions only)
        (rebuild-SnapshotsMatch b destination tx.transaction_date p.prepared₁ p.prepared₂ wd
          (rebuild-SnapshotsMatch b source tx.transaction_date p.before p.prepared₁ ws
            (SnapshotsMatch_same b db p.before p.same h) p.prepares_source)
          p.prepares_destination)
        p.applied.first_rebuild p.applied.second_rebuild which

  -- From the date on both balances move, each by its amount. Every other balance stays.
  pub record MovesTwo (source destination : Account) (date : Date) (x y : Amount) (db db' : Db)
      : Type 0 where
    pub source_later :
        (e : Date) (v : Amount)
        → date ≤ e
        → balance_for_budget source e db ≡ ok (v, db)
        → balance_for_budget source e db' ≡ ok (v +ℤ x, db')
    pub destination_later :
        (e : Date) (v : Amount)
        → date ≤ e
        → balance_for_budget destination e db ≡ ok (v, db)
        → balance_for_budget destination e db' ≡ ok (v +ℤ y, db')
    pub elsewhere :
        (b : Account) (e : Date) (v : Amount)
        → (b.id ≢ source.id) × (b.id ≢ destination.id) ⊎ (e < date)
        → balance_for_budget b e db ≡ ok (v, db)
        → balance_for_budget b e db' ≡ ok (v, db')

  -- A live transaction of an account that is appended.
  pub record IsLiveFor (account : Account) (tx : Transaction) : Type 0 where
    pub cur : Currency
    pub has : known_currency account.currency ≡ some cur
    pub exact : IsExact cur (detail_movement account.id tx.detail)
    pub space : tx.space_id ≡ account.space_id
    pub concerned : detail_concerns account.id tx.detail ≡ true
    pub live : tx.deleted_at ≡ none
    pub opened : predates tx.transaction_date account.opened_at ≡ false

  appended_later :
      (account : Account) (tx : Transaction) (db db' : Db)
      → IsLiveFor account tx
      → db'.transactions ≡ db.transactions ++ tx ∷ []
      → (e : Date) (v : Amount) → tx.transaction_date ≤ e
      → balance_for_budget account e db ≡ ok (v, db)
      → balance_for_budget account e db' ≡ ok (v +ℤ detail_movement account.id tx.detail, db')
  appended_later account tx db db' l q e v le h = balance_code account e db' _ (
      rw q (
        balance_value-append account e db.transactions tx l.cur v l.has l.exact l.space l.concerned
          l.live le l.opened (balance_value-of_code account e db db v h)))

  pub TransferPosted-MovesTwo :
      (source destination : Account) (tx : Transaction) (db db' : Db)
      → TransferPosted source destination tx db db'
      → OnlyOf source destination tx
      → IsLiveFor source tx
      → IsLiveFor destination tx
      → MovesTwo source destination tx.transaction_date
          (detail_movement source.id tx.detail)
          (detail_movement destination.id tx.detail)
          db
          db'
  TransferPosted-MovesTwo source destination tx db db' p only ls ld =
      let q = TransferPosted-transactions source destination tx db db' p in
      let changes = append-ChangesForTwo source destination tx db.transactions only in
      record {
        source_later = appended_later source tx db db' ls q;
        destination_later = appended_later destination tx db db' ld q;
        elsewhere = λ b e v why h. balance_code b e db' v (
            rw q (
              balance_value_total b e (db.transactions ++ tx ∷ []) db.transactions
                (changes.same b e why)
              ∙ balance_value-of_code b e db db v h));
      }
