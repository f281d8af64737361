-- ===== src/Snapshots/Invariant.antt =====
-- The invariant of the ledger and the snapshots, and the steps that keep it.
use mathlib.Core.Path.{subst}
use babki_back.Prelude.{◌<◌, ◌≡◌, ◌≢◌, refl, sym, List, ◌∙◌, ◌⊎◌, inl, inr}
use babki_back.Money.{Intl}
use babki_back.Dates.{Date}
use babki_back.Mongo.{Mongo}
use babki_back.Http.{ok}
use babki_back.Schemas.{Db, Account, Transaction}
use babki_back.Snapshots.{rebuild_for_budget}
use babki_back.Snapshots.Balance.{ledger_total, balance_value_total}
use babki_back.Snapshots.Consistency.{
  AtMonthEnds, AgreesOn, IsConsistent, rebuild-AtMonthEnds, rebuild-AgreesOn_other,
  rebuild-IsConsistent,
}

-- The ledger and the snapshots are the same.
pub record SameLedger (db db' : Db) : Type 0 where
  pub snapshots : db'.snapshots ≡ db.snapshots
  pub transactions : db'.transactions ≡ db.transactions

-- The ledger changes for one account alone, and only from a date on.
pub record ChangesFrom (account : Account) (date : Date) (txs txs' : List Transaction)
    : Type 0 where
  pub same :
      (b : Account) (e : Date)
      → (b.id ≢ account.id) ⊎ (e < date)
      → ledger_total b e txs' ≡ ledger_total b e txs

-- The ledger changes for two accounts alone, and only from a date on.
pub record ChangesForTwo (source destination : Account) (date : Date) (txs txs' : List Transaction)
    : Type 0 where
  pub same :
      (b : Account) (e : Date)
      → (b.id ≢ source.id) × (b.id ≢ destination.id) ⊎ (e < date)
      → ledger_total b e txs' ≡ ledger_total b e txs

-- One of the two accounts, or any account with another id.
pub data Which (source destination b : Account) : Type 0 where
  is_source : b ≡ source → Which source destination b
  is_destination : b ≡ destination → Which source destination b
  is_other : b.id ≢ source.id → b.id ≢ destination.id → Which source destination b

module _ ⦃m : Mongo⦄ ⦃intl : Intl⦄ where
  -- Every snapshot stands at a month end, and those of the account hold its balances.
  pub record SnapshotsMatch (b : Account) (db : Db) : Type 0 where
    pub ends : AtMonthEnds db
    pub consistent : IsConsistent b db

  pub AgreesOn-same :
      {P : Date → Type 0} (b : Account) (db db' : Db)
      → SameLedger db db'
      → AgreesOn P b db
      → AgreesOn P b db'
  AgreesOn-same b db db' s h = record {
    at = λ e v pe p. rw s.transactions (h.at e v pe (rw s.snapshots at p));
  }

  pub AtMonthEnds-same : (db db' : Db) → SameLedger db db' → AtMonthEnds db → AtMonthEnds db'
  AtMonthEnds-same db db' s h = record { at = λ b e v p. h.at b e v (rw s.snapshots at p) }

  pub SnapshotsMatch_same :
      (b : Account) (db db' : Db) → SameLedger db db' → SnapshotsMatch b db → SnapshotsMatch b db'
  SnapshotsMatch_same b db db' s h = record {
    ends = AtMonthEnds-same db db' s h.ends;
    consistent = AgreesOn-same b db db' s h.consistent;
  }

  -- After a change of the ledger the snapshots of the account agree with it before the date, and
  -- those of other accounts agree as before.
  pub AgreesOn-change :
      (account : Account) (date : Date) (db : Db) (txs' : List Transaction)
      → ChangesFrom account date db.transactions txs'
      → IsConsistent account db
      → AgreesOn (λ e. e < date) account (record db { transactions = txs' })
  AgreesOn-change account date db txs' c h = record {
    at = λ e v lt p.
        balance_value_total account e txs' db.transactions (c.same account e (inr lt))
        ∙ h.at e v tt p;
  }

  pub AgreesOn-change_other :
      {P : Date → Type 0} (b account : Account) (date : Date) (db : Db) (txs' : List Transaction)
      → ChangesFrom account date db.transactions txs'
      → b.id ≢ account.id
      → AgreesOn P b db
      → AgreesOn P b (record db { transactions = txs' })
  AgreesOn-change_other b account date db txs' c ne h = record {
    at = λ e v pe p.
        balance_value_total b e txs' db.transactions (c.same b e (inl ne)) ∙ h.at e v pe p;
  }

  -- A change of the ledger from a date on, and a rebuild from that date.
  pub change_rebuild :
      (b account : Account) (date : Date) (db db' : Db) (txs' : List Transaction)
      → (b ≡ account) ⊎ (b.id ≢ account.id)
      → ChangesFrom account date db.transactions txs'
      → SnapshotsMatch b db
      → rebuild_for_budget account date (record db { transactions = txs' }) ≡ ok (tt, db')
      → SnapshotsMatch b db'
  change_rebuild b account date db db' txs' which c h r =
      let db₁ : Db = record db { transactions = txs' } in
      let ends : AtMonthEnds db₁ = record { at = h.ends.at } in
      record {
        ends = rebuild-AtMonthEnds account date db₁ db' ends r;
        consistent = elim which [
          | inl same ↦
              subst (λ x. IsConsistent x db') (sym same)
                (rebuild-IsConsistent account date db₁ db' ends
                  (AgreesOn-change account date db txs' c
                    (subst (λ x. IsConsistent x db) same h.consistent))
                  r)
          | inr other ↦
              rebuild-AgreesOn_other b account date db₁ db' other
                (AgreesOn-change_other b account date db txs' c other h.consistent) r
        ];
      }

  -- A rebuild without a change.
  pub rebuild-SnapshotsMatch :
      (b account : Account) (date : Date) (db db' : Db)
      → (b ≡ account) ⊎ (b.id ≢ account.id)
      → SnapshotsMatch b db
      → rebuild_for_budget account date db ≡ ok (tt, db')
      → SnapshotsMatch b db'
  rebuild-SnapshotsMatch b account date db db' which h r =
      change_rebuild b account date db db' db.transactions which (record { same = λ x e _. refl }) h
        r

  -- What the snapshots at the dates in `Q` need of a changed ledger.
  pub AgreesOn-ledger :
      {P Q : Date → Type 0} (b : Account) (db : Db) (txs' : List Transaction)
      → ((e : Date) → Q e → P e × (ledger_total b e txs' ≡ ledger_total b e db.transactions))
      → AgreesOn P b db
      → AgreesOn Q b (record db { transactions = txs' })
  AgreesOn-ledger b db txs' same h = record {
    at = λ e v qe p.
        let (pe, q) = same e qe in balance_value_total b e txs' db.transactions q ∙ h.at e v pe p;
  }

  two-IsConsistent :
      (source destination b : Account) (date : Date) (db after db' : Db) (txs' : List Transaction)
      → source.id ≢ destination.id
      → ChangesForTwo source destination date db.transactions txs'
      → SnapshotsMatch b db
      → rebuild_for_budget source date (record db { transactions = txs' }) ≡ ok (tt, after)
      → rebuild_for_budget destination date after ≡ ok (tt, db')
      → Which source destination b
      → IsConsistent b db'
  two-IsConsistent source destination b date db after db' txs' ne c h r r' (is_source e) =
      let db₁ : Db = record db { transactions = txs' } in
      let cons = subst (λ x. IsConsistent x db) e h.consistent in
      subst (λ x. IsConsistent x db') (sym e)
        (rebuild-AgreesOn_other source destination date after db' ne
          (rebuild-IsConsistent source date db₁ after (record { at = h.ends.at })
            (AgreesOn-ledger source db txs' (λ x lt. (tt, c.same source x (inr lt))) cons) r)
          r')
  two-IsConsistent source destination b date db after db' txs' ne c h r r' (is_destination e) =
      let db₁ : Db = record db { transactions = txs' } in
      let cons = subst (λ x. IsConsistent x db) e h.consistent in
      subst (λ x. IsConsistent x db') (sym e)
        (rebuild-IsConsistent destination date after db'
          (rebuild-AtMonthEnds source date db₁ after (record { at = h.ends.at }) r)
          (rebuild-AgreesOn_other destination source date db₁ after (λ q. ne (sym q))
            (AgreesOn-ledger destination db txs' (λ x lt. (tt, c.same destination x (inr lt))) cons)
            r)
          r')
  two-IsConsistent source destination b date db after db' txs' ne c h r r' (is_other ns nd) =
      let db₁ : Db = record db { transactions = txs' } in
      rebuild-AgreesOn_other b destination date after db' nd
        (rebuild-AgreesOn_other b source date db₁ after ns
          (AgreesOn-ledger b db txs' (λ x lt. (tt, c.same b x (inl (ns, nd)))) h.consistent) r)
        r'

  -- A change of the ledger for two accounts, and a rebuild of both from its date.
  pub change_rebuild_two :
      (source destination b : Account) (date : Date) (db after db' : Db) (txs' : List Transaction)
      → source.id ≢ destination.id
      → ChangesForTwo source destination date db.transactions txs'
      → SnapshotsMatch b db
      → rebuild_for_budget source date (record db { transactions = txs' }) ≡ ok (tt, after)
      → rebuild_for_budget destination date after ≡ ok (tt, db')
      → Which source destination b
      → SnapshotsMatch b db'
  change_rebuild_two source destination b date db after db' txs' ne c h r r' which =
      let db₁ : Db = record db { transactions = txs' } in
      record {
        ends =
            rebuild-AtMonthEnds destination date after db'
              (rebuild-AtMonthEnds source date db₁ after (record { at = h.ends.at }) r) r';
        consistent = two-IsConsistent source destination b date db after db' txs' ne c h r r' which;
      }
