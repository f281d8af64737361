-- ===== src/Snapshots/Consistency.antt =====
-- Snapshots that agree with the ledger stay so when the ledger changes and the accounts that are
-- concerned are rebuilt from the date of the change.
use babki_back.Prelude.{◌<◌, ◌≡◌, ◌≢◌, refl, sym, ap, some, arith, inl, inr}
use mathlib.Core.Path.{subst}
use babki_back.Money.{Amount, Intl}
use babki_back.Dates.{Date, utc_month_end}
use babki_back.Dates.MonthEnd.{IsMonthEnd, utc_month_end_least, le-cases, utc_month_end-IsMonthEnd}
use babki_back.Mongo.{Mongo}
use babki_back.Http.{Result, ok, err}
use babki_back.Schemas.{Db, ObjectId, Account}
use babki_back.Snapshots.{rebuild_for_budget}
use babki_back.Snapshots.Balance.{balance_value}
use babki_back.Snapshots.Rebuild.{
  amount_at, value_of, rebuilt_cases, rebuilt_dates, rebuild_for_budget-IsRebuiltFrom,
}

ok_of_value : {A : Type 0} (r : Result A) (v : A) → value_of r ≡ some v → r ≡ ok v
ok_of_value (ok a) v h = cc
ok_of_value (err e) v h = cc

-- A month end before the month end of a date is before the date.
before_month_end : (e from : Date) → IsMonthEnd e → e < utc_month_end from → e < from
before_month_end e from h lt = elim (le-cases from e) [
  | inl le ↦ absurd (omega (arith, utc_month_end_least from e h le))
  | inr early ↦ early
]

-- Every snapshot stands at a month end.
pub record AtMonthEnds (db : Db) : Type 0 where
  pub at :
      (b : ObjectId) (e : Date) (v : Amount) → amount_at b e db.snapshots ≡ some v → IsMonthEnd e

module _ ⦃m : Mongo⦄ ⦃intl : Intl⦄ where
  -- The snapshots of the account at the dates in `P` hold the balances at their dates.
  pub record AgreesOn (P : Date → Type 0) (b : Account) (db : Db) : Type 0 where
    pub at :
        (e : Date) (v : Amount)
        → P e
        → amount_at b.id e db.snapshots ≡ some v
        → balance_value b e db.transactions ≡ ok v

  -- Every snapshot of the account holds the balance at its date.
  abbrev pub IsConsistent : Account → Db → Type 0
  IsConsistent b db = AgreesOn (λ e. Unit {0}) b db

  pub rebuild-AtMonthEnds :
      (account : Account) (from : Date) (db db' : Db)
      → AtMonthEnds db
      → rebuild_for_budget account from db ≡ ok (tt, db')
      → AtMonthEnds db'
  rebuild-AtMonthEnds account from db db' ends h =
      let r = rebuild_for_budget-IsRebuiltFrom account from db db' h in
      record {
        at = λ b e v p. elim (rebuilt_dates account from db db' r b e v p) [
          | inl q ↦ subst IsMonthEnd (sym q) (utc_month_end-IsMonthEnd from)
          | inr (w, q) ↦ ends.at b e w q
        ];
      }

  -- A rebuild of another account.
  pub rebuild-AgreesOn_other :
      {P : Date → Type 0} (b account : Account) (from : Date) (db db' : Db)
      → b.id ≢ account.id
      → AgreesOn P b db
      → rebuild_for_budget account from db ≡ ok (tt, db')
      → AgreesOn P b db'
  rebuild-AgreesOn_other b account from db db' other agrees h =
      let r = rebuild_for_budget-IsRebuiltFrom account from db db' h in
      record {
        at = λ e v pe p. elim (rebuilt_cases account from db db' r b.id e v p) [
          | inl (same, q) ↦ absurd (other same)
          | inr (old, q) ↦ rw (ap (λ (d : Db). d.transactions) r.others) (agrees.at e v pe old)
        ];
      }

  -- A rebuild of an account whose snapshots agree with the ledger before the date.
  pub rebuild-IsConsistent :
      (account : Account) (from : Date) (db db' : Db)
      → AtMonthEnds db
      → AgreesOn (λ e. e < from) account db
      → rebuild_for_budget account from db ≡ ok (tt, db')
      → IsConsistent account db'
  rebuild-IsConsistent account from db db' ends agrees h =
      let r = rebuild_for_budget-IsRebuiltFrom account from db db' h in
      record {
        at = λ e v pe p.
            rw (ap (λ (d : Db). d.transactions) r.others)
              (elim (rebuilt_cases account from db db' r account.id e v p) [
                | inl (same, q) ↦ ok_of_value _ v q
                | inr (old, q) ↦
                    agrees.at e v (before_month_end e from (ends.at account.id e v old) (q refl))
                      old
              ]);
      }
