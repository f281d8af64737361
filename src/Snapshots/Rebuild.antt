-- ===== src/Snapshots/Rebuild.antt =====
-- What a rebuild of the snapshots of an account does.
use mathlib.Core.Option
use mathlib.Core.Path.{subst}
use babki_back.Prelude.{
  ◌<◌, ap, Option-cases, ◌≡◌, refl, Bool, true, ◌&&◌, ◌||◌, Option, none, some, List, [], ◌∷◌, ◌++◌,
  arith, leb, ◌==◌, if◌then◌else◌, is_some, map, inl, inr, Bool-cases, ◌⊎◌,
}
use babki_back.Money.{known_currency, Amount, Currency, Intl}
use babki_back.Dates.{Date, utc_month_end}
use babki_back.Mongo.{Mongo, first, matching, change_first}
use babki_back.Http.{Exception, Result, ok, err}
use babki_back.Schemas.{Db, ObjectId, Account, AccountSnapshot}
use babki_back.Snapshots.{
  snapshot_at, from_month_end, contains_date, add_date, date_map, upserted, upsert_snapshot,
  rebuild_dates, rebuild_for_budget,
}
use babki_back.Snapshots.Balance.{balance_value, balance_value-ok, balance_for_budget-eq-value}

-- The amount of the snapshot of an account at a date.
unfoldable pub amount_at : ObjectId → Date → List AccountSnapshot → Option Amount
amount_at a date c = Option.map (λ s. s.amount) (first (snapshot_at a date) c)

abbrev pub value_of {ℓ} : {A : Type ℓ} → Result A → Option A
value_of (ok a) = some a
value_of (err e) = none

Result-cases {ℓ} :
    {A : Type ℓ} (r : Result A) → ((a : A) × (r ≡ ok a)) ⊎ ((e : Exception) × (r ≡ err e))
Result-cases (ok a) = inl (a, refl)
Result-cases (err e) = inr (e, refl)

absurd_err {ℓ κ} : {A : Type ℓ} {B : Type κ} {e : Exception} {a : A} → err e ≡ ok a → B
absurd_err h = cc

contains_date-append :
    (d e : Date) (ds : List Date) → contains_date e (ds ++ d ∷ []) ≡ (contains_date e ds || d == e)
unfolding contains_date
contains_date-append d e [] = ground arith
contains_date-append d e (x ∷ ds) = ground (arith, contains_date-append d e ds)

contains_date_eq : (d e : Date) (ds : List Date) → d ≡ e → contains_date d ds ≡ contains_date e ds
contains_date_eq d e ds h = rw h

contains_date-add_date :
    (d e : Date) (ds : List Date) → contains_date e (add_date ds d) ≡ (contains_date e ds || d == e)
unfolding add_date
contains_date-add_date d e ds = ground (arith, contains_date-append d e ds, contains_date_eq d e ds)

contains_date-date_map :
    (e : Date) (keys ds : List Date)
    → contains_date e (date_map keys ds) ≡ (contains_date e keys || contains_date e ds)
unfolding date_map contains_date
contains_date-date_map e keys [] = ground arith
contains_date-date_map e keys (d ∷ ds) =
    ground (arith, contains_date-date_map e (add_date keys d) ds, contains_date-add_date d e keys)

contains_date-existing :
    (a : ObjectId) (from e : Date) (c : List AccountSnapshot)
    → contains_date e (map (λ s. s.date) (matching (from_month_end a from) c))
      ≡ (leb from e && is_some (amount_at a e c))
unfolding contains_date matching amount_at first snapshot_at
contains_date-existing a from e [] = ground arith
contains_date-existing a from e (s ∷ c) = ground (arith, contains_date-existing a from e c)

amount_at-change_first :
    (a b : ObjectId) (d e : Date) (v : Amount) (c : List AccountSnapshot)
    → is_some (first (snapshot_at a d) c) ≡ true
    → amount_at b e (change_first (snapshot_at a d) (λ s. record s { amount = v }) c)
      ≡ (if b == a && e == d then some v else amount_at b e c)
unfolding amount_at first change_first snapshot_at
amount_at-change_first a b d e v [] h = cc
amount_at-change_first a b d e v (s ∷ c) h = ground (arith, amount_at-change_first a b d e v c)

amount_at-append :
    (b : ObjectId) (e : Date) (c : List AccountSnapshot) (s : AccountSnapshot)
    → amount_at b e (c ++ s ∷ []) ≡ (
        if is_some (amount_at b e c)
        then amount_at b e c
        else if snapshot_at b e s
        then some s.amount
        else none)
unfolding amount_at first
amount_at-append b e [] s = ground arith
amount_at-append b e (x ∷ c) s = ground (arith, amount_at-append b e c s)

module _ ⦃m : Mongo⦄ ⦃intl : Intl⦄ where
  found-amount_at :
      (a : ObjectId) (d : Date) (c : List AccountSnapshot)
      → is_some (m.find_one (snapshot_at a d) c) ≡ is_some (amount_at a d c)
  unfolding amount_at
  found-amount_at a d c = rw m.find_one_law (ground arith)

  -- An upsert writes the amount at its date, and nothing else.
  pub amount_at-upserted :
      (account : Account) (d : Date) (v : Amount) (b : ObjectId) (e : Date)
      (c : List AccountSnapshot)
      → amount_at b e (upserted account d v c)
        ≡ (if b == account.id && e == d then some v else amount_at b e c)
  unfolding upserted
  amount_at-upserted account d v b e c =
      elim (Bool-cases (is_some (m.find_one (snapshot_at account.id d) c))) [
        | inl old ↦
            rw (old, m.update_one_law)
              (amount_at-change_first account.id b d e v c (rw (← m.find_one_law) old))
        | inr new ↦
            rw (new, m.insert_law)
              (unfold snapshot_at in
                ground (
                  arith,
                  found-amount_at account.id d c,
                  amount_at-append b e c (record {
                    id = m.object_id (map (λ s. s.id) c);
                    account_id = account.id;
                    amount = v;
                    date = d;
                  }),
                ))
      ]

  -- One round of the loop.
  rebuild_dates-cons :
      (account : Account) (d : Date) (ds : List Date) (db : Db)
      → rebuild_dates account (d ∷ ds) db ≡ elim (balance_value account d db.transactions) [
        | ok v ↦
            rebuild_dates account ds (record db { snapshots = upserted account d v db.snapshots })
        | err e ↦ err e
      ]
  unfolding rebuild_dates upsert_snapshot
  rebuild_dates-cons account d ds db = ground (arith, balance_for_budget-eq-value account d db)

  -- What the loop does to the database: it writes the balance at each of its dates, and nothing
  -- else.
  pub record IsRebuilt (account : Account) (dates : List Date) (db db' : Db) : Type 0 where
    pub others : db' ≡ record db { snapshots = db'.snapshots }
    pub amounts :
        (b : ObjectId) (e : Date)
        → amount_at b e db'.snapshots ≡ (
            if b == account.id && contains_date e dates
            then value_of (balance_value account e db.transactions)
            else amount_at b e db.snapshots)

  rebuild_dates-nil :
      (account : Account) (db db' : Db) → rebuild_dates account [] db ≡ ok (tt, db') → db ≡ db'
  unfolding rebuild_dates
  rebuild_dates-nil account db db' h = cc

  IsRebuilt-nil : (account : Account) (db : Db) → IsRebuilt account [] db db
  unfolding contains_date
  IsRebuilt-nil account db = record { others = refl; amounts = λ b e. ground arith }

  rebuild_dates-IsRebuilt :
      (account : Account) (dates : List Date) (db db' : Db)
      → rebuild_dates account dates db ≡ ok (tt, db')
      → IsRebuilt account dates db db'
  unfolding contains_date
  rebuild_dates-IsRebuilt account [] db db' h =
      subst (IsRebuilt account [] db) (rebuild_dates-nil account db db' h)
        (IsRebuilt-nil account db)
  rebuild_dates-IsRebuilt account (d ∷ ds) db db' h =
      elim (Result-cases (balance_value account d db.transactions)) [
        | inl (v, e) ↦
            let db₁ : Db = record db { snapshots = upserted account d v db.snapshots } in
            let ih = rebuild_dates-IsRebuilt account ds db₁ db' (rw (rebuild_dates-cons, e) at h) in
            record {
              others = ih.others;
              amounts = λ b x.
                  ground (arith, ih.amounts b x, amount_at-upserted account d v b x db.snapshots);
            }
        | inr (x, e) ↦ absurd_err (rw (rebuild_dates-cons, e) at h)
      ]

  -- The dates that a rebuild from `from` recomputes: those of the snapshots from that month end on,
  -- and the month end itself.
  pub is_rebuilt : Account → Date → Date → List AccountSnapshot → Bool
  is_rebuilt account from e c =
      (leb (utc_month_end from) e && is_some (amount_at account.id e c)) || utc_month_end from == e

  dates-is_rebuilt :
      (account : Account) (from e : Date) (db : Db)
      → contains_date e (
          add_date
            (date_map [] (
              map
                (λ s. s.date)
                (m.find (from_month_end account.id (utc_month_end from)) db.snapshots)))
            (utc_month_end from))
        ≡ is_rebuilt account from e db.snapshots
  unfolding is_rebuilt contains_date
  dates-is_rebuilt account from e db =
      rw (m.find_law, contains_date-add_date, contains_date-date_map, contains_date-existing)
        (ground arith)

  -- A rebuild writes the balance at the month end of its date and at every later date of a
  -- snapshot of the account, and nothing else.
  pub record IsRebuiltFrom (account : Account) (from : Date) (db db' : Db) : Type 0 where
    pub others : db' ≡ record db { snapshots = db'.snapshots }
    pub amounts :
        (b : ObjectId) (e : Date)
        → amount_at b e db'.snapshots ≡ (
            if b == account.id && is_rebuilt account from e db.snapshots
            then value_of (balance_value account e db.transactions)
            else amount_at b e db.snapshots)

  -- A rebuild that returns has written the balance at the month end of its date and at every
  -- later date of a snapshot of the account, and nothing else.
  pub rebuild_for_budget-IsRebuiltFrom :
      (account : Account) (from : Date) (db db' : Db)
      → rebuild_for_budget account from db ≡ ok (tt, db')
      → IsRebuiltFrom account from db db'
  unfolding rebuild_for_budget
  rebuild_for_budget-IsRebuiltFrom account from db db' h =
      let r = rebuild_dates-IsRebuilt account _ db db' h in
      record {
        others = r.others;
        amounts = λ b e. rw (← dates-is_rebuilt account from e db) (r.amounts b e);
      }

  rebuild_dates_total :
      (account : Account) (dates : List Date) (db : Db) (c : Currency)
      → known_currency account.currency ≡ some c
      → (db' : Db) × (rebuild_dates account dates db ≡ ok (tt, db'))
  rebuild_dates_total account [] db c h = (db, unfold rebuild_dates in refl)
  rebuild_dates_total account (d ∷ ds) db c h =
      let (v, e) = balance_value-ok account d db.transactions c h in
      let (db', q) =
        rebuild_dates_total account ds (record db { snapshots = upserted account d v db.snapshots })
          c h in
      (db', rw (rebuild_dates-cons, e) q)

  rebuild_returns :
      (account : Account) (from : Date) (db : Db) (c : Currency)
      → known_currency account.currency ≡ some c
      → (db' : Db) × (rebuild_for_budget account from db ≡ ok (tt, db'))
  unfolding rebuild_for_budget
  rebuild_returns account from db c h = rebuild_dates_total account _ db c h

  -- The rebuild of the snapshots of an account that has a supported currency returns, and it has
  -- then written the balance at the month end of its date and at every later date of a snapshot of
  -- the account, and nothing else.
  pub rebuild_for_budget_total :
      (account : Account) (from : Date) (db : Db) (c : Currency)
      → known_currency account.currency ≡ some c
      → (db' : Db) × (rebuild_for_budget account from db ≡ ok (tt, db'))
        × IsRebuiltFrom account from db db'
  rebuild_for_budget_total account from db c h =
      let (db', runs) = rebuild_returns account from db c h in
      (db', runs, rebuild_for_budget-IsRebuiltFrom account from db db' runs)

  -- A snapshot after a rebuild is new, or old and then, if it is of the account, before the month.
  pub rebuilt_cases :
      (account : Account) (from : Date) (db db' : Db)
      → IsRebuiltFrom account from db db'
      → (b : ObjectId) (e : Date) (v : Amount) → amount_at b e db'.snapshots ≡ some v
      → ((b ≡ account.id) × (value_of (balance_value account e db.transactions) ≡ some v))
        ⊎ ((amount_at b e db.snapshots ≡ some v) × (b ≡ account.id → e < utc_month_end from))
  unfolding is_rebuilt
  rebuilt_cases account from db db' r b e v h =
      elim (Bool-cases (b == account.id && is_rebuilt account from e db.snapshots)) [
        | inl new ↦ inl (ground arith, ground (arith, r.amounts b e))
        | inr old ↦ inr (ground (arith, r.amounts b e), λ same. ground (arith, r.amounts b e))
      ]

  -- A rebuild adds no snapshot but the one at the month end of its date.
  pub rebuilt_dates :
      (account : Account) (from : Date) (db db' : Db)
      → IsRebuiltFrom account from db db'
      → (b : ObjectId) (e : Date) (v : Amount) → amount_at b e db'.snapshots ≡ some v
      → (e ≡ utc_month_end from) ⊎ ((w : Amount) × (amount_at b e db.snapshots ≡ some w))
  unfolding is_rebuilt
  rebuilt_dates account from db db' r b e v h = elim (Option-cases (amount_at b e db.snapshots)) [
    | inl fresh ↦ inl (ground (arith, r.amounts b e))
    | inr old ↦ inr old
  ]

  -- A rebuild leaves the ledger alone.
  pub rebuild-transactions :
      (account : Account) (from : Date) (db db' : Db)
      → rebuild_for_budget account from db ≡ ok (tt, db')
      → db'.transactions ≡ db.transactions
  rebuild-transactions account from db db' h =
      ap (λ (d : Db). d.transactions)
        (rebuild_for_budget-IsRebuiltFrom account from db db' h).others
