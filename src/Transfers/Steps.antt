-- ===== src/Transfers/Steps.antt =====
-- What the steps of a transfer that returns have done.
use mathlib.Core.Path.{subst₂}
use babki_back.Prelude.{true, ◌≡◌, sym, ◌∙◌, [], ◌∷◌, ◌++◌, arith, map}
use babki_back.Prelude.Int.{pos, ◌≤ℤ◌, neg}
use babki_back.Money.{Amount, Currency, Intl, normalize_money}
use babki_back.Money.Precision.{IsExact, valid_iff_IsExact}
use babki_back.Dates.{Date}
use babki_back.Mongo.{Mongo}
use babki_back.Http.{ok}
use babki_back.Schemas.{Db, ObjectId, Account, Transaction, TransferEffect}
use babki_back.Budget.{BudgetContext}
use babki_back.Snapshots.{balance_for_budget, apply_for_budget, rebuild_for_budget}
use babki_back.Snapshots.Balance.{balance_value, balance_value-of_code, balance_code}
use babki_back.Snapshots.Invariant.{SameLedger}
use babki_back.Transfers.{CreateTransfer, transfer_document, validate_amounts, apply, create_row}
use babki_back.Session.Inversion.{bind_ok, pure_ok}

module _ ⦃m : Mongo⦄ ⦃intl : Intl⦄ where
  -- Both accounts are rebuilt, the source first.
  pub record Applied (source destination : Account) (date : Date) (db db' : Db) : Type 0 where
    pub after : Db
    pub first_rebuild : rebuild_for_budget source date db ≡ ok (tt, after)
    pub second_rebuild : rebuild_for_budget destination date after ≡ ok (tt, db')

  pub apply-Applied :
      (source destination : Account) (date : Date) (x y : Amount) (db db' : Db)
      → apply source destination date x y db ≡ ok (tt, db')
      → Applied source destination date db db'
  unfolding apply apply_for_budget
  apply-Applied source destination date x y db db' h =
      let (u, d1, h1, k1) = bind_ok (rebuild_for_budget source date) _ db h in
      record { after = d1; first_rebuild = h1; second_rebuild = k1 }

  -- The balance is read from the ledger, and nothing is written.
  pub balance_ok :
      (account : Account) (date : Date) (db db' : Db) (v : Amount)
      → balance_for_budget account date db ≡ ok (v, db')
      → (balance_value account date db.transactions ≡ ok v) × (db' ≡ db)
  balance_ok account date db db' v h =
      let e = balance_value-of_code account date db db' v h in
      (e, (pure_ok v v db' db (sym h ∙ balance_code account date db v e)).1)

  -- How the document of a transfer came into the ledger.
  pub record TransferPosted (source destination : Account) (tx : Transaction) (db db' : Db)
      : Type 0 where
    pub before : Db
    pub prepared₁ : Db
    pub prepared₂ : Db
    pub same : SameLedger db before
    pub prepares_source : rebuild_for_budget source tx.transaction_date before ≡ ok (tt, prepared₁)
    pub prepares_destination :
        rebuild_for_budget destination tx.transaction_date prepared₁ ≡ ok (tt, prepared₂)
    pub applied :
        Applied source destination tx.transaction_date
          (record prepared₂ { transactions = prepared₂.transactions ++ tx ∷ [] })
          db'

  -- The amounts of a transfer that is accepted.
  pub record AmountsValid (sc dc : Currency) (x y : Amount) : Type 0 where
    pub source_positive : pos 1 ≤ℤ normalize_money x sc
    pub destination_positive : pos 1 ≤ℤ normalize_money y dc
    pub source_known : intl.supported sc ≡ true
    pub destination_known : intl.supported dc ≡ true
    pub source_exact : IsExact sc x
    pub destination_exact : IsExact dc y
    pub equal : sc ≡ dc → normalize_money x sc ≡ normalize_money y dc

  pub validate_amounts_ok :
      (sc dc : Currency) (x y : Amount) (db db' : Db)
      → validate_amounts sc dc x y db ≡ ok (tt, db')
      → (db' ≡ db) × AmountsValid sc dc x y
  unfolding validate_amounts
  validate_amounts_ok sc dc x y db db' h = (
    ground arith,
    record {
      source_positive = ground arith;
      destination_positive = ground arith;
      source_known = ground arith;
      destination_known = ground arith;
      source_exact = (valid_iff_IsExact x sc).0 (ground arith);
      destination_exact = (valid_iff_IsExact y dc).0 (ground arith);
      equal = λ same. ground arith;
    },
  )

  pub row_posted :
      (budget : BudgetContext) (actor_id : ObjectId) (dto : CreateTransfer)
      (source destination : Account) (s d : TransferEffect) (tx : Transaction)
      (db before prepared₁ prepared₂ db' : Db)
      → SameLedger db before
      → rebuild_for_budget source dto.transaction_date before ≡ ok (tt, prepared₁)
      → rebuild_for_budget destination dto.transaction_date prepared₁ ≡ ok (tt, prepared₂)
      → create_row budget actor_id dto source destination s d prepared₂ ≡ ok (tx, db')
      → ((id : ObjectId) × (tx ≡ transfer_document budget actor_id dto s d id))
        × TransferPosted source destination tx db db'
  unfolding create_row transfer_document
  row_posted budget actor_id dto source destination s d tx db before prepared₁ prepared₂ db' same ps
        pd h =
      let id = m.object_id (map (λ t. t.id) prepared₂.transactions) in
      let doc = transfer_document budget actor_id dto s d id in
      let with_doc : Db = record prepared₂ { transactions = m.insert doc prepared₂.transactions } in
      let (u, d5, h5, k5) =
        bind_ok (apply source destination dto.transaction_date (neg s.amount) d.amount) _ with_doc
          h in
      let (e, e') = pure_ok doc tx d5 db' k5 in
      let steps = apply-Applied source destination dto.transaction_date _ _ with_doc d5 h5 in
      (
        (id, sym e),
        subst₂ (λ x y. TransferPosted source destination x db y) e e'
            (record {
              before = before;
              prepared₁ = prepared₁;
              prepared₂ = prepared₂;
              same = same;
              prepares_source = ps;
              prepares_destination = pd;
              applied = rw m.insert_law at steps;
            }),
      )
