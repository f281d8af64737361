-- ===== src/Transfers/Theorems.antt =====
-- What creating a transfer does to the two accounts, the balances and the snapshots
-- (src/modules/transactions/transfers/transfers.service.ts, `createForBudget`).
use mathlib.Core.Path.{subst, subst₂}
use babki_back.Prelude.{◌∙◌, ◌≡◌, ◌≢◌, refl, sym, true, false, some, arith, Option}
use babki_back.Prelude.Int.{pos, neg, ◌≤ℤ◌}
use babki_back.Money.{known-of, Amount, Currency, Intl, normalize_money}
use babki_back.Money.Precision.{normalize_money_exact, neg-IsExact, normalize_money-IsExact}
use babki_back.Mongo.{Mongo}
use babki_back.Http.{ok}
use babki_back.Schemas.{Db, ObjectId, Account, Transaction, TransferEffect, transfer}
use babki_back.Budget.{BudgetContext}
use babki_back.Snapshots.{balance_for_budget, detail_concerns, detail_movement}
use babki_back.Snapshots.Balance.{balance_code}
use babki_back.Snapshots.Invariant.{SnapshotsMatch, Which}
use babki_back.Transfers.{CreateTransfer, transfer_document, create_for_budget}
use babki_back.Transfers.Ledger.{side, Transferred, create-Transferred}
use babki_back.Transfers.Steps.{AmountsValid}
use babki_back.Transfers.Effects.{
  OnlyOf, TransferPosted-SnapshotsMatch, MovesTwo, IsLiveFor, TransferPosted-MovesTwo,
}

transfer_only :
    (a b : Account) (s d : TransferEffect)
    → s.account_id ≡ a.id
    → d.account_id ≡ b.id
    → (x : Account) → x.id ≢ a.id
    → x.id ≢ b.id
    → detail_concerns x.id (transfer s d) ≡ false
unfolding detail_concerns
transfer_only a b s d p q x na nb = ground arith

source_side :
    (a : ObjectId) (s d : TransferEffect)
    → s.account_id ≡ a
    → (detail_concerns a (transfer s d) ≡ true) × (detail_movement a (transfer s d) ≡ neg s.amount)
unfolding detail_concerns detail_movement
source_side a s d p = (ground arith, ground arith)

destination_side :
    (b : ObjectId) (s d : TransferEffect)
    → d.account_id ≡ b
    → s.account_id ≢ b
    → (detail_concerns b (transfer s d) ≡ true) × (detail_movement b (transfer s d) ≡ d.amount)
unfolding detail_concerns detail_movement
destination_side b s d p ne = (ground arith, ground arith)

module _ ⦃m : Mongo⦄ ⦃intl : Intl⦄ where
  module _ {budget : BudgetContext} {actor_id : ObjectId} {dto : CreateTransfer} {tx : Transaction}
      {db db' : Db} where
    -- The accounts are those of the request.
    created_only :
        (t : Transferred budget actor_id dto tx db db') → OnlyOf t.source t.destination tx
    unfolding side transfer_document
    created_only t x na nd =
        rw t.between.document (transfer_only t.source t.destination _ _ refl refl x na nd)

    created_sides :
        (t : Transferred budget actor_id dto tx db db')
        → tx.detail
          ≡ transfer
              (side t.source.id t.between.source_snapshot
                (normalize_money dto.source_amount t.sc)
                t.sc)
              (side t.destination.id t.between.destination_snapshot
                (normalize_money dto.destination_amount t.dc)
                t.dc)
    unfolding transfer_document
    created_sides t = rw t.between.document refl

    source_movement :
        (t : Transferred budget actor_id dto tx db db')
        → detail_movement t.source.id tx.detail ≡ neg (normalize_money dto.source_amount t.sc)
    unfolding side transfer_document
    source_movement t = rw t.between.document ((source_side t.source.id _ _ refl).1)

    destination_movement :
        (t : Transferred budget actor_id dto tx db db')
        → detail_movement t.destination.id tx.detail ≡ normalize_money dto.destination_amount t.dc
    unfolding side transfer_document
    destination_movement t =
        rw t.between.document ((destination_side t.destination.id _ _ refl t.differ).1)

    created_date :
        (t : Transferred budget actor_id dto tx db db') → tx.transaction_date ≡ dto.transaction_date
    unfolding transfer_document
    created_date t = rw t.between.document refl

    source_live : (t : Transferred budget actor_id dto tx db db') → IsLiveFor t.source tx
    unfolding side transfer_document
    source_live t = record {
      cur = t.sc;
      has = known-of t.source.currency t.sc t.source_currency t.between.valid.source_known;
      exact =
          rw (source_movement t)
            (neg-IsExact _ t.sc (normalize_money-IsExact dto.source_amount t.sc));
      space = rw t.between.document (sym t.source_found.space);
      concerned = rw t.between.document ((source_side t.source.id _ _ refl).0);
      live = rw t.between.document refl;
      opened = rw (created_date t) t.source_opened;
    }

    destination_live : (t : Transferred budget actor_id dto tx db db') → IsLiveFor t.destination tx
    unfolding side transfer_document
    destination_live t = record {
      cur = t.dc;
      has =
          known-of t.destination.currency t.dc t.destination_currency
            t.between.valid.destination_known;
      exact = rw (destination_movement t) (normalize_money-IsExact dto.destination_amount t.dc);
      space = rw t.between.document (sym t.destination_found.space);
      concerned = rw t.between.document ((destination_side t.destination.id _ _ refl t.differ).0);
      live = rw t.between.document refl;
      opened = rw (created_date t) t.destination_opened;
    }

    created_moves :
        (t : Transferred budget actor_id dto tx db db')
        → MovesTwo t.source t.destination dto.transaction_date
            (neg (normalize_money dto.source_amount t.sc))
            (normalize_money dto.destination_amount t.dc)
            db
            db'
    created_moves t =
        let moves =
          TransferPosted-MovesTwo t.source t.destination tx db db' t.between.posted (created_only t)
            (source_live t) (destination_live t) in
        rw (created_date t, source_movement t, destination_movement t) at moves

  currencies : {a b : Currency} {x y : Option Currency} → x ≡ some a → y ≡ some b → x ≡ y → a ≡ b
  currencies p q e = cc

  -- What is promised of a transfer that is created.
  pub record IsFairTransfer (budget : BudgetContext) (dto : CreateTransfer) (tx : Transaction)
      (db db' : Db) : Type 0 where
    pub source : Account
    pub destination : Account
    pub source_id : source.id ≡ dto.source_account_id
    pub destination_id : destination.id ≡ dto.destination_account_id
    pub source_space : source.space_id ≡ budget.space_id
    pub destination_space : destination.space_id ≡ budget.space_id
    pub differ : source.id ≢ destination.id
    -- The two sides of the document.
    pub source_side : TransferEffect
    pub destination_side : TransferEffect
    pub document : tx.detail ≡ transfer source_side destination_side
    pub sent : (source_side.account_id ≡ source.id) × (source_side.amount ≡ dto.source_amount)
    pub received :
        (destination_side.account_id ≡ destination.id)
        × (destination_side.amount ≡ dto.destination_amount)
    pub positive : (pos 1 ≤ℤ dto.source_amount) × (pos 1 ≤ℤ dto.destination_amount)
    pub same_currency :
        source.currency ≡ destination.currency → dto.source_amount ≡ dto.destination_amount
    pub available : Amount
    pub balance : balance_for_budget source dto.transaction_date db ≡ ok (available, db)
    pub covered : dto.source_amount ≤ℤ available
    pub moves :
        MovesTwo source destination dto.transaction_date
          (neg dto.source_amount)
          dto.destination_amount
          db
          db'
    pub snapshots :
        (b : Account) → Which source destination b → SnapshotsMatch b db → SnapshotsMatch b db'

  -- An amount that is accepted is not rounded.
  equal_amounts : {sc dc : Currency} {x y : Amount} → AmountsValid sc dc x y → sc ≡ dc → x ≡ y
  equal_amounts {sc} {dc} {x} {y} v e =
      sym (normalize_money_exact x sc v.source_exact)
      ∙ v.equal e
      ∙ normalize_money_exact y dc v.destination_exact

  -- A transfer that is created is between two different accounts of the space, with the positive
  -- amounts of the request on its two sides, which are the same where the currencies are. What is
  -- sent is covered by the balance of the source at the date. From that date on the source has as
  -- much less and the destination the received amount more; every other balance stays, and all
  -- snapshots that agreed with the ledger agree with it again.
  pub create_transfer-IsFairTransfer :
      (budget : BudgetContext) (actor_id : ObjectId) (dto : CreateTransfer) (tx : Transaction)
      (db db' : Db)
      → create_for_budget budget actor_id dto db ≡ ok (tx, db')
      → IsFairTransfer budget dto tx db db'
  unfolding side
  create_transfer-IsFairTransfer budget actor_id dto tx db db' h =
      let t = create-Transferred budget actor_id dto tx db db' h in
      let valid = t.between.valid in
      let out = normalize_money_exact dto.source_amount t.sc valid.source_exact in
      let into = normalize_money_exact dto.destination_amount t.dc valid.destination_exact in
      let moved = created_moves t in
      record {
        source = t.source;
        destination = t.destination;
        source_id = t.source_found.id_eq;
        destination_id = t.destination_found.id_eq;
        source_space = t.source_found.space;
        destination_space = t.destination_found.space;
        differ = t.differ;
        source_side =
            side t.source.id t.between.source_snapshot (normalize_money dto.source_amount t.sc)
              t.sc;
        destination_side =
            side t.destination.id t.between.destination_snapshot
              (normalize_money dto.destination_amount t.dc) t.dc;
        document = created_sides t;
        sent = (refl, out);
        received = (refl, into);
        positive = (
          subst (λ z. pos 1 ≤ℤ z) out valid.source_positive,
          subst (λ z. pos 1 ≤ℤ z) into valid.destination_positive,
        );
        same_currency =
            λ e. equal_amounts valid (currencies t.source_currency t.destination_currency e);
        available = t.between.available;
        balance = balance_code t.source dto.transaction_date db _ t.between.balance;
        covered = subst (λ z. z ≤ℤ t.between.available) out t.between.covered;
        moves =
            subst₂ (λ x y. MovesTwo t.source t.destination dto.transaction_date (neg x) y db db')
              out into moved;
        snapshots = λ b which s.
            TransferPosted-SnapshotsMatch t.source t.destination b tx db db' t.between.posted
              t.differ (created_only t) which s;
      }
