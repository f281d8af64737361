-- ===== src/Transfers/Ledger.antt =====
-- Creating a transfer, in the ledger.
use mathlib.Core.Path.{subst}
use babki_back.Prelude.{◌≡◌, ◌≢◌, ◌∙◌, ap, false, some, [], ◌∷◌, arith, ◌==◌}
use babki_back.Prelude.Int.{◌≤ℤ◌, ltb_ℤ}
use babki_back.Money.{Amount, Currency, Intl, normalize_money}
use babki_back.Mongo.{Mongo}
use babki_back.Http.{ok, other_error}
use babki_back.Schemas.{Db, ObjectId, Account, Transaction, TransferEffect}
use babki_back.Budget.{BudgetContext}
use babki_back.Snapshots.{balance_for_budget, prepare_for_budget, predates}
use babki_back.Snapshots.Balance.{balance_value}
use babki_back.Snapshots.Invariant.{SameLedger}
use babki_back.Transactions.Defs.{account_for_create, lock_accounts_for_budget}
use babki_back.Transactions.Frames.{
  SameLedger-refl, SameLedger-trans, lock_accounts_for_budget-SameLedger, prepare-rebuild,
  IsOpenAccount, account_for_create_ok,
}
use babki_back.Transfers.{
  CreateTransfer, transfer_document, validate_accounts, validate_amounts, create_between,
  create_for_budget,
}
use babki_back.Transfers.Steps.{
  TransferPosted, AmountsValid, validate_amounts_ok, row_posted, balance_ok,
}
use babki_back.Session.{or_raise, raise_if}
use babki_back.Session.Inversion.{bind_ok, raise_if_ok, or_raise_ok}

uncovered : (a b : Amount) → ltb_ℤ a b ≡ false → b ≤ℤ a
uncovered a b h = ground arith

-- The two sides of the document that is created.
unfoldable pub side : ObjectId → ObjectId → Amount → Currency → TransferEffect
side account_id snapshot_id amount currency = record {
  account_id = account_id;
  snapshot_id = snapshot_id;
  amount = amount;
  currency = currency;
}

module _ ⦃m : Mongo⦄ ⦃intl : Intl⦄ where
  -- What a transfer between two given accounts has done.
  pub record Between (budget : BudgetContext) (actor_id : ObjectId) (dto : CreateTransfer)
      (source destination : Account) (sc dc : Currency) (tx : Transaction) (db db' : Db)
      : Type 0 where
    pub valid : AmountsValid sc dc dto.source_amount dto.destination_amount
    pub available : Amount
    pub balance : balance_value source dto.transaction_date db.transactions ≡ ok available
    pub covered : normalize_money dto.source_amount sc ≤ℤ available
    pub source_snapshot : ObjectId
    pub destination_snapshot : ObjectId
    pub id : ObjectId
    pub document :
        tx
        ≡ transfer_document budget actor_id dto
            (side source.id source_snapshot (normalize_money dto.source_amount sc) sc)
            (side destination.id destination_snapshot
              (normalize_money dto.destination_amount dc)
              dc)
            id
    pub posted : TransferPosted source destination tx db db'

  pub create_between-Between :
      (budget : BudgetContext) (actor_id : ObjectId) (dto : CreateTransfer)
      (source destination : Account) (sc dc : Currency) (tx : Transaction) (db₀ db db' : Db)
      → SameLedger db₀ db
      → create_between budget actor_id dto source destination sc dc db ≡ ok (tx, db')
      → Between budget actor_id dto source destination sc dc tx db₀ db'
  unfolding create_between side
  create_between-Between budget actor_id dto source destination sc dc tx db₀ db db' same h =
      let date = dto.transaction_date in
      let amount = normalize_money dto.source_amount sc in
      let (u1, d1, h1, k1) =
        bind_ok (validate_amounts sc dc dto.source_amount dto.destination_amount) _ db h in
      let (e1, valid) =
        validate_amounts_ok sc dc dto.source_amount dto.destination_amount db d1 h1 in
      let (available, d2, h2, k2) = bind_ok (balance_for_budget source date) _ d1 k1 in
      let (value, e2) = balance_ok source date d1 d2 available h2 in
      let (u3, d3, h3, k3) = bind_ok (raise_if (ltb_ℤ available amount) _) _ d2 k2 in
      let (enough, e3) = raise_if_ok (ltb_ℤ available amount) _ d2 d3 h3 in
      let (s, d4, h4, k4) = bind_ok (prepare_for_budget source date) _ d3 k3 in
      let (d, d5, h5, k5) = bind_ok (prepare_for_budget destination date) _ d4 k4 in
      let same₃ = SameLedger-trans db₀ db d3 same (SameLedger-refl db d3 (e3 ∙ e2 ∙ e1)) in
      let (document, posted) =
        row_posted budget actor_id dto source destination _ _ tx db₀ d3 d4 d5 db' same₃
          (prepare-rebuild source date d3 d4 s h4) (prepare-rebuild destination date d4 d5 d h5)
          k5 in
      record {
        valid = valid;
        available = available;
        balance =
            subst (λ t. balance_value source date t ≡ ok available)
              (ap (λ (x : Db). x.transactions) e1 ∙ same.transactions) value;
        covered = uncovered available amount enough;
        source_snapshot = s.id;
        destination_snapshot = d.id;
        id = document.0;
        document = document.1;
        posted = posted;
      }

  -- What a transfer has done: two different open accounts of the budget, and the rest.
  pub record Transferred (budget : BudgetContext) (actor_id : ObjectId) (dto : CreateTransfer)
      (tx : Transaction) (db db' : Db) : Type 0 where
    pub source : Account
    pub destination : Account
    pub locked : Db
    pub source_found : IsOpenAccount budget dto.source_account_id source locked
    pub destination_found : IsOpenAccount budget dto.destination_account_id destination locked
    pub differ : source.id ≢ destination.id
    pub source_opened : predates dto.transaction_date source.opened_at ≡ false
    pub destination_opened : predates dto.transaction_date destination.opened_at ≡ false
    pub sc : Currency
    pub dc : Currency
    pub source_currency : source.currency ≡ some sc
    pub destination_currency : destination.currency ≡ some dc
    pub between : Between budget actor_id dto source destination sc dc tx db db'

  ids_differ : (a b x y : ObjectId) → (x == y) ≡ false → a ≡ x → b ≡ y → a ≢ b
  ids_differ a b x y h p q = ground arith

  pub create-Transferred :
      (budget : BudgetContext) (actor_id : ObjectId) (dto : CreateTransfer) (tx : Transaction)
      (db db' : Db)
      → create_for_budget budget actor_id dto db ≡ ok (tx, db')
      → Transferred budget actor_id dto tx db db'
  unfolding create_for_budget validate_accounts
  create-Transferred budget actor_id dto tx db db' h =
      let date = dto.transaction_date in
      let ids = dto.source_account_id ∷ dto.destination_account_id ∷ [] in
      let (u1, d1, h1, k1) = bind_ok (validate_accounts dto) _ db h in
      let (ne, e1) = raise_if_ok (dto.source_account_id == dto.destination_account_id) _ db d1 h1 in
      let (u2, d2, h2, k2) = bind_ok (lock_accounts_for_budget budget ids) _ d1 k1 in
      let (source, d3, h3, k3) =
        bind_ok (account_for_create budget dto.source_account_id date) _ d2 k2 in
      let (e3, sf, so) = account_for_create_ok budget dto.source_account_id date source d2 d3 h3 in
      let (destination, d4, h4, k4) =
        bind_ok (account_for_create budget dto.destination_account_id date) _ d3 k3 in
      let (e4, df, do') =
        account_for_create_ok budget dto.destination_account_id date destination d3 d4 h4 in
      let (sc, d5, h5, k5) = bind_ok (or_raise source.currency other_error) _ d4 k4 in
      let (has_sc, e5) = or_raise_ok source.currency other_error d4 d5 sc h5 in
      let (dc, d6, h6, k6) = bind_ok (or_raise destination.currency other_error) _ d5 k5 in
      let (has_dc, e6) = or_raise_ok destination.currency other_error d5 d6 dc h6 in
      let same = SameLedger-trans db d1 d6 (SameLedger-refl db d1 e1) (
        SameLedger-trans d1 d2 d6 (lock_accounts_for_budget-SameLedger budget ids d1 d2 h2)
          (SameLedger-refl d2 d6 (e6 ∙ e5 ∙ e4 ∙ e3))) in
      record {
        source = source;
        destination = destination;
        locked = d2;
        source_found = sf;
        destination_found =
            subst (IsOpenAccount budget dto.destination_account_id destination) e3 df;
        differ =
            ids_differ source.id destination.id dto.source_account_id dto.destination_account_id ne
              sf.id_eq df.id_eq;
        source_opened = so;
        destination_opened = do';
        sc = sc;
        dc = dc;
        source_currency = has_sc;
        destination_currency = has_dc;
        between =
            create_between-Between budget actor_id dto source destination sc dc tx db d6 db' same
              k6;
      }
