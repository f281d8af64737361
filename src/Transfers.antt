-- ===== src/Transfers.antt =====
-- Transfers between two accounts of a space
-- (src/modules/transactions/transfers/transfers.service.ts).
pub mod Steps
pub mod Ledger
pub mod Effects
pub mod Theorems
use babki_back.Prelude.{
  Bool, true, false, ◌&&◌, ◌||◌, not, Option, none, some, List, [], ◌∷◌, ◌==◌, if◌then◌else◌,
  is_some, get_or,
}
use babki_back.Prelude.Int.{pos, leb_ℤ, ltb_ℤ, eq_ℤ, ◌-ℤ◌, neg}
use babki_back.Money.{Amount, Currency, Intl, normalize_money, has_valid_money_precision}
use babki_back.Dates.{Date}
use babki_back.Mongo.{Mongo}
use babki_back.Http.{
  other_error, not_found, bad_request, accounts_must_differ, insufficient_funds, transfer_not_found,
  transfer_amounts_not_positive, amount_exceeds_precision, same_currency_amounts_differ,
}
use babki_back.Schemas.{
  ObjectId, Text, Account, Transaction, TransactionDetail, TransferEffect, income, expense,
  transfer,
}
use babki_back.Budget.{BudgetContext}
use babki_back.Snapshots.{balance_for_budget, prepare_for_budget, apply_for_budget}
use babki_back.Transactions.Defs.{
  account_for_create, account_for_budget, lock_accounts_for_budget, transaction_filter,
  mark_deleted, transfer_type,
}
use babki_back.Tables
use babki_back.Session.{
  Action, pure, raise, or_raise, raise_if, ◌>>=◌, ◌>>◌, find_one, create, find_one_and_update,
}

pub record CreateTransfer : Type 0 where
  pub source_account_id : ObjectId
  pub destination_account_id : ObjectId
  pub source_amount : Amount
  pub destination_amount : Amount
  pub transaction_date : Date
  pub description : Option Text

pub record UpdateTransfer : Type 0 where
  pub source_amount : Option Amount
  pub destination_amount : Option Amount
  pub description : Option Text

-- The two sides of a transfer document.
unfoldable pub effects_of : TransactionDetail → Option (TransferEffect × TransferEffect)
effects_of (transfer s d) = some (s, d)
effects_of (income p) = none
effects_of (expense p x) = none

unfoldable pub transfer_document :
    BudgetContext
    → ObjectId
    → CreateTransfer
    → TransferEffect
    → TransferEffect
    → ObjectId
    → Transaction
transfer_document budget actor_id dto source destination id = record {
  id = id;
  space_id = budget.space_id;
  created_by = actor_id;
  deleted_at = none;
  deleted_by = none;
  origin = none;
  transaction_date = dto.transaction_date;
  description = dto.description;
  detail = transfer source destination;
}

-- `$set` of the two amounts, and of the description where there is one.
unfoldable pub set_sides : Amount → Amount → TransactionDetail → TransactionDetail
set_sides a b (transfer s d) = transfer (record s { amount = a }) (record d { amount = b })
set_sides a b (income p) = income p
set_sides a b (expense p x) = expense p x

unfoldable pub set_transfer : Amount → Amount → Option Text → Transaction → Transaction
set_transfer a b description tx = record tx {
  detail = set_sides a b tx.detail;
  description = if is_some description then description else tx.description;
}

module _ ⦃m : Mongo⦄ ⦃intl : Intl⦄ where
  -- Ids are compared as numbers, so the two tests of the source are one.
  unfoldable pub validate_accounts : CreateTransfer → Action (Unit {0})
  validate_accounts dto =
      raise_if (dto.source_account_id == dto.destination_account_id)
        (bad_request accounts_must_differ)

  unfoldable pub validate_amounts : Currency → Currency → Amount → Amount → Action (Unit {0})
  validate_amounts source_currency destination_currency source destination = do
    raise_if (leb_ℤ source (pos 0) || leb_ℤ destination (pos 0))
        (bad_request transfer_amounts_not_positive)
    raise_if (not (intl.supported source_currency)) other_error
    raise_if (leb_ℤ (normalize_money source source_currency) (pos 0))
        (bad_request transfer_amounts_not_positive)
    raise_if (not (intl.supported destination_currency)) other_error
    raise_if (leb_ℤ (normalize_money destination destination_currency) (pos 0))
        (bad_request transfer_amounts_not_positive)
    raise_if
        (not (has_valid_money_precision source source_currency)
          || not (has_valid_money_precision destination destination_currency))
        (bad_request amount_exceeds_precision)
    raise_if
        (source_currency == destination_currency
          && not (
              eq_ℤ (normalize_money source source_currency)
                (normalize_money destination destination_currency)))
        (bad_request same_currency_amounts_differ)

  unfoldable pub apply : Account → Account → Date → Amount → Amount → Action (Unit {0})
  apply source destination date source_delta destination_delta = do
    apply_for_budget source date source_delta
    apply_for_budget destination date destination_delta

  -- The document is added, and both accounts are rebuilt.
  unfoldable pub create_row :
      BudgetContext
      → ObjectId
      → CreateTransfer
      → Account
      → Account
      → TransferEffect
      → TransferEffect
      → Action Transaction
  unfolding apply
  create_row budget actor_id dto source destination s d = do
    stored ← create Tables.transactions (λ tx. tx.id) (transfer_document budget actor_id dto s d)
    apply source destination dto.transaction_date (neg s.amount) d.amount
    pure stored

  -- With both accounts and their currencies known.
  unfoldable pub create_between :
      BudgetContext
      → ObjectId
      → CreateTransfer
      → Account
      → Account
      → Currency
      → Currency
      → Action Transaction
  unfolding validate_amounts create_row
  create_between budget actor_id dto source destination source_currency destination_currency = do
    validate_amounts source_currency destination_currency dto.source_amount dto.destination_amount
    let source_amount = normalize_money dto.source_amount source_currency
    let destination_amount = normalize_money dto.destination_amount destination_currency
    available ← balance_for_budget source dto.transaction_date
    raise_if (ltb_ℤ available source_amount) (bad_request insufficient_funds)
    source_snapshot ← prepare_for_budget source dto.transaction_date
    destination_snapshot ← prepare_for_budget destination dto.transaction_date
    create_row budget actor_id dto source destination
        (record {
          account_id = source.id;
          snapshot_id = source_snapshot.id;
          amount = source_amount;
          currency = source_currency;
        })
        (record {
          account_id = destination.id;
          snapshot_id = destination_snapshot.id;
          amount = destination_amount;
          currency = destination_currency;
        })

  unfoldable pub create_for_budget : BudgetContext → ObjectId → CreateTransfer → Action Transaction
  unfolding validate_accounts create_between
  create_for_budget budget actor_id dto = do
    validate_accounts dto
    lock_accounts_for_budget budget (dto.source_account_id ∷ dto.destination_account_id ∷ [])
    source ← account_for_create budget dto.source_account_id dto.transaction_date
    destination ← account_for_create budget dto.destination_account_id dto.transaction_date
    source_currency ← or_raise source.currency other_error
    destination_currency ← or_raise destination.currency other_error
    create_between budget actor_id dto source destination source_currency destination_currency

  unfoldable pub get_stored_for_budget : BudgetContext → ObjectId → Action Transaction
  get_stored_for_budget budget id = do
    found ← find_one Tables.transactions (transaction_filter budget id (some transfer_type))
    or_raise found (not_found transfer_not_found)

  unfoldable pub lock_transfer_accounts :
      BudgetContext → TransferEffect → TransferEffect → Action (Account × Account)
  lock_transfer_accounts budget s d = do
    lock_accounts_for_budget budget (s.account_id ∷ d.account_id ∷ [])
    source ← account_for_budget budget s.account_id
    destination ← account_for_budget budget d.account_id
    pure (source, destination)

  -- An extra debit must be covered by the balance at the date of the transfer.
  unfoldable pub check_extra : Account → Date → Amount → Action (Unit {0})
  check_extra source date extra_debit =
      if ltb_ℤ (pos 0) extra_debit
      then (do
        available ← balance_for_budget source date
        raise_if (ltb_ℤ available extra_debit) (bad_request insufficient_funds))
      else pure tt

  unfoldable pub update_for_budget : BudgetContext → ObjectId → UpdateTransfer → Action Transaction
  unfolding get_stored_for_budget lock_transfer_accounts check_extra apply
  update_for_budget budget id dto = do
    stored ← get_stored_for_budget budget id
    (s, d) ← or_raise (effects_of stored.detail) other_error
    (source, destination) ← lock_transfer_accounts budget s d
    let asked_source = get_or dto.source_amount s.amount
    let asked_destination = get_or dto.destination_amount d.amount
    raise_if (not (intl.supported s.currency)) other_error
    raise_if (not (intl.supported d.currency)) other_error
    let source_amount = normalize_money asked_source s.currency
    let destination_amount = normalize_money asked_destination d.currency
    validate_amounts s.currency d.currency asked_source asked_destination
    let extra_debit = normalize_money (source_amount -ℤ s.amount) s.currency
    check_extra source stored.transaction_date extra_debit
    found ←
        find_one_and_update Tables.transactions (transaction_filter budget id (some transfer_type))
          (set_transfer source_amount destination_amount dto.description)
    updated ← or_raise found (not_found transfer_not_found)
    apply source destination stored.transaction_date (neg extra_debit)
        (destination_amount -ℤ d.amount)
    pure updated

  unfoldable pub delete_for_budget : BudgetContext → ObjectId → Date → ObjectId → Action (Unit {0})
  unfolding get_stored_for_budget lock_transfer_accounts apply
  delete_for_budget budget actor_id now id = do
    stored ← get_stored_for_budget budget id
    (s, d) ← or_raise (effects_of stored.detail) other_error
    (source, destination) ← lock_transfer_accounts budget s d
    found ←
        find_one_and_update Tables.transactions (transaction_filter budget id (some transfer_type))
          (mark_deleted now actor_id)
    deleted ← or_raise found (not_found transfer_not_found)
    apply source destination stored.transaction_date s.amount (neg d.amount)
