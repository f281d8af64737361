-- ===== src/Http.antt =====
-- The exceptions that the services throw (NestJS), each with the message that it is thrown with.
use babki_back.Prelude.{Bool, true, false}

pub data Message : Type 0 where
  account_currency_missing amount_exceeds_precision item_price_exceeds_precision : Message
  transaction_predates_wallet accounts_must_differ insufficient_funds : Message
  transfer_amounts_not_positive same_currency_amounts_differ amount_not_positive : Message
  account_not_found transaction_not_found transfer_not_found category_not_found : Message
  category_archived category_in_use category_name_exists snapshot_not_found : Message
  plan_not_found plan_closed plan_currency_differs plan_has_history plan_changed : Message
  debt_not_found debt_managed_by_repayments debt_remaining_exceeds_principal : Message
  debt_has_repayments debt_closed repayment_exceeds_remaining invalid_repayment : Message
  repayment_account_required debt_currency_differs debt_changed repayment_not_found : Message
  repayment_cancelled repayment_income_inconsistent repayment_balance_inconsistent : Message
  debt_has_history debt_income_locked : Message
  space_not_found space_owner_required space_permission_required : Message
  member_not_found owner_must_stay already_owner already_member : Message
  owner_permissions_fixed cannot_remove_owner empty_permissions : Message
  invalid_invitation invitation_not_found invitation_not_pending : Message
  empty_update mutation_not_permitted reassignment_not_permitted : Message
  wallet_has_history limit_not_found invalid_limit_period limit_overlaps : Message
  operation_failed : Message

pub data Exception : Type 0 where
  bad_request not_found conflict forbidden service_unavailable : Message → Exception
  -- Any error that is not an `HttpException`, such as a `TypeError`.
  other_error : Exception

pub data Result {ℓ} (A : Type ℓ) : Type ℓ where
  ok : A → Result A
  err : Exception → Result A

-- `error instanceof HttpException`
abbrev pub is_http : Exception → Bool
is_http other_error = false
is_http (bad_request m) = true
is_http (not_found m) = true
is_http (conflict m) = true
is_http (forbidden m) = true
is_http (service_unavailable m) = true
