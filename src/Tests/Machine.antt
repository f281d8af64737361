-- ===== src/Tests/Machine.antt =====
-- What an example has to open so that the code computes.
use babki_back.Prelude.Int.{floor_div, times, ◌+ℤ◌, ◌-ℤ◌}
use babki_back.Mongo.{first, matching, change_first, change_all, drop_first, drop_all}
use babki_back.Money.{
  known_currency, normalize_currency, round_to, normalize_money, minor_unit, distance,
  has_valid_money_precision,
}
use babki_back.Dates.{is_leap_year, month_length, month_start, find_month, utc_month, utc_month_end}
use babki_back.Snapshots.{
  snapshot_at, detail_concerns, detail_movement, balance_filter, sum_movements, predates,
  contains_date, add_date, date_map, balance_for_budget, upserted, upsert_snapshot, rebuild_dates,
  rebuild_for_budget, prepare_for_budget, apply_for_budget,
}
use babki_back.Snapshots.Rebuild.{amount_at}
use babki_back.Categories.{category_filter, lock_budget_expense_category}
use babki_back.Transactions.Defs.{
  looks_up, has_history_for_budget, find_one_for_budget, account_filter, account_for_budget,
  account_for_create, lock_accounts_for_budget, validate_money_for_budget, transaction_filter,
  posting_of, resolve_account, delete_for_budget, is_expense, has_type, set_detail, set_changes,
  mark_deleted, update_for_budget,
}
use babki_back.Transactions.Expenses.{expense_document}
use babki_back.Transactions.Incomes.{income_document}
use babki_back.Transactions.Expenses
use babki_back.Transactions.Incomes
use babki_back.Transfers.{transfer_document}
use babki_back.Transfers.Ledger.{side}
use babki_back.Transfers
use babki_back.Debts.{
  debt_filter, same_status, unchanged_filter, set_balance, set_debt, debt_document,
  repayment_document, repayment_filter, open_repayment_filter, mark_cancelled, require_debt,
  check_repayment, repay_for_budget, cancel_repayment_for_budget, archive_for_budget,
  remove_for_budget, default_description, has_debt_origin,
}
use babki_back.Debts
use babki_back.Plans.{
  plan_filter, open_plan_filter, removable_filter, plan_document, set_plan, set_closed,
  closing_expense, close_for_budget,
}
use babki_back.Plans
use babki_back.Access.{
  has_permission, effective_permissions, is_active, space_filter, member_filter, hide_error,
  execute, run, run_transaction, check_actor, require_permission, require_owner, member_context,
  serialize_mutation,
}
use babki_back.Spaces.{
  is_pending, no_permissions, owner_membership, space_document, event_document, to_dto,
  transfer_event, ended, active_in, pending_in, set_permissions, renamed, revoked_with_space,
}
use babki_back.Spaces.Actions.{
  mutation, event, create_space, leave_space, hand_over, reset_permissions, save_permissions,
  save_space,
}
use babki_back.Spaces.Invitations.{
  token_filter, acceptable, invitation_document, mark_accepted, rejoined, joined_document,
  joined_event, any_member, hide_missing, joined_members, join, serialize_or_invalid, admit,
  pending_invitation, create_invitation, accept_invitation, invite, accept,
}
use babki_back.Spaces.Service.{leave, mutate}
use babki_back.Limits.{
  utc_day, first_of_month, last_of_month, same_currency, is_other, overlap_filter, limit_filter,
  limit_document, set_limit, spends_on, usage_filter, amount_of, sum_amounts, find_expense_usage,
  build_response, period, check_overlap, validate_precision, create_in_period,
}
use babki_back.Limits
use babki_back.Categories.Service.{expense_link, limit_link, plan_link}
use babki_back.Categories.Service
use babki_back.Accounts.{has_initial_amount, lock_account_for_lifecycle, unarchived_filter}
use babki_back.Accounts
use babki_back.Snapshots
use babki_back.Finances.{
  participant_of, transaction_actors, some_ids, actor_ids, contains_id, is_active_user,
  profile_filter, actor_for, with_actors, enrich_one,
}
use babki_back.Finances.Entries.{
  type_of, is_empty_update, takes_part, category_of, has_category, is_from_debt, is_income_kind,
  check_change, reassign, new_participant, new_category, update_entry, remove_entry, update, remove,
}

unfoldable pub machine : Unit {0}
unfolding first matching change_first drop_first snapshot_at round_to normalize_money minor_unit
    known_currency normalize_currency distance has_valid_money_precision floor_div times ◌+ℤ◌ ◌-ℤ◌
    is_leap_year month_length month_start find_month utc_month utc_month_end detail_concerns
    detail_movement balance_filter sum_movements predates contains_date add_date date_map
    balance_for_budget upserted upsert_snapshot rebuild_dates rebuild_for_budget prepare_for_budget
    apply_for_budget amount_at account_filter account_for_budget account_for_create
    lock_accounts_for_budget looks_up validate_money_for_budget category_filter
    lock_budget_expense_category expense_document income_document side transfer_document
    Expenses.create_for_budget Incomes.create_for_budget Transfers.create_for_budget debt_filter
    same_status unchanged_filter set_balance set_debt debt_document repayment_document
    repayment_filter open_repayment_filter mark_cancelled require_debt check_repayment
    repay_for_budget cancel_repayment_for_budget archive_for_budget remove_for_budget
    default_description has_debt_origin Debts.create_for_budget Debts.update_for_budget
    transaction_filter posting_of resolve_account delete_for_budget is_expense has_type
    Expenses.create_on_account Incomes.create_on_account plan_filter open_plan_filter
    removable_filter plan_document set_plan set_closed closing_expense close_for_budget
    Plans.create_for_budget Plans.update_for_budget Plans.remove_for_budget set_detail set_changes
    mark_deleted update_for_budget has_permission effective_permissions is_active space_filter
    member_filter hide_error change_all drop_all
machine = tt

-- What the examples on spaces open.
unfoldable pub space_machine : Unit {0}
unfolding machine execute run run_transaction check_actor require_permission require_owner
    member_context serialize_mutation is_pending no_permissions owner_membership space_document
    event_document to_dto transfer_event ended active_in pending_in set_permissions renamed
    revoked_with_space mutation event create_space leave_space hand_over reset_permissions
    save_permissions save_space token_filter acceptable invitation_document mark_accepted rejoined
    joined_document joined_event any_member hide_missing joined_members join serialize_or_invalid
    admit pending_invitation create_invitation accept_invitation invite accept leave mutate
space_machine = tt

-- What the examples on limits, categories and accounts open.
unfoldable pub settings_machine : Unit {0}
unfolding machine utc_day first_of_month last_of_month same_currency is_other overlap_filter
    limit_filter limit_document set_limit spends_on usage_filter amount_of sum_amounts
    find_expense_usage build_response period check_overlap validate_precision create_in_period
    Limits.create_for_budget expense_link limit_link plan_link Service.remove_for_budget
    has_initial_amount lock_account_for_lifecycle unarchived_filter has_history_for_budget
    Snapshots.delete_for_budget Accounts.remove_for_budget Accounts.account_filter
settings_machine = tt

-- What the examples on the entries of a space open.
unfoldable pub entries_machine : Unit {0}
unfolding space_machine participant_of transaction_actors some_ids actor_ids contains_id
    is_active_user profile_filter actor_for with_actors enrich_one type_of is_empty_update
    takes_part category_of has_category is_from_debt is_income_kind check_change reassign
    find_one_for_budget new_participant new_category update_entry remove_entry update remove
entries_machine = tt
