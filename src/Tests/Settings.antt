-- ===== src/Tests/Settings.antt =====
-- A category and an account are removed from the small database.
use babki_back.Prelude.{◌≡◌, refl, some, inl, inr, arith, ◌∷◌}
use babki_back.Prelude.Int.{pos}
use babki_back.Http.{ok}
use babki_back.Schemas.{Db, Account}
use babki_back.Categories.Service
use babki_back.Categories.Unused.{IsUnused, remove_category-IsUnused}
use babki_back.Accounts
use babki_back.Accounts.Remove.{IsRemoved, remove_account-IsRemoved}
use babki_back.Tests.{list_mongo, small_intl}
use babki_back.Tests.Fixture.{home, start, state_of, account}
use babki_back.Tests.Machine.{settings_machine}

abbrev foodless : Db
foodless = state_of start (Service.remove_for_budget home 31 start)

foodless_runs : Service.remove_for_budget home 31 start ≡ ok (tt, foodless)
unfolding settings_machine
foodless_runs = refl

remove_category-IsUnused_example : IsUnused home 31 start foodless
remove_category-IsUnused_example =
    remove_category-IsUnused home 31 start foodless (λ h. h, tt) foodless_runs

-- An account that was opened with nothing.
abbrev empty_account : Account
empty_account = record (account 23) { initial_amount = some (pos 0) }

abbrev three_accounts : Db
three_accounts = record start { accounts = empty_account ∷ start.accounts }

abbrev two_accounts : Db
two_accounts = state_of start (Accounts.remove_for_budget home 23 three_accounts)

removal_runs : Accounts.remove_for_budget home 23 three_accounts ≡ ok (tt, two_accounts)
unfolding settings_machine
removal_runs = refl

remove_account-IsRemoved_example : IsRemoved home 23 three_accounts two_accounts
remove_account-IsRemoved_example =
    remove_account-IsRemoved home 23 three_accounts two_accounts
      (
        λ h. elim h [ inl e ↦ omega (arith, e) | inr (inl e) ↦ omega (arith, e) | inr (inr x) ↦ x ],
        (λ h. elim h [ inl e ↦ omega (arith, e) | inr x ↦ x ], (λ h. h, tt)),
      )
      removal_runs
