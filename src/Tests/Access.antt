-- ===== src/Tests/Access.antt =====
-- Permissions and transactions on the small database.
use babki_back.Session.{Action}
use babki_back.Prelude.{ap, ◌∙◌, ◌≡◌, ◌↔◌, refl, none, some}
use babki_back.Http.{Exception, Result, ok, err, forbidden, space_permission_required}
use babki_back.Schemas.{Db, Space, Debt}
use babki_back.Access.{Failure, rolled_back, Transactions, transactions, require_permission, run}
use babki_back.Access.Permits.{IsPermitted, require_permission-IsPermitted}
use babki_back.Debts.{debt_document}
use babki_back.Debts
use babki_back.Tests.{list_mongo, small_intl}
use babki_back.Tests.Fixture.{home, anna, bert, start}
use babki_back.Tests.Debts.{loan}
use babki_back.Tests.Machine.{machine}

-- A transaction that commits whenever the work returns.
abbrev pub settle : {A : Type 0} → Result (A × Db) → Db → Result A × Db
settle (ok (a, db')) db = (ok a, db')
settle (err e) db = (err e, db)

pub settle_commits :
    {A : Type 0} (r : Result (A × Db)) (db db' : Db) (a : A)
    → settle r db ≡ (ok a, db')
    → r ≡ ok (a, db')
settle_commits (ok (x, d)) db db' a h = cc
settle_commits (err e) db db' a h = cc

pub settle_throws :
    {A : Type 0} (work : Action A) (r : Result (A × Db)) (db db' : Db) (e : Exception)
    → work db ≡ r
    → settle r db ≡ (err e, db')
    → Failure work db db' e
settle_throws work (ok (x, d)) db db' e q h = cc
settle_throws work (err x) db db' e q h = let same : x ≡ e = cc in rolled_back (q ∙ ap err same) cc

instance abbrev pub plain_transactions : Transactions
plain_transactions = record {
  with_transaction = λ work db. settle (work db) db;
  commits = λ work db db' a h. settle_commits (work db) db db' a h;
  throws = λ work db db' e h. settle_throws work (work db) db db' e refl h;
}

abbrev pub home_space : Space
home_space = record {
  id = 1;
  name = "home";
  description = none;
  owner_id = 11;
  deleted_at = none;
  mutation_version = 0;
}

require_permission-IsPermitted_example :
    (require_permission 1 anna transactions start ≡ ok (home_space, start))
    ↔ ((start ≡ start) × IsPermitted 1 anna transactions home_space start)
require_permission-IsPermitted_example =
    require_permission-IsPermitted 1 anna transactions home_space start start

owner_may : require_permission 1 anna transactions start ≡ ok (home_space, start)
unfolding machine require_permission
owner_may = refl

-- Bert is a member without the permission, so nothing is done for him.
abbrev bert_fails : Result Debt × Db
bert_fails = (err (forbidden space_permission_required), start)

refused_runs :
    run home bert (Debts.create_for_budget home bert loan) (some transactions) start ≡ bert_fails
unfolding machine run
refused_runs = refl

-- For Anna it is done.
abbrev anna_gets : Result Debt × Db
anna_gets = run home anna (Debts.create_for_budget home anna loan) (some transactions) start

abbrev lent : Debt
lent = debt_document home anna loan 1
