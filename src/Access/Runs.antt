-- ===== src/Access/Runs.antt =====
-- What a transaction keeps (src/modules/spaces/spaces-transaction.service.ts).
use mathlib.Core.Path.{subst}
use babki_back.Prelude.{◌≡◌, refl, sym}
use babki_back.Http.{Result, ok, err}
use babki_back.Schemas.{Db}
use babki_back.Access.{Failure, rolled_back, gave_up, unknown_commit, Transactions, run_transaction}
use babki_back.Session.{Action}

-- The state that an operation leaves.
abbrev pub left_by : {A : Type 0} → Result A × Db → Db
left_by r = r.1

module _ ⦃t : Transactions⦄ (P : Db → Type 0) where
  cases :
      {A : Type 0} (work : Action A) (db : Db) (r : Result A) (db' : Db)
      → t.with_transaction work db ≡ (r, db')
      → ((a : A) → work db ≡ ok (a, db') → P db → P db')
      → P db
      → P db'
  cases work db (ok a) db' h keeps p = keeps a (t.commits work db db' a h) p
  cases {A} work db (err e) db' h keeps p = failed (t.throws work db db' e h)
    where
      failed : Failure {A = A} work db db' e → P db'
      failed (rolled_back thrown same) = subst P (sym same) p
      failed (gave_up own same) = subst P (sym same) p
      failed (unknown_commit a own done) = keeps a done p

  -- Work that keeps a promise when it returns keeps it in its transaction, whatever happens.
  pub run_keeps :
      {A : Type 0} (work : Action A) (db : Db)
      → ((a : A) (db' : Db) → work db ≡ ok (a, db') → P db → P db')
      → P db
      → P (left_by (run_transaction work db))
  unfolding run_transaction
  run_keeps work db keeps p =
      let out = t.with_transaction work db in
      cases work db out.0 out.1 refl (λ a h. keeps a out.1 h) p
