-- ===== src/Debts/Cancel.antt =====
-- Cancelling a repayment keeps the book of debts (src/modules/debts/debts.service.ts,
-- `cancelRepaymentForBudget`).
use mathlib.Core.Option
use mathlib.Core.Path.{subst, subst₂}
use babki_back.Prelude.{
  ◌≡◌, sym, ap, ◌∙◌, Bool, true, false, not, Option, none, some, List, arith, is_some, ◌==◌, ◌&&◌,
}
use babki_back.Prelude.Int.{◌+ℤ◌, ltb_ℤ}
use babki_back.Money.{Amount, Intl, normalize_money}
use babki_back.Money.Precision.{normalize_money_exact}
use babki_back.Dates.{Date}
use babki_back.Mongo.{Mongo, first, change_first}
use babki_back.Mongo.Lookup.{first_matches, first-In}
use babki_back.Mongo.Distinct.{Distinct, Distinct-In, All-In}
use babki_back.Http.{
  other_error, ok, conflict, not_found, debt_changed, repayment_not_found, repayment_cancelled,
  repayment_income_inconsistent, repayment_balance_inconsistent,
}
use babki_back.Schemas.{Db, ObjectId, active, Debt, DebtTransaction, Plan}
use babki_back.Budget.{BudgetContext, budget_filter}
use babki_back.Transactions.Defs.{delete_for_budget}
use babki_back.Debts.{
  debt_filter, unchanged_filter, set_balance, repayment_filter, open_repayment_filter,
  mark_cancelled, is_consistent_income, require_debt, cancel_income, restore_balance,
  cancel_repayment_for_budget,
}
use babki_back.Debts.Book.{debt_key, entry_key, IsEntryOf, Balanced, DebtBook}
use babki_back.Debts.Changes.{book-cancel, add_exact}
use babki_back.Transactions.Planning.{planning, Keeps, delete_transaction-Keeps}
use babki_back.Debts.Repay.{map-some, same_debt, require_debt_ok}
use babki_back.Session.{raise_if, or_raise}
use babki_back.Session.Inversion.{bind_ok, raise_if_ok, or_raise_ok, pure_ok}

open_filter_id :
    (budget : BudgetContext) (id : ObjectId) (r : DebtTransaction)
    → open_repayment_filter budget id r ≡ true
    → r.id ≡ id
unfolding open_repayment_filter
open_filter_id budget id r h = ground arith

repayment_filter_debt :
    (budget : BudgetContext) (debt_id id : ObjectId) (r : DebtTransaction)
    → repayment_filter budget debt_id id r ≡ true
    → r.debt_id ≡ debt_id
unfolding repayment_filter
repayment_filter_debt budget debt_id id r h = ground arith

not_cancelled : (r : DebtTransaction) → is_some r.cancelled_at ≡ false → r.cancelled_at ≡ none
not_cancelled r h = ground arith

module _ ⦃m : Mongo⦄ ⦃intl : Intl⦄ where
  cancel_income-Keeps :
      (budget : BudgetContext) (actor_id : ObjectId) (now : Date) (current : Debt)
      (r : DebtTransaction) (b : Option Bool)
      → Keeps (cancel_income budget actor_id now current r b)
  unfolding cancel_income
  cancel_income-Keeps budget actor_id now current r none db db' u h = cc
  cancel_income-Keeps budget actor_id now current r (some false) db db' u h =
      ap planning (raise_if_ok (is_some r.income_id) _ db db' h).1
  cancel_income-Keeps budget actor_id now current r (some true) db db' u h =
      let refused = conflict repayment_income_inconsistent in
      let (income_id, d1, h1, k1) = bind_ok (or_raise r.income_id refused) _ db h in
      let found =
        m.find_one (λ tx. tx.id == income_id && budget_filter budget tx.space_id) d1.transactions in
      let (row, d2, h2, k2) = bind_ok (or_raise found refused) _ d1 k1 in
      let bad = not (is_consistent_income current r row) in
      let (u3, d3, h3, k3) = bind_ok (raise_if bad refused) _ d2 k2 in
      let (gone, d4, h4, k4) = bind_ok (delete_for_budget budget actor_id now row none) _ d3 k3 in
      ap planning (sym (pure_ok tt u d4 db' k4).1)
      ∙ delete_transaction-Keeps budget actor_id now row d3 d4 gone h4
      ∙ ap planning (raise_if_ok bad refused d2 d3 h3).1
      ∙ ap planning (or_raise_ok found refused d1 d2 row h2).1
      ∙ ap planning (or_raise_ok r.income_id refused db d1 income_id h1).1

  -- What the last two writes have done.
  pub record Restored (budget : BudgetContext) (actor_id : ObjectId) (now : Date) (current : Debt)
      (r : DebtTransaction) (remaining : Amount) (res : Debt × DebtTransaction) (db db' : Db)
      : Type 0 where
    pub marked : first (open_repayment_filter budget r.id) db.repayments ≡ some r
    pub hit : first (unchanged_filter budget current) db.debts ≡ some current
    pub result : res ≡ (set_balance remaining active current, mark_cancelled now actor_id r)
    pub debts :
        db'.debts
        ≡ change_first (unchanged_filter budget current) (set_balance remaining active) db.debts
    pub repayments :
        db'.repayments
        ≡ change_first
            (open_repayment_filter budget r.id)
            (mark_cancelled now actor_id)
            db.repayments

  restore_balance_ok :
      (budget : BudgetContext) (actor_id : ObjectId) (now : Date) (current : Debt)
      (r : DebtTransaction) (res : Debt × DebtTransaction) (db db' : Db)
      → ((x : Debt) → first (unchanged_filter budget current) db.debts ≡ some x → x ≡ current)
      → ((x : DebtTransaction)
          → first (open_repayment_filter budget r.id) db.repayments ≡ some x
          → x ≡ r)
      → restore_balance budget actor_id now current r db ≡ ok (res, db')
      → Restored budget actor_id now current r
          (normalize_money (current.remaining_amount +ℤ r.amount) current.currency)
          res
          db
          db'
  unfolding restore_balance
  restore_balance_ok budget actor_id now current r res db db' same same' h =
      let q = open_repayment_filter budget r.id in
      let g = mark_cancelled now actor_id in
      let with_mark : Db = record db { repayments = m.update_one q g db.repayments } in
      let found₁ = Option.map g (m.find_one q db.repayments) in
      let (y₁, d1, h1, k1) =
        bind_ok (or_raise found₁ (conflict repayment_cancelled)) _ with_mark h in
      let (e1, db1) = or_raise_ok found₁ _ with_mark d1 y₁ h1 in
      let (x₁, found_r, is_g) = map-some g (m.find_one q db.repayments) y₁ e1 in
      let hit₁ : first q db.repayments ≡ some x₁ = sym (m.find_one_law q db.repayments) ∙ found_r in
      let unknown = not (intl.supported current.currency) in
      let (v, d1', h1', k1') = bind_ok (raise_if unknown other_error) _ d1 k1 in
      let db1' = (raise_if_ok unknown _ d1 d1' h1').1 ∙ db1 in
      let remaining = normalize_money (current.remaining_amount +ℤ r.amount) current.currency in
      let over = ltb_ℤ current.principal_amount remaining in
      let (u2, d2, h2, k2) =
        bind_ok (raise_if over (conflict repayment_balance_inconsistent)) _ d1' k1' in
      let db2 = (raise_if_ok over _ d1' d2 h2).1 ∙ db1' in
      let p = unchanged_filter budget current in
      let f = set_balance remaining active in
      let written : Db = record d2 { debts = m.update_one p f d2.debts } in
      let found₂ = Option.map f (m.find_one p d2.debts) in
      let (y₂, d3, h3, k3) = bind_ok (or_raise found₂ (conflict debt_changed)) _ written k2 in
      let (e3, db3) = or_raise_ok found₂ _ written d3 y₂ h3 in
      let (x₂, found_d, is_f) = map-some f (m.find_one p d2.debts) y₂ e3 in
      let ds = ap (λ (z : Db). z.debts) db2 in
      let hit₂ : first p db.debts ≡ some x₂ =
        sym (m.find_one_law p db.debts) ∙ ap (λ c. m.find_one p c) (sym ds) ∙ found_d in
      let (res_eq, db_eq) = pure_ok (y₂, y₁) res d3 db' k3 in
      let db_is = sym db_eq ∙ db3 in
      record {
        marked = subst (λ z. first q db.repayments ≡ some z) (same' x₁ hit₁) hit₁;
        hit = subst (λ z. first p db.debts ≡ some z) (same x₂ hit₂) hit₂;
        result =
            sym res_eq
            ∙ ap (λ z. (z, y₁)) (is_f ∙ ap f (same x₂ hit₂))
            ∙ ap (λ z. (f current, z)) (is_g ∙ ap g (same' x₁ hit₁));
        debts =
            ap (λ (z : Db). z.debts) db_is
            ∙ m.update_one_law p f d2.debts
            ∙ ap (λ c. change_first p f c) ds;
        repayments =
            ap (λ (z : Db). z.repayments) db_is
            ∙ ap (λ (z : Db). z.repayments) db2
            ∙ m.update_one_law q g db.repayments;
      }

  -- What cancelling a repayment has done.
  pub record Cancelled (budget : BudgetContext) (actor_id : ObjectId) (now : Date)
      (debt_id repayment_id : ObjectId) (res : Debt × DebtTransaction) (db db' : Db) : Type 0 where
    pub current : Debt
    pub entry : DebtTransaction
    pub was : first (debt_filter budget debt_id true) db.debts ≡ some current
    pub found : first (repayment_filter budget current.id repayment_id) db.repayments ≡ some entry
    pub live : entry.cancelled_at ≡ none
    pub before : Db
    pub same : planning before ≡ planning db
    pub restored :
        Restored budget actor_id now current entry
          (normalize_money (current.remaining_amount +ℤ entry.amount) current.currency)
          res
          before
          db'

  same_entry :
      (budget : BudgetContext) (debt_id id : ObjectId) (rs : List DebtTransaction)
      (r x : DebtTransaction)
      → Distinct entry_key rs
      → first (repayment_filter budget debt_id id) rs ≡ some r
      → first (open_repayment_filter budget r.id) rs ≡ some x
      → x ≡ r
  same_entry budget debt_id id rs r x u found found' =
      Distinct-In entry_key rs x r u (first-In _ rs x found') (first-In _ rs r found)
        (open_filter_id budget r.id x (first_matches _ rs x found'))

  pub cancel-Cancelled :
      (budget : BudgetContext) (actor_id : ObjectId) (now : Date) (debt_id repayment_id : ObjectId)
      (res : Debt × DebtTransaction) (db db' : Db)
      → Distinct debt_key db.debts
      → Distinct entry_key db.repayments
      → cancel_repayment_for_budget budget actor_id now debt_id repayment_id db ≡ ok (res, db')
      → Cancelled budget actor_id now debt_id repayment_id res db db'
  unfolding cancel_repayment_for_budget
  cancel-Cancelled budget actor_id now debt_id repayment_id res db db' u u' h =
      let (current, d1, h1, k1) = bind_ok (require_debt budget debt_id true) _ db h in
      let (e1, was) = require_debt_ok budget debt_id true current db d1 h1 in
      let q = repayment_filter budget current.id repayment_id in
      let (r, d2, h2, k2) =
        bind_ok (or_raise (m.find_one q d1.repayments) (not_found repayment_not_found)) _ d1 k1 in
      let (er, e2) = or_raise_ok (m.find_one q d1.repayments) _ d1 d2 r h2 in
      let entries₁ = ap (λ (z : Db). z.repayments) e1 in
      let found : first q db.repayments ≡ some r =
        sym (m.find_one_law q db.repayments) ∙ ap (λ c. m.find_one q c) (sym entries₁) ∙ er in
      let (u3, d3, h3, k3) =
        bind_ok (raise_if (is_some r.cancelled_at) (conflict repayment_cancelled)) _ d2 k2 in
      let (live, e3) = raise_if_ok (is_some r.cancelled_at) _ d2 d3 h3 in
      let (u4, d4, h4, k4) =
        bind_ok (cancel_income budget actor_id now current r r.is_income) _ d3 k3 in
      let kept =
        cancel_income-Keeps budget actor_id now current r r.is_income d3 d4 u4 h4
        ∙ ap planning (e3 ∙ e2 ∙ e1) in
      let ds = ap (λ (v : List Debt × List DebtTransaction × List Plan). v.0) kept in
      let rs = ap (λ (v : List Debt × List DebtTransaction × List Plan). v.1) kept in
      record {
        current = current;
        entry = r;
        was = was;
        found = found;
        live = not_cancelled r live;
        before = d4;
        same = kept;
        restored =
            restore_balance_ok budget actor_id now current r res d4 db'
              (λ x z.
                same_debt budget debt_id db.debts current x u was
                  (ap (λ c. first (unchanged_filter budget current) c) (sym ds) ∙ z))
              (λ x z.
                same_entry budget current.id repayment_id db.repayments r x u' found
                  (ap (λ c. first (open_repayment_filter budget r.id) c) (sym rs) ∙ z))
              k4;
      }

  -- The cancellation of a repayment, where it is accepted, keeps the book of debts.
  pub cancel-DebtBook :
      (budget : BudgetContext) (actor_id : ObjectId) (now : Date) (debt_id repayment_id : ObjectId)
      (res : Debt × DebtTransaction) (db db' : Db)
      → DebtBook db.debts db.repayments
      → cancel_repayment_for_budget budget actor_id now debt_id repayment_id db ≡ ok (res, db')
      → DebtBook db'.debts db'.repayments
  cancel-DebtBook budget actor_id now debt_id repayment_id res db db' k h =
      let c =
        cancel-Cancelled budget actor_id now debt_id repayment_id res db db' k.debts_distinct
          k.entries_distinct h in
      let t = c.restored in
      let start : DebtBook c.before.debts c.before.repayments =
        subst (λ v. DebtBook v.0 v.1) (sym c.same) k in
      let here =
        repayment_filter_debt budget c.current.id repayment_id c.entry
          (first_matches _ db.repayments c.entry c.found) in
      let held =
        All-In (Balanced db.repayments) db.debts c.current k.balanced
          (first-In _ db.debts c.current c.was) in
      let (exact, positive) =
        All-In (IsEntryOf c.current) db.repayments c.entry held.entries
          (first-In _ db.repayments c.entry c.found) here in
      let rest : normalize_money (c.current.remaining_amount +ℤ c.entry.amount) c.current.currency
          ≡ c.current.remaining_amount +ℤ c.entry.amount =
        normalize_money_exact _ c.current.currency (add_exact _ _ _ held.remaining_exact exact) in
      subst₂ DebtBook
        (sym (
          t.debts
          ∙ ap
              (λ x.
                change_first (unchanged_filter budget c.current) (set_balance x active)
                  c.before.debts)
              rest))
        (sym t.repayments)
        (book-cancel c.before.debts c.before.repayments (unchanged_filter budget c.current)
          c.current (open_repayment_filter budget c.entry.id) c.entry now actor_id start t.hit
          t.marked here c.live)
