-- ===== src/Plans/Close.antt =====
-- Closing a plan (src/modules/plans/plans.service.ts, `closeForBudget`).
use mathlib.Core.Option
use mathlib.Core.Path.{subst}
use babki_back.Prelude.{
  ◌≡◌, refl, sym, ap, ◌∙◌, Bool, true, false, not, Option, none, some, List, arith, get_or,
}
use babki_back.Money.{Amount, Currency, Intl}
use babki_back.Dates.{Date}
use babki_back.Mongo.{Mongo, first, change_first}
use babki_back.Mongo.Lookup.{first_matches, first-In}
use babki_back.Mongo.Distinct.{Distinct, Distinct-In, first_by_key}
use babki_back.Http.{
  ok, err, bad_request, conflict, plan_closed, plan_has_history, plan_currency_differs,
}
use babki_back.Schemas.{
  Db, ObjectId, Debt, DebtTransaction, Plan, Transaction, active, closed, plan,
}
use babki_back.Budget.{BudgetContext}
use babki_back.Transactions.Expenses.{ExpenseCommand}
use babki_back.Transactions.Expenses
use babki_back.Transactions.Planning.{create_expense-Keeps}
use babki_back.Debts.{same_status, detail_in_currency}
use babki_back.Plans.{
  ClosePlan, UpdatePlan, plan_filter, open_plan_filter, set_closed, closing_expense, require_plan,
  validate_amount, validate_close, execute_close, close_for_budget, update_for_budget,
  remove_for_budget,
}
use babki_back.Plans.Book.{plan_key, first-change_first}
use babki_back.Session.{raise_if}
use babki_back.Session.Inversion.{bind_ok, raise_if_ok, or_raise_ok}

open_filter_parts :
    (budget : BudgetContext) (id : ObjectId) (p : Plan)
    → open_plan_filter budget id p ≡ true
    → (p.id ≡ id) × (plan_filter budget id true p ≡ true)
unfolding open_plan_filter plan_filter
open_filter_parts budget id p h = (ground arith, ground arith)

pub plan_filter_id :
    (budget : BudgetContext) (id : ObjectId) (p : Plan)
    → plan_filter budget id true p ≡ true
    → p.id ≡ id
unfolding plan_filter
plan_filter_id budget id p h = ground arith

-- What passes the filter of plans that are not archived passes the one of all plans.
any_filter :
    (budget : BudgetContext) (id : ObjectId) (b : Bool) (p : Plan)
    → plan_filter budget id true p ≡ true
    → plan_filter budget id b p ≡ true
unfolding plan_filter
any_filter budget id true p h = h
any_filter budget id false p h = ground arith

any_filter_id :
    (budget : BudgetContext) (id : ObjectId) (b : Bool) (p : Plan)
    → plan_filter budget id b p ≡ true
    → p.id ≡ id
unfolding plan_filter
any_filter_id budget id b p h = ground arith

still_passes :
    (budget : BudgetContext) (id : ObjectId) (b : Bool) (p : Plan) (now : Date)
    (expense_id : ObjectId)
    → plan_filter budget id b p ≡ true
    → plan_filter budget id b (set_closed now expense_id p) ≡ true
unfolding plan_filter set_closed
still_passes budget id b p now expense_id h = h

module _ ⦃m : Mongo⦄ ⦃intl : Intl⦄ where
  require_plan_ok :
      (budget : BudgetContext) (id : ObjectId) (b : Bool) (p : Plan) (db db' : Db)
      → require_plan budget id b db ≡ ok (p, db')
      → (db' ≡ db) × (first (plan_filter budget id b) db.plans ≡ some p)
  unfolding require_plan
  require_plan_ok budget id b p db db' h =
      let (found, same) = or_raise_ok _ _ db db' p h in
      (same, sym (m.find_one_law (plan_filter budget id b) db.plans) ∙ found)

  validate_amount-same :
      (a : Amount) (c : Currency) (db db' : Db) → validate_amount a c db ≡ ok (tt, db') → db' ≡ db
  unfolding validate_amount
  validate_amount-same a c db db' h = ground arith

  validate_close_ok :
      (p : Plan) (dto : ClosePlan) (db db' : Db)
      → validate_close p dto db ≡ ok (tt, db')
      → (db' ≡ db) × (p.status ≡ active)
  unfolding validate_close same_status
  validate_close_ok p dto db db' h =
      let (u1, d1, h1, k1) = bind_ok (raise_if (same_status p.status closed) _) _ db h in
      let (open_plan, e1) = raise_if_ok _ _ db d1 h1 in
      (validate_amount-same (get_or dto.amount p.amount) p.currency d1 db' k1 ∙ e1, ground arith)

  -- What closing a plan has done: the expense is created, in the currency of the plan, and the
  -- plan that was open is closed with it.
  pub record Closed (budget : BudgetContext) (actor_id : ObjectId) (now : Date) (id : ObjectId)
      (dto : ClosePlan) (res : Plan) (db db' : Db) : Type 0 where
    pub was : Plan
    pub found : first (plan_filter budget id true) db.plans ≡ some was
    pub open_plan : was.status ≡ active
    pub row : Transaction
    pub before : Db
    pub posted :
        Expenses.create_for_budget budget actor_id
          (closing_expense now was dto)
          (some (plan id))
          none
          db
        ≡ ok (row, before)
    pub currency : detail_in_currency was.currency row.detail ≡ true
    pub same_plans : before.plans ≡ db.plans
    pub ledger : db'.transactions ≡ before.transactions
    pub hit : first (open_plan_filter budget id) db.plans ≡ some was
    pub result : res ≡ set_closed now row.id was
    pub plans :
        db'.plans ≡ change_first (open_plan_filter budget id) (set_closed now row.id) db.plans

  same_plan :
      (budget : BudgetContext) (id : ObjectId) (ps : List Plan) (p x : Plan)
      → Distinct plan_key ps
      → first (plan_filter budget id true) ps ≡ some p
      → first (open_plan_filter budget id) ps ≡ some x
      → x ≡ p
  same_plan budget id ps p x u found found' =
      Distinct-In plan_key ps x p u (first-In _ ps x found') (first-In _ ps p found) (
        (open_filter_parts budget id x (first_matches _ ps x found')).0
        ∙ sym (plan_filter_id budget id p (first_matches _ ps p found)))

  not-not : (b : Bool) → not b ≡ false → b ≡ true
  not-not b h = ground arith

  map_found :
      (f : Plan → Plan) (o : Option Plan) (y : Plan)
      → Option.map f o ≡ some y
      → (x : Plan) × (o ≡ some x) × (y ≡ f x)
  map_found f none y h = cc
  map_found f (some x) y h = (x, refl, cc)

  pub close-Closed :
      (budget : BudgetContext) (actor_id : ObjectId) (now : Date) (id : ObjectId) (dto : ClosePlan)
      (res : Plan) (db db' : Db)
      → Distinct plan_key db.plans
      → close_for_budget budget actor_id now id dto db ≡ ok (res, db')
      → Closed budget actor_id now id dto res db db'
  unfolding close_for_budget execute_close
  close-Closed budget actor_id now id dto res db db' u h =
      let (p, d1, h1, k1) = bind_ok (require_plan budget id true) _ db h in
      let (e1, found) = require_plan_ok budget id true p db d1 h1 in
      let (u2, d2, h2, k2) = bind_ok (validate_close p dto) _ d1 k1 in
      let (e2, open_plan) = validate_close_ok p dto d1 d2 h2 in
      let command = closing_expense now p dto in
      let (row, d3, h3, k3) =
        bind_ok (Expenses.create_for_budget budget actor_id command (some (plan id)) none) _ d2
          k2 in
      let bad = not (detail_in_currency p.currency row.detail) in
      let (u4, d4, h4, k4) = bind_ok (raise_if bad (bad_request plan_currency_differs)) _ d3 k3 in
      let (fits, e4) = raise_if_ok bad _ d3 d4 h4 in
      let q = open_plan_filter budget id in
      let f = set_closed now row.id in
      let written : Db = record d4 { plans = m.update_one q f d4.plans } in
      let (is_res, e5) =
        or_raise_ok (Option.map f (m.find_one q d4.plans)) (bad_request plan_closed) written db' res
          k4 in
      let (x, found_x, is_f) = map_found f (m.find_one q d4.plans) res is_res in
      let start = e2 ∙ e1 in
      let kept = create_expense-Keeps budget actor_id command (some (plan id)) d2 d3 row h3 in
      let plans₃ : d3.plans ≡ db.plans =
        ap (λ (v : List Debt × List DebtTransaction × List Plan). v.2) kept
        ∙ ap (λ (z : Db). z.plans) start in
      let plans₄ : d4.plans ≡ db.plans = ap (λ (z : Db). z.plans) e4 ∙ plans₃ in
      let hit : first q db.plans ≡ some x =
        sym (m.find_one_law q db.plans) ∙ ap (λ c. m.find_one q c) (sym plans₄) ∙ found_x in
      let here = same_plan budget id db.plans p x u found hit in
      record {
        was = p;
        found = found;
        open_plan = open_plan;
        row = row;
        before = d3;
        posted =
            subst
              (λ z.
                Expenses.create_for_budget budget actor_id command (some (plan id)) none z
                ≡ ok (row, d3))
              start h3;
        currency = not-not _ fits;
        same_plans = plans₃;
        ledger = ap (λ (z : Db). z.transactions) e5 ∙ ap (λ (z : Db). z.transactions) e4;
        hit = subst (λ z. first q db.plans ≡ some z) here hit;
        result = is_f ∙ ap f here;
        plans =
            ap (λ (z : Db). z.plans) e5
            ∙ m.update_one_law q f d4.plans
            ∙ ap (λ c. change_first q f c) plans₄;
      }

  -- Nothing but archiving can be done to a plan.
  pub record IsFinal (budget : BudgetContext) (id : ObjectId) (db : Db) : Type 0 where
    pub no_close :
        (actor_id : ObjectId) (now : Date) (dto : ClosePlan)
        → close_for_budget budget actor_id now id dto db ≡ err (bad_request plan_closed)
    pub no_update :
        (dto : UpdatePlan) → update_for_budget budget id dto db ≡ err (bad_request plan_closed)
    pub no_removal : remove_for_budget budget id db ≡ err (conflict plan_has_history)

  closed_refused :
      (budget : BudgetContext) (actor_id : ObjectId) (now : Date) (id : ObjectId) (dto : ClosePlan)
      (p : Plan) (db : Db)
      → m.find_one (plan_filter budget id true) db.plans ≡ some p
      → p.status ≡ closed
      → close_for_budget budget actor_id now id dto db ≡ err (bad_request plan_closed)
  unfolding close_for_budget validate_close same_status
  closed_refused budget actor_id now id dto p db h c = ground arith

  update_refused :
      (budget : BudgetContext) (id : ObjectId) (dto : UpdatePlan) (p : Plan) (db : Db)
      → m.find_one (plan_filter budget id true) db.plans ≡ some p
      → p.status ≡ closed
      → update_for_budget budget id dto db ≡ err (bad_request plan_closed)
  unfolding update_for_budget same_status
  update_refused budget id dto p db h c = ground arith

  removal_refused :
      (budget : BudgetContext) (id : ObjectId) (p : Plan) (db : Db)
      → m.find_one (plan_filter budget id false) db.plans ≡ some p
      → p.status ≡ closed
      → remove_for_budget budget id db ≡ err (conflict plan_has_history)
  unfolding remove_for_budget same_status
  removal_refused budget id p db h c = ground arith

  -- After the last write the filters find the closed plan.
  found-Closed :
      (budget : BudgetContext) (id : ObjectId) (b : Bool) (actor_id : ObjectId) (now : Date)
      (dto : ClosePlan) (res : Plan) (db db' : Db)
      → Distinct plan_key db.plans
      → (c : Closed budget actor_id now id dto res db db')
      → m.find_one (plan_filter budget id b) db'.plans ≡ some (set_closed now c.row.id c.was)
  found-Closed budget id b actor_id now dto res db db' u c =
      let p = plan_filter budget id b in
      let at_true = first_matches _ db.plans c.was c.found in
      let here : p c.was ≡ true = any_filter budget id b c.was at_true in
      let same = λ (x : Plan) (t : p x ≡ true).
        any_filter_id budget id b x t ∙ sym (plan_filter_id budget id c.was at_true) in
      let before =
        first_by_key plan_key p db.plans c.was u (first-In _ db.plans c.was c.found) here same in
      m.find_one_law p db'.plans
      ∙ ap (λ ps. first p ps) c.plans
      ∙ (first-change_first p (open_plan_filter budget id) (set_closed now c.row.id) db.plans c.was
          before c.hit (still_passes budget id b c.was now c.row.id here))

  -- Where plans have unique ids, a plan that is closed stays closed: it is not closed again, nor
  -- updated, nor removed.
  pub close_plan-IsFinal :
      (budget : BudgetContext) (actor_id : ObjectId) (now : Date) (id : ObjectId) (dto : ClosePlan)
      (res : Plan) (db db' : Db)
      → Distinct plan_key db.plans
      → close_for_budget budget actor_id now id dto db ≡ ok (res, db')
      → IsFinal budget id db'
  unfolding set_closed
  close_plan-IsFinal budget actor_id now id dto res db db' u h =
      let c = close-Closed budget actor_id now id dto res db db' u h in
      let active_one = found-Closed budget id true actor_id now dto res db db' u c in
      let any_one = found-Closed budget id false actor_id now dto res db db' u c in
      record {
        no_close = λ a n d. closed_refused budget a n id d _ db' active_one refl;
        no_update = λ d. update_refused budget id d _ db' active_one refl;
        no_removal = removal_refused budget id _ db' any_one refl;
      }
