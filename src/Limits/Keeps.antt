-- ===== src/Limits/Keeps.antt =====
-- Limits of one category and currency stay apart
-- (src/modules/expense-limits/expense-limits.service.ts).
use mathlib.Core.Option
use mathlib.Core.Path.{subst}
use babki_back.Prelude.{
  ◌≤◌, ◌≡◌, refl, sym, ap, ◌∙◌, Bool, true, false, not, Option, none, some, arith, map, is_some,
  get_or,
}
use babki_back.Money.{Amount, Currency, Intl}
use babki_back.Dates.{Date}
use babki_back.Mongo.{Mongo, first}
use babki_back.Mongo.Lookup.{first_matches}
use babki_back.Http.{ok, not_found, limit_not_found}
use babki_back.Schemas.{Db, ObjectId, ExpenseLimit, ExpenseCategory}
use babki_back.Budget.{BudgetContext}
use babki_back.Categories.{lock_budget_expense_category}
use babki_back.Categories.Unused.{lock_category_ok}
use babki_back.Limits.{
  LimitCreate, LimitUpdate, LimitResponse, overlap_filter, limit_filter, limit_document, set_limit,
  find_expense_usage, build_response, limit, period, check_overlap, validate_precision,
  create_in_period, create_for_budget, validate_total, write_limit, update_for_budget,
  remove_for_budget,
}
use babki_back.Limits.Apart.{IsLimitBook, add_limit, change_limit, drop_limit}
use babki_back.Session.{or_raise}
use babki_back.Session.Inversion.{bind_ok, raise_if_ok, or_raise_ok}

module _ ⦃m : Mongo⦄ ⦃intl : Intl⦄ where
  pub build_response-same :
      (budget : BudgetContext) (l : ExpenseLimit) (r : LimitResponse) (db db' : Db)
      → build_response budget l db ≡ ok (r, db')
      → db' ≡ db
  unfolding build_response find_expense_usage
  build_response-same budget l r db db' h = ground arith

  lock_category-limits :
      (budget : BudgetContext) (id : ObjectId) (b : Bool) (c : ExpenseCategory) (db db' : Db)
      → lock_budget_expense_category budget id b db ≡ ok (c, db')
      → db'.limits ≡ db.limits
  unfolding lock_budget_expense_category
  lock_category-limits budget id b c db db' h = ground arith

  validate_precision-same :
      (total : Amount) (c : Currency) (db db' : Db)
      → validate_precision total c db ≡ ok (tt, db')
      → db' ≡ db
  unfolding validate_precision
  validate_precision-same total c db db' h = ground arith

  validate_total-same :
      (total : Option Amount) (c : Option Currency) (db db' : Db)
      → validate_total total c db ≡ ok (tt, db')
      → db' ≡ db
  unfolding validate_total validate_precision
  validate_total-same none c db db' h = ground arith
  validate_total-same (some total) c db db' h = ground arith

  period_ok :
      (from to : Option Date) (old : Option ExpenseLimit) (now start_date end_date : Date)
      (db db' : Db)
      → period from to old now db ≡ ok ((start_date, end_date), db')
      → (start_date ≤ end_date) × (db' ≡ db)
  unfolding period
  period_ok from to old now start_date end_date db db' h = (ground arith, ground arith)

  overlap_ok :
      (budget : BudgetContext) (category : ObjectId) (start_date end_date : Date)
      (currency : Option Currency) (id : Option ObjectId) (db db' : Db)
      → check_overlap budget category start_date end_date currency id db ≡ ok (tt, db')
      → (is_some (first (overlap_filter budget category start_date end_date currency id) db.limits)
          ≡ false)
        × (db' ≡ db)
  unfolding check_overlap
  overlap_ok budget category start_date end_date currency id db db' h =
      let p = overlap_filter budget category start_date end_date currency id in
      let (free, same) = raise_if_ok (is_some (m.find_one p db.limits)) _ db db' h in
      (ap is_some (sym (m.find_one_law p db.limits)) ∙ free, same)

  create_in_period-IsLimitBook :
      (budget : BudgetContext) (dto : LimitCreate) (category : ObjectId)
      (start_date end_date : Date) (r : LimitResponse) (db db' : Db)
      → create_in_period budget dto category start_date end_date db ≡ ok (r, db')
      → start_date ≤ end_date
      → is_some (
          first
            (overlap_filter budget category start_date end_date (some dto.currency) none)
            db.limits)
        ≡ false
      → IsLimitBook db.limits
      → IsLimitBook db'.limits
  unfolding create_in_period limit_document
  create_in_period-IsLimitBook budget dto category start_date end_date r db db' h le free b =
      let id = m.object_id (map (λ (l : ExpenseLimit). l.id) db.limits) in
      let d = limit_document budget dto category start_date end_date id in
      let same =
        build_response-same budget d r (record db { limits = m.insert d db.limits }) db' h in
      subst IsLimitBook (sym (m.insert_law d db.limits) ∙ sym (ap (λ (z : Db). z.limits) same)) (
        add_limit budget db.limits d refl le free
          (m.object_id_new (map (λ (l : ExpenseLimit). l.id) db.limits)) b)

  create-IsLimitBook :
      (budget : BudgetContext) (dto : LimitCreate) (now : Date) (r : LimitResponse) (db db' : Db)
      → create_for_budget budget dto now db ≡ ok (r, db')
      → IsLimitBook db.limits
      → IsLimitBook db'.limits
  unfolding create_for_budget
  create-IsLimitBook budget dto now r db db' h b =
      let (u1, d1, h1, k1) = bind_ok (validate_precision dto.total dto.currency) _ db h in
      let (c, d2, h2, k2) =
        bind_ok (lock_budget_expense_category budget dto.category_id false) _ d1 k1 in
      let ((start_date, end_date), d3, h3, k3) =
        bind_ok (period dto.start_date dto.end_date none now) _ d2 k2 in
      let (u4, d4, h4, k4) =
        bind_ok (check_overlap budget c.id start_date end_date (some dto.currency) none) _ d3 k3 in
      let (le, e3) = period_ok dto.start_date dto.end_date none now start_date end_date d2 d3 h3 in
      let (free, e4) =
        overlap_ok budget c.id start_date end_date (some dto.currency) none d3 d4 h4 in
      let same : d3.limits ≡ db.limits =
        ap (λ (z : Db). z.limits) e3
        ∙ lock_category-limits budget dto.category_id false c d1 d2 h2
        ∙ ap (λ (z : Db). z.limits) (validate_precision-same dto.total dto.currency db d1 h1) in
      create_in_period-IsLimitBook budget dto c.id start_date end_date r d3 db'
        (subst (λ z. create_in_period budget dto c.id start_date end_date z ≡ ok (r, db')) e4 k4) le
        free (subst IsLimitBook (sym same) b)

  limit_ok :
      (budget : BudgetContext) (id : ObjectId) (l : ExpenseLimit) (db db' : Db)
      → limit budget id db ≡ ok (l, db')
      → (first (limit_filter budget id) db.limits ≡ some l) × (db' ≡ db)
  unfolding limit
  limit_ok budget id l db db' h =
      let (found, same) =
        or_raise_ok (m.find_one (limit_filter budget id) db.limits) _ db db' l h in
      (sym (m.find_one_law (limit_filter budget id) db.limits) ∙ found, same)

  limit_filter-true :
      (budget : BudgetContext) (id : ObjectId) (l : ExpenseLimit)
      → limit_filter budget id l ≡ true
      → (l.id ≡ id) × (budget.space_id ≡ l.space_id)
  unfolding limit_filter
  limit_filter-true budget id l h = (ground arith, ground arith)

  write-IsLimitBook :
      (budget : BudgetContext) (id : ObjectId) (total : Amount) (start_date end_date : Date)
      (old : ExpenseLimit) (r : LimitResponse) (db db' : Db)
      → write_limit budget id total start_date end_date db ≡ ok (r, db')
      → first (limit_filter budget id) db.limits ≡ some old
      → start_date ≤ end_date
      → is_some (
          first
            (overlap_filter budget old.category start_date end_date old.currency (some id))
            db.limits)
        ≡ false
      → IsLimitBook db.limits
      → IsLimitBook db'.limits
  unfolding write_limit set_limit
  write-IsLimitBook budget id total start_date end_date old r db db' h found le free b =
      let p = limit_filter budget id in
      let f = set_limit total start_date end_date in
      let written : Db = record db { limits = m.update_one p f db.limits } in
      let (l, d1, h1, k1) =
        bind_ok (or_raise (Option.map f (m.find_one p db.limits)) (not_found limit_not_found)) _
          written h in
      let (hit, e1) = or_raise_ok (Option.map f (m.find_one p db.limits)) _ written d1 l h1 in
      let same = build_response-same budget l r d1 db' k1 ∙ e1 in
      let (mine, home) = limit_filter-true budget id old (first_matches p db.limits old found) in
      subst IsLimitBook
        (sym (m.update_one_law p f db.limits) ∙ sym (ap (λ (z : Db). z.limits) same))
        (change_limit budget id db.limits p f old found mine (λ x. refl) home le free b)

  update-IsLimitBook :
      (budget : BudgetContext) (id : ObjectId) (dto : LimitUpdate) (now : Date) (r : LimitResponse)
      (db db' : Db)
      → update_for_budget budget id dto now db ≡ ok (r, db')
      → IsLimitBook db.limits
      → IsLimitBook db'.limits
  unfolding update_for_budget
  update-IsLimitBook budget id dto now r db db' h b =
      let (old, d1, h1, k1) = bind_ok (limit budget id) _ db h in
      let (found, e1) = limit_ok budget id old db d1 h1 in
      let (u2, d2, h2, k2) = bind_ok (validate_total dto.total old.currency) _ d1 k1 in
      let (c, d3, h3, k3) =
        bind_ok (lock_budget_expense_category budget old.category true) _ d2 k2 in
      let ((start_date, end_date), d4, h4, k4) =
        bind_ok (period dto.start_date dto.end_date (some old) now) _ d3 k3 in
      let (u5, d5, h5, k5) =
        bind_ok (check_overlap budget c.id start_date end_date old.currency (some id)) _ d4 k4 in
      let (le, e4) =
        period_ok dto.start_date dto.end_date (some old) now start_date end_date d3 d4 h4 in
      let (free, e5) = overlap_ok budget c.id start_date end_date old.currency (some id) d4 d5 h5 in
      let same : d4.limits ≡ db.limits =
        ap (λ (z : Db). z.limits) e4
        ∙ lock_category-limits budget old.category true c d2 d3 h3
        ∙ ap (λ (z : Db). z.limits) (validate_total-same dto.total old.currency d1 d2 h2 ∙ e1) in
      write-IsLimitBook budget id (get_or dto.total old.total) start_date end_date old r d4 db'
        (subst
          (λ z.
            write_limit budget id (get_or dto.total old.total) start_date end_date z ≡ ok (r, db'))
          e5 k5)
        (ap (first (limit_filter budget id)) same ∙ found) le
        (subst
          (λ z.
            is_some
              (first (overlap_filter budget z start_date end_date old.currency (some id)) d4.limits)
            ≡ false)
          (lock_category_ok budget old.category true c d2 d3 h3).id_same free)
        (subst IsLimitBook (sym same) b)

  remove-IsLimitBook :
      (budget : BudgetContext) (id : ObjectId) (db db' : Db)
      → remove_for_budget budget id db ≡ ok (tt, db')
      → IsLimitBook db.limits
      → IsLimitBook db'.limits
  unfolding remove_for_budget
  remove-IsLimitBook budget id db db' h b =
      let (l, d1, h1, k1) = bind_ok (limit budget id) _ db h in
      let (found, e1) = limit_ok budget id l db d1 h1 in
      let p = limit_filter budget id in
      let gone = not (is_some (m.find_one p d1.limits)) in
      let (deleted, same) =
        raise_if_ok gone (not_found limit_not_found)
          (record d1 { limits = m.delete_one p d1.limits }) db' k1 in
      subst IsLimitBook (sym (m.delete_one_law p d1.limits) ∙ sym (ap (λ (z : Db). z.limits) same))
        (drop_limit p d1.limits (subst (λ (z : Db). IsLimitBook z.limits) (sym e1) b))

  -- What one operation on limits that returns does.
  pub data Step (budget : BudgetContext) (now : Date) (db db' : Db) : Type 0 where
    creates :
        (dto : LimitCreate) (r : LimitResponse)
        → create_for_budget budget dto now db ≡ ok (r, db')
        → Step budget now db db'
    updates :
        (id : ObjectId) (dto : LimitUpdate) (r : LimitResponse)
        → update_for_budget budget id dto now db ≡ ok (r, db')
        → Step budget now db db'
    removes :
        (id : ObjectId) → remove_for_budget budget id db ≡ ok (tt, db') → Step budget now db db'

  -- The creation, the update and the removal of a limit keep that limits of one space, category and
  -- currency have periods that do not overlap, that every period ends no earlier than it
  -- begins, and that ids are distinct.
  pub Step-IsLimitBook :
      (budget : BudgetContext) (now : Date) (db db' : Db)
      → Step budget now db db'
      → IsLimitBook db.limits
      → IsLimitBook db'.limits
  Step-IsLimitBook budget now db db' (creates dto r h) b =
      create-IsLimitBook budget dto now r db db' h b
  Step-IsLimitBook budget now db db' (updates id dto r h) b =
      update-IsLimitBook budget id dto now r db db' h b
  Step-IsLimitBook budget now db db' (removes id h) b = remove-IsLimitBook budget id db db' h b
