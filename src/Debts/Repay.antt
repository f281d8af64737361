-- ===== src/Debts/Repay.antt =====
-- A repayment keeps the book of debts (src/modules/debts/debts.service.ts, `repayForBudget`).
use mathlib.Core.Option
use mathlib.Core.Path.{subst, subst₂}
use babki_back.Prelude.{
  ◌≡◌, ◌≢◌, refl, sym, ap, ◌∙◌, Bool, true, false, not, Option, none, some, List, [], ◌∷◌, ◌++◌,
  arith, In, map, if◌then◌else◌, get_or,
}
use babki_back.Prelude.Int.{pos, ◌-ℤ◌, ◌≤ℤ◌, eq_ℤ, ltb_ℤ}
use babki_back.Money.{Amount, Currency, Intl, normalize_money, has_valid_money_precision}
use babki_back.Money.Precision.{IsExact, valid_iff_IsExact, normalize_money_exact}
use babki_back.Mongo.{Mongo, first, change_first}
use babki_back.Mongo.Lookup.{first_matches, first-In}
use babki_back.Mongo.Distinct.{Distinct, Distinct-In, All-In}
use babki_back.Http.{ok, conflict, bad_request, debt_changed, debt_currency_differs}
use babki_back.Schemas.{Db, ObjectId, Text, Status, closed, Debt, DebtTransaction, Plan, debt}
use babki_back.Budget.{BudgetContext}
use babki_back.Transactions.Incomes.{IncomeCommand}
use babki_back.Transactions.Incomes
use babki_back.Debts.{
  RepayDebtCommand, same_status, debt_filter, unchanged_filter, set_balance, repayment_document,
  require_debt, validate_amount, check_repayment, repayment_income, record_repayment,
  repay_for_budget, default_description, detail_in_currency,
}
use babki_back.Debts.Book.{debt_key, entry_key, Balanced, DebtBook}
use babki_back.Debts.Changes.{book-repay, sub_exact}
use babki_back.Transactions.Planning.{planning, Keeps, create_income-Keeps}
use babki_back.Session.{raise_if, or_raise}
use babki_back.Session.Inversion.{bind_ok, raise_if_ok, or_raise_ok, pure_ok}

-- What `Option.map` of a document that is found says.
pub map-some :
    {D : Type 0} (f : D → D) (o : Option D) (y : D)
    → Option.map f o ≡ some y
    → (x : D) × (o ≡ some x) × (y ≡ f x)
map-some f none y h = cc
map-some f (some x) y h = (x, refl, cc)

pub debt_filter_id :
    (budget : BudgetContext) (id : ObjectId) (b : Bool) (d : Debt)
    → debt_filter budget id b d ≡ true
    → d.id ≡ id
unfolding debt_filter
debt_filter_id budget id b d h = ground arith

unchanged_filter_id :
    (budget : BudgetContext) (current d : Debt)
    → unchanged_filter budget current d ≡ true
    → d.id ≡ current.id
unfolding unchanged_filter debt_filter
unchanged_filter_id budget current d h = ground arith

-- The document that the last update finds is the one that was read.
pub same_debt :
    (budget : BudgetContext) (id : ObjectId) (ds : List Debt) (current x : Debt)
    → Distinct debt_key ds
    → first (debt_filter budget id true) ds ≡ some current
    → first (unchanged_filter budget current) ds ≡ some x
    → x ≡ current
same_debt budget id ds current x u found found' =
    Distinct-In debt_key ds x current u (first-In _ ds x found') (first-In _ ds current found)
      (unchanged_filter_id budget current x (first_matches _ ds x found'))

module _ ⦃m : Mongo⦄ ⦃intl : Intl⦄ where
  pub require_debt_ok :
      (budget : BudgetContext) (id : ObjectId) (b : Bool) (d : Debt) (db db' : Db)
      → require_debt budget id b db ≡ ok (d, db')
      → (db' ≡ db) × (first (debt_filter budget id b) db.debts ≡ some d)
  unfolding require_debt
  require_debt_ok budget id b d db db' h =
      let (found, same) = or_raise_ok _ _ db db' d h in (same, rw m.find_one_law at found)

  pub validate_amount_ok :
      (a : Amount) (c : Currency) (db db' : Db)
      → validate_amount a c db ≡ ok (tt, db')
      → (db' ≡ db) × IsExact c a × (pos 1 ≤ℤ a)
  unfolding validate_amount
  validate_amount_ok a c db db' h =
      let valid : has_valid_money_precision a c ≡ true = ground arith in
      let exact = (valid_iff_IsExact a c).0 valid in
      (ground arith, exact, ground (arith, normalize_money_exact a c exact))

  -- What the checks of a repayment leave.
  pub record Payable (current : Debt) (amount : Amount) : Type 0 where
    pub open_debt : current.status ≢ closed
    pub covered : amount ≤ℤ current.remaining_amount
    pub exact : IsExact current.currency amount
    pub positive : pos 1 ≤ℤ amount

  pub check_repayment_ok :
      (current : Debt) (dto : RepayDebtCommand) (b : Bool) (db db' : Db)
      → check_repayment current dto db ≡ ok (b, db')
      → (db' ≡ db) × Payable current dto.amount
  unfolding check_repayment same_status
  check_repayment_ok current dto b db db' h =
      let (u1, d1, h1, k1) = bind_ok (raise_if (same_status current.status closed) _) _ db h in
      let (open_debt, e1) = raise_if_ok _ _ db d1 h1 in
      let (u2, d2, h2, k2) =
        bind_ok (raise_if (ltb_ℤ current.remaining_amount dto.amount) _) _ d1 k1 in
      let (enough, e2) = raise_if_ok _ _ d1 d2 h2 in
      let (u3, d3, h3, k3) = bind_ok (validate_amount dto.amount current.currency) _ d2 k2 in
      let (e3, exact, positive) = validate_amount_ok dto.amount current.currency d2 d3 h3 in
      (
        ground arith,
        record {
          open_debt = ground arith;
          covered = ground arith;
          exact = exact;
          positive = positive;
        },
      )

  repayment_income-Keeps :
      (budget : BudgetContext) (actor_id id : ObjectId) (current : Debt) (dto : RepayDebtCommand)
      (description : Text) (b : Bool)
      → Keeps (repayment_income budget actor_id id current dto description b)
  unfolding repayment_income
  repayment_income-Keeps budget actor_id id current dto description false db db' a h =
      ap planning (sym (pure_ok none a db db' h).1)
  repayment_income-Keeps budget actor_id id current dto description true db db' a h =
      let (account_id, d1, h1, k1) = bind_ok (or_raise dto.account_id _) _ db h in
      let command : IncomeCommand = record {
        account_id = account_id;
        amount = dto.amount;
        transaction_date = dto.repayment_date;
        description = some description;
      } in
      let (row, d2, h2, k2) =
        bind_ok (Incomes.create_for_budget budget actor_id command (some (debt id)) none) _ d1 k1 in
      let bad = not (detail_in_currency current.currency row.detail) in
      let (u3, d3, h3, k3) = bind_ok (raise_if bad (bad_request debt_currency_differs)) _ d2 k2 in
      ap planning (sym (pure_ok (some row.id) a d3 db' k3).1)
      ∙ ap planning (raise_if_ok bad _ d2 d3 h3).1
      ∙ create_income-Keeps budget actor_id command (some (debt id)) d1 d2 row h2
      ∙ ap planning (or_raise_ok dto.account_id _ db d1 account_id h1).1

  -- What the last two writes have done to a debt `d` that is found.
  pub record Recorded (d : Debt) (found_by : Debt → Bool) (dto : RepayDebtCommand)
      (remaining : Amount) (res : Debt × DebtTransaction) (db db' : Db) : Type 0 where
    pub entry : DebtTransaction
    pub of_debt : entry.debt_id ≡ d.id
    pub amount : entry.amount ≡ dto.amount
    pub live : entry.cancelled_at ≡ none
    pub new : ¬ (In entry.id (map entry_key db.repayments))
    pub result :
        res ≡ (set_balance remaining (if eq_ℤ remaining (pos 0) then closed else d.status) d, entry)
    pub debts :
        db'.debts
        ≡ change_first found_by
            (set_balance remaining (if eq_ℤ remaining (pos 0) then closed else d.status))
            db.debts
    pub repayments : db'.repayments ≡ db.repayments ++ entry ∷ []

  record_repayment_ok :
      (budget : BudgetContext) (actor_id : ObjectId) (current : Debt) (dto : RepayDebtCommand)
      (description : Text) (b : Bool) (income_id : Option ObjectId) (res : Debt × DebtTransaction)
      (db db' : Db)
      → ((x : Debt) → first (unchanged_filter budget current) db.debts ≡ some x → x ≡ current)
      → record_repayment budget actor_id current dto description b income_id db ≡ ok (res, db')
      → (first (unchanged_filter budget current) db.debts ≡ some current)
        × Recorded current
            (unchanged_filter budget current)
            dto
            (normalize_money (current.remaining_amount -ℤ dto.amount) current.currency)
            res
            db
            db'
  unfolding record_repayment repayment_document
  record_repayment_ok budget actor_id current dto description b income_id res db db' same h =
      let id = m.object_id (map entry_key db.repayments) in
      let entry = repayment_document budget actor_id current dto description b income_id id in
      let remaining = normalize_money (current.remaining_amount -ℤ dto.amount) current.currency in
      let f = set_balance remaining (if eq_ℤ remaining (pos 0) then closed else current.status) in
      let p = unchanged_filter budget current in
      let written : Db = record db {
        repayments = m.insert entry db.repayments;
        debts = m.update_one p f db.debts;
      } in
      let found = Option.map f (m.find_one p db.debts) in
      let (y, d1, h1, k1) = bind_ok (or_raise found (conflict debt_changed)) _ written h in
      let (e1, same_db) = or_raise_ok found _ written d1 y h1 in
      let (x, found_x, is_f) = map-some f (m.find_one p db.debts) y e1 in
      let hit : first p db.debts ≡ some x = rw m.find_one_law at found_x in
      let here = same x hit in
      let (res_eq, db_eq) = pure_ok (y, entry) res d1 db' k1 in
      let db_is = sym db_eq ∙ same_db in
      (
        subst (λ z. first p db.debts ≡ some z) here hit,
        record {
          entry = entry;
          of_debt = refl;
          amount = refl;
          live = refl;
          new = m.object_id_new (map entry_key db.repayments);
          result = sym res_eq ∙ ap (λ z. (z, entry)) (is_f ∙ ap f here);
          debts = ap (λ (z : Db). z.debts) db_is ∙ m.update_one_law p f db.debts;
          repayments = ap (λ (z : Db). z.repayments) db_is ∙ m.insert_law entry db.repayments;
        },
      )

  -- What a repayment has done.
  pub record Repaid (budget : BudgetContext) (id : ObjectId) (dto : RepayDebtCommand)
      (res : Debt × DebtTransaction) (db db' : Db) : Type 0 where
    pub current : Debt
    pub was : first (debt_filter budget id true) db.debts ≡ some current
    pub payable : Payable current dto.amount
    pub before : Db
    pub same : planning before ≡ planning db
    pub hit : first (unchanged_filter budget current) before.debts ≡ some current
    pub recorded :
        Recorded current
          (unchanged_filter budget current)
          dto
          (normalize_money (current.remaining_amount -ℤ dto.amount) current.currency)
          res
          before
          db'

  pub repay-Repaid :
      (budget : BudgetContext) (actor_id id : ObjectId) (dto : RepayDebtCommand)
      (res : Debt × DebtTransaction) (db db' : Db)
      → Distinct debt_key db.debts
      → repay_for_budget budget actor_id id dto db ≡ ok (res, db')
      → Repaid budget id dto res db db'
  unfolding repay_for_budget
  repay-Repaid budget actor_id id dto res db db' u h =
      let (current, d1, h1, k1) = bind_ok (require_debt budget id true) _ db h in
      let (e1, was) = require_debt_ok budget id true current db d1 h1 in
      let (b, d2, h2, k2) = bind_ok (check_repayment current dto) _ d1 k1 in
      let (e2, payable) = check_repayment_ok current dto b d1 d2 h2 in
      let description = get_or dto.description (default_description current) in
      let (income_id, d3, h3, k3) =
        bind_ok (repayment_income budget actor_id id current dto description b) _ d2 k2 in
      let kept =
        repayment_income-Keeps budget actor_id id current dto description b d2 d3 income_id h3
        ∙ ap planning (e2 ∙ e1) in
      let same_debts = ap (λ (v : List Debt × List DebtTransaction × List Plan). v.0) kept in
      let (hit, recorded) =
        record_repayment_ok budget actor_id current dto description b income_id res d3 db'
          (λ x q. same_debt budget id db.debts current x u was (rw same_debts at q)) k3 in
      record {
        current = current;
        was = was;
        payable = payable;
        before = d3;
        same = kept;
        hit = hit;
        recorded = recorded;
      }

  set_equal :
      (ds ds' : List Debt) (p : Debt → Bool) (a b : Amount) (s : Status)
      → a ≡ b
      → ds' ≡ change_first p (set_balance a (if eq_ℤ a (pos 0) then closed else s)) ds
      → ds' ≡ change_first p (set_balance b (if eq_ℤ b (pos 0) then closed else s)) ds
  set_equal ds ds' p a b s e h =
      subst (λ x. ds' ≡ change_first p (set_balance x (if eq_ℤ x (pos 0) then closed else s)) ds) e
        h

  -- A repayment that is accepted keeps the book of debts: ids stay unique, every repayment is of a
  -- debt, and of every debt the principal is what remains and what the repayments that are not
  -- cancelled have paid, and it is closed exactly when nothing remains.
  pub repay-DebtBook :
      (budget : BudgetContext) (actor_id id : ObjectId) (dto : RepayDebtCommand)
      (res : Debt × DebtTransaction) (db db' : Db)
      → DebtBook db.debts db.repayments
      → repay_for_budget budget actor_id id dto db ≡ ok (res, db')
      → DebtBook db'.debts db'.repayments
  repay-DebtBook budget actor_id id dto res db db' k h =
      let r = repay-Repaid budget actor_id id dto res db db' k.debts_distinct h in
      let c = r.recorded in
      let e = c.entry in
      let start : DebtBook r.before.debts r.before.repayments =
        subst (λ v. DebtBook v.0 v.1) (sym r.same) k in
      let held =
        All-In (Balanced db.repayments) db.debts r.current k.balanced (first-In _ _ _ r.was) in
      let rest : normalize_money (r.current.remaining_amount -ℤ dto.amount) r.current.currency
          ≡ r.current.remaining_amount -ℤ e.amount =
        normalize_money_exact _ r.current.currency
          (sub_exact _ _ _ held.remaining_exact r.payable.exact)
        ∙ ap (λ x. r.current.remaining_amount -ℤ x) (sym c.amount) in
      let new_book =
        book-repay r.before.debts r.before.repayments (unchanged_filter budget r.current) r.current
          e start r.hit c.of_debt c.live
          (subst (IsExact r.current.currency) (sym c.amount) r.payable.exact)
          (subst (λ x. pos 1 ≤ℤ x) (sym c.amount) r.payable.positive)
          (subst (λ x. x ≤ℤ r.current.remaining_amount) (sym c.amount) r.payable.covered)
          r.payable.open_debt c.new in
      subst₂ DebtBook
        (sym (
          set_equal r.before.debts db'.debts (unchanged_filter budget r.current) _ _ _ rest
            c.debts))
        (sym c.repayments) new_book
