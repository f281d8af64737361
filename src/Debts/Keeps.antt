-- ===== src/Debts/Keeps.antt =====
-- Creating, updating and removing a debt keep the book of debts
-- (src/modules/debts/debts.service.ts).
use mathlib.Core.Path.{subst, subst₂}
use babki_back.Prelude.{
  ◌≡◌, ◌≢◌, refl, sym, ap, ◌∙◌, Bool, true, false, not, Option, none, some, List, [], ◌∷◌, arith,
  is_some, ◌==◌, ◌||◌, All, In, map, inl, inr, get_or, if◌then◌else◌, Bool-cases,
}
use babki_back.Prelude.Int.{pos, ◌≤ℤ◌, int_laws, parts_eq}
use babki_back.Money.{Amount, Intl, has_valid_money_precision}
use babki_back.Money.Precision.{IsExact}
use babki_back.Dates.{Date}
use babki_back.Mongo.{Mongo, first, drop_first}
use babki_back.Mongo.Lookup.{first_matches}
use babki_back.Mongo.Distinct.{Distinct-drop, All-drop}
use babki_back.Http.{
  other_error, ok, conflict, bad_request, debt_has_repayments, debt_managed_by_repayments,
  debt_has_history, debt_changed, amount_exceeds_precision,
}
use babki_back.Schemas.{Db, ObjectId, Text, Status, Debt, DebtTransaction, active, closed}
use babki_back.Budget.{BudgetContext}
use babki_back.Debts.{
  CreateDebtCommand, UpdateDebtCommand, debt_filter, set_debt, debt_document, require_debt,
  validate_amount, validate_amounts, check_principal, create_for_budget, update_for_budget,
  remove_for_budget, has_debt_origin,
}
use babki_back.Debts.Book.{debt_key, Balanced, DebtBook, active_total_none}
use babki_back.Debts.Changes.{book-create, book-change, unpaid-Balanced}
use babki_back.Debts.Repay.{require_debt_ok, validate_amount_ok, debt_filter_id}
use babki_back.Session.{raise_if}
use babki_back.Session.Inversion.{bind_ok, raise_if_ok, pure_ok}

no_history :
    (id : ObjectId) (rs : List DebtTransaction)
    → is_some (first (λ r. r.debt_id == id) rs) ≡ false
    → All (λ r. r.debt_id ≢ id) rs
unfolding first
no_history id [] h = tt
no_history id (r ∷ rs) h = elim (Bool-cases (r.debt_id == id)) [
  | inl y ↦ absurd (ground arith)
  | inr n ↦ (ground arith, no_history id rs (ground arith))
]

-- An id that is not the one of the dropped document is still there.
In-map-drop :
    (p : Debt → Bool) (ds : List Debt) (x : ObjectId)
    → ((d : Debt) → p d ≡ true → d.id ≢ x)
    → In x (map debt_key ds)
    → In x (map debt_key (drop_first p ds))
unfolding drop_first
In-map-drop p [] x other h = absurd h
In-map-drop p (d ∷ ds) x other (inl q) = elim (Bool-cases (p d)) [
  | inl y ↦ absurd (other d y (sym q))
  | inr n ↦ rw n (inl q)
]
In-map-drop p (d ∷ ds) x other (inr h) = elim (Bool-cases (p d)) [
  | inl y ↦ rw y h
  | inr n ↦ rw n (inr (In-map-drop p ds x other h))
]

active_of : (s : Status) → ¬ (s ≡ closed) → s ≡ active
active_of active n = refl
active_of closed n = absurd (n refl)

or_left : (a b : Bool) → (a || b) ≡ false → a ≡ false
or_left a b h = ground arith

All-zip :
    {P Q R : DebtTransaction → Type 0} (rs : List DebtTransaction)
    → All P rs
    → All Q rs
    → ((r : DebtTransaction) → P r → Q r → R r)
    → All R rs
All-zip [] p q f = tt
All-zip (r ∷ rs) p q f = (f r p.0 q.0, All-zip rs p.1 q.1 f)

module _ ⦃m : Mongo⦄ ⦃intl : Intl⦄ where
  validate_amounts_ok :
      (a b : Amount) (db db' : Db) → validate_amounts a b db ≡ ok (tt, db') → db' ≡ db
  unfolding validate_amounts
  validate_amounts_ok a b db db' h = (raise_if_ok _ _ db db' h).1

  -- The creation of a debt, where it is accepted, keeps the book of debts.
  pub create_debt-DebtBook :
      (budget : BudgetContext) (actor_id : ObjectId) (dto : CreateDebtCommand) (d : Debt)
      (db db' : Db)
      → DebtBook db.debts db.repayments
      → create_for_budget budget actor_id dto db ≡ ok (d, db')
      → DebtBook db'.debts db'.repayments
  unfolding create_for_budget debt_document
  create_debt-DebtBook budget actor_id dto d db db' k h =
      let (u1, d1, h1, k1) = bind_ok (validate_amount dto.principal_amount dto.currency) _ db h in
      let (e1, exact, positive) = validate_amount_ok dto.principal_amount dto.currency db d1 h1 in
      let (u2, d2, h2, k2) =
        bind_ok (raise_if (not (has_valid_money_precision dto.principal_amount dto.currency)) _) _
          d1 k1 in
      let (ok2, e2) = raise_if_ok _ _ d1 d2 h2 in
      let (u3, d3, h3, k3) =
        bind_ok (validate_amounts dto.principal_amount dto.principal_amount) _ d2 k2 in
      let e3 = validate_amounts_ok dto.principal_amount dto.principal_amount d2 d3 h3 in
      let start : DebtBook d3.debts d3.repayments =
        subst (λ (z : Db). DebtBook z.debts z.repayments) (sym (e3 ∙ e2 ∙ e1)) k in
      let id = m.object_id (map debt_key d3.debts) in
      let doc = debt_document budget actor_id dto id in
      let book =
        book-create d3.debts d3.repayments doc start (m.object_id_new (map debt_key d3.debts))
          positive exact refl refl in
      let db_eq = (pure_ok doc d _ db' k3).1 in
      subst₂ DebtBook (sym (m.insert_law doc d3.debts) ∙ ap (λ (z : Db). z.debts) db_eq)
        (ap (λ (z : Db). z.repayments) db_eq) book

  -- What a new principal has to meet.
  abbrev Amendable : Debt → List DebtTransaction → Option Amount → Type 0
  Amendable d rs none = Unit
  Amendable d rs (some a) = IsExact d.currency a × (pos 1 ≤ℤ a) × All (λ r. r.debt_id ≢ d.id) rs

  check_principal_ok :
      (d : Debt) (o : Option Amount) (db db' : Db)
      → check_principal d o db ≡ ok (tt, db')
      → (db' ≡ db) × Amendable d db.repayments o
  unfolding check_principal
  check_principal_ok d none db db' h = (sym (pure_ok tt tt db db' h).1, tt)
  check_principal_ok d (some a) db db' h =
      let (u1, d1, h1, k1) = bind_ok (validate_amount a d.currency) _ db h in
      let (e1, exact, positive) = validate_amount_ok a d.currency db d1 h1 in
      let q : DebtTransaction → Bool = λ r. r.debt_id == d.id in
      let (fresh, e2) =
        raise_if_ok (is_some (m.find_one q d1.repayments)) (conflict debt_has_repayments) d1 db'
          k1 in
      let entries = ap (λ (z : Db). z.repayments) e1 in
      let unseen : is_some (first q db.repayments) ≡ false =
        ap is_some (sym (m.find_one_law q db.repayments) ∙ ap (λ c. m.find_one q c) (sym entries))
        ∙ fresh in
      (e2 ∙ e1, (exact, positive, no_history d.id db.repayments unseen))

  open_status :
      (d : Debt) (rs : List DebtTransaction)
      → All (λ r. r.debt_id ≢ d.id) rs
      → Balanced rs d
      → d.status ≡ active
  open_status d rs fresh b = active_of d.status (λ c. omega (
    int_laws,
    parts_eq b.principal,
    parts_eq (active_total_none d.id rs fresh),
    parts_eq (b.closed_iff.0 c),
    b.principal_positive,
  ))

  amended-Balanced :
      (o : Option Amount) (x : Text) (y : Option Text) (z : Option Date) (d : Debt)
      (rs : List DebtTransaction)
      → Amendable d rs o
      → Balanced rs d
      → Balanced rs (record d {
        debtor = x;
        principal_amount = get_or o d.principal_amount;
        remaining_amount = get_or o d.remaining_amount;
        description = y;
        due_date = z;
      })
  amended-Balanced none x y z d rs a b = record {
    principal = b.principal;
    principal_positive = b.principal_positive;
    remaining_nonneg = b.remaining_nonneg;
    remaining_exact = b.remaining_exact;
    closed_iff = b.closed_iff;
    entries = b.entries;
  }
  amended-Balanced (some p) x y z d rs (exact, positive, fresh) b =
      unpaid-Balanced rs _ fresh positive exact refl (open_status d rs fresh b)

  -- The update of a debt, where it is accepted, keeps the book of debts.
  pub update_debt-DebtBook :
      (budget : BudgetContext) (id : ObjectId) (dto : UpdateDebtCommand) (res : Option Debt)
      (db db' : Db)
      → DebtBook db.debts db.repayments
      → update_for_budget budget id dto db ≡ ok (res, db')
      → DebtBook db'.debts db'.repayments
  unfolding update_for_budget set_debt
  update_debt-DebtBook budget id dto res db db' k h =
      let (current, d1, h1, k1) = bind_ok (require_debt budget id true) _ db h in
      let (e1, was) = require_debt_ok budget id true current db d1 h1 in
      let managed = is_some dto.remaining_amount || is_some dto.status in
      let (u2, d2, h2, k2) =
        bind_ok (raise_if managed (bad_request debt_managed_by_repayments)) _ d1 k1 in
      let e2 = (raise_if_ok managed _ d1 d2 h2).1 in
      let principal = get_or dto.principal_amount current.principal_amount in
      let remaining =
        if is_some dto.principal_amount
        then principal
        else get_or dto.remaining_amount current.remaining_amount in
      let unknown = not (intl.supported current.currency) in
      let (v, d2', h2', k2') = bind_ok (raise_if unknown other_error) _ d2 k2 in
      let e2' = (raise_if_ok unknown _ d2 d2' h2').1 ∙ e2 in
      let bad =
        not (has_valid_money_precision principal current.currency)
        || not (has_valid_money_precision remaining current.currency) in
      let (u3, d3, h3, k3) =
        bind_ok (raise_if bad (bad_request amount_exceeds_precision)) _ d2' k2' in
      let e3 = (raise_if_ok bad _ d2' d3 h3).1 in
      let (u4, d4, h4, k4) = bind_ok (validate_amounts principal remaining) _ d3 k3 in
      let e4 = validate_amounts_ok principal remaining d3 d4 h4 in
      let (u5, d5, h5, k5) = bind_ok (check_principal current dto.principal_amount) _ d4 k4 in
      let (e5, may) = check_principal_ok current dto.principal_amount d4 d5 h5 in
      let same₄ = e4 ∙ e3 ∙ e2' ∙ e1 in
      let same₅ = e5 ∙ same₄ in
      let amend =
        subst (λ (z : Db). Amendable current z.repayments dto.principal_amount) same₄ may in
      let p = debt_filter budget id true in
      let f = set_debt dto in
      let book =
        book-change db.debts db.repayments p f current k was (λ x. refl)
          (amended-Balanced dto.principal_amount _ _ _ current db.repayments amend) in
      let db_eq = (pure_ok _ res _ db' k5).1 in
      subst₂ DebtBook
        (sym (m.update_one_law p f db.debts)
          ∙ ap (λ (z : Db). m.update_one p f z.debts) (sym same₅)
          ∙ ap (λ (z : Db). z.debts) db_eq)
        (ap (λ (z : Db). z.repayments) (sym same₅) ∙ ap (λ (z : Db). z.repayments) db_eq) book

  -- The removal of a debt, where it is accepted, keeps the book of debts.
  pub remove_debt-DebtBook :
      (budget : BudgetContext) (id : ObjectId) (db db' : Db)
      → DebtBook db.debts db.repayments
      → remove_for_budget budget id db ≡ ok (tt, db')
      → DebtBook db'.debts db'.repayments
  unfolding remove_for_budget
  remove_debt-DebtBook budget id db db' k h =
      let (d, d1, h1, k1) = bind_ok (require_debt budget id false) _ db h in
      let (e1, was) = require_debt_ok budget id false d db d1 h1 in
      let q : DebtTransaction → Bool = λ r. r.debt_id == d.id in
      let history = is_some (m.find_one q d1.repayments) in
      let posted = is_some (m.find_one (λ tx. has_debt_origin d.id tx.origin) d1.transactions) in
      let (u2, d2, h2, k2) =
        bind_ok (raise_if (history || posted || is_some d.archived_at) (conflict debt_has_history))
          _ d1 k1 in
      let (clear, e2) = raise_if_ok _ (conflict debt_has_history) d1 d2 h2 in
      let fresh : is_some (first q db.repayments) ≡ false =
        ap is_some (
          sym (m.find_one_law q db.repayments)
          ∙ ap (λ (z : Db). m.find_one q z.repayments) (sym e1))
        ∙ or_left history posted (or_left (history || posted) (is_some d.archived_at) clear) in
      let none_of = no_history d.id db.repayments fresh in
      let p = debt_filter budget id true in
      let same_id : d.id ≡ id = debt_filter_id budget id false d (first_matches _ db.debts d was) in
      let (gone, e3) = raise_if_ok _ (conflict debt_changed) _ db' k2 in
      let book : DebtBook (drop_first p db.debts) db.repayments = record {
        debts_distinct = Distinct-drop debt_key p db.debts k.debts_distinct;
        entries_distinct = k.entries_distinct;
        owned = All-zip db.repayments none_of k.owned (λ r ne at.
            In-map-drop p db.debts r.debt_id
              (λ x px z. ne (sym z ∙ debt_filter_id budget id true x px ∙ sym same_id)) at);
        balanced = All-drop (Balanced db.repayments) p db.debts k.balanced;
      } in
      let same = e2 ∙ e1 in
      subst₂ DebtBook
        (sym (m.delete_one_law p db.debts)
          ∙ ap (λ (z : Db). m.delete_one p z.debts) (sym same)
          ∙ sym (ap (λ (z : Db). z.debts) e3))
        (ap (λ (z : Db). z.repayments) (sym same) ∙ sym (ap (λ (z : Db). z.repayments) e3)) book
