-- ===== src/Debts/Archive.antt =====
-- Archiving a debt (`archiveForBudget` of src/modules/debts/debts.service.ts).
use mathlib.Core.Option
use mathlib.Core.Path.{subst, subst₂}
use babki_back.Prelude.{
  ◌≡◌, refl, sym, ap, ◌∙◌, Bool, true, false, not, Option, none, some, arith, is_some, In,
}
use babki_back.Money.{Intl}
use babki_back.Dates.{Date}
use babki_back.Mongo.{Mongo, first, change_first}
use babki_back.Mongo.Lookup.{first_matches, first-In}
use babki_back.Mongo.Distinct.{first-change_first-none, In-change_first}
use babki_back.Http.{ok, err, not_found, debt_not_found}
use babki_back.Schemas.{Db, ObjectId, Debt}
use babki_back.Budget.{BudgetContext}
use babki_back.Debts.{debt_filter, archive_for_budget}
use babki_back.Debts.Book.{debt_key, DebtBook}
use babki_back.Debts.Changes.{book-change}
use babki_back.Debts.Repay.{debt_filter_id}
use babki_back.Session.Inversion.{raise_if_ok}

found_of :
    (f : Debt → Debt) (o : Option Debt)
    → not (is_some (Option.map f o)) ≡ false
    → (d : Debt) × (o ≡ some d)
found_of f none h = cc
found_of f (some d) h = (d, refl)

module _ ⦃m : Mongo⦄ ⦃intl : Intl⦄ where
  archived_book :
      (p : Debt → Bool) (now : Date) (db db' : Db)
      → DebtBook db.debts db.repayments
      → db'
        ≡ record db { debts = m.update_one p (λ d. record d { archived_at = some now }) db.debts }
      → ((d : Debt) × (m.find_one p db.debts ≡ some d))
      → DebtBook db'.debts db'.repayments
  archived_book p now db db' k same (d, found) =
      let f : Debt → Debt = λ d. record d { archived_at = some now } in
      let book =
        book-change db.debts db.repayments p f d k (sym (m.find_one_law p db.debts) ∙ found)
          (λ x. refl)
          (λ b. record {
            principal = b.principal;
            principal_positive = b.principal_positive;
            remaining_nonneg = b.remaining_nonneg;
            remaining_exact = b.remaining_exact;
            closed_iff = b.closed_iff;
            entries = b.entries;
          }) in
      subst₂ DebtBook (sym (m.update_one_law p f db.debts) ∙ sym (ap (λ (z : Db). z.debts) same))
        (sym (ap (λ (z : Db). z.repayments) same)) book

  -- What archiving finds is of the space and not archived, and it is archived at the given time.
  pub record IsArchived (budget : BudgetContext) (now : Date) (id : ObjectId) (db db' : Db)
      : Type 0 where
    pub before : Debt
    pub found : In before db.debts
    pub named : before.id ≡ id
    pub home : before.space_id ≡ budget.space_id
    pub live : before.archived_at ≡ none
    pub marked : In (record before { archived_at = some now }) db'.debts
    pub entries : db'.repayments ≡ db.repayments

  -- The archiving of a debt, where it is accepted, keeps the book of debts. The debt was of the
  -- space and not archived, it is archived afterwards at the given time and otherwise as it was,
  -- the repayments stay as they are, and archiving it again is refused as not found.
  pub archive_debt-DebtBook :
      (budget : BudgetContext) (now later : Date) (id : ObjectId) (db db' : Db)
      → DebtBook db.debts db.repayments
      → archive_for_budget budget now id db ≡ ok (tt, db')
      → DebtBook db'.debts db'.repayments
        × IsArchived budget now id db db'
        × (archive_for_budget budget later id db' ≡ err (not_found debt_not_found))
  unfolding archive_for_budget debt_filter
  archive_debt-DebtBook budget now later id db db' k h =
      let p = debt_filter budget id true in
      let f : Debt → Debt = λ d. record d { archived_at = some now } in
      let (is_found, same) = raise_if_ok _ _ _ db' h in
      let (d, e) = found_of f (m.find_one p db.debts) is_found in
      let first_d : first p db.debts ≡ some d = sym (m.find_one_law p db.debts) ∙ e in
      let debts : db'.debts ≡ change_first p f db.debts =
        ap (λ (z : Db). z.debts) same ∙ m.update_one_law p f db.debts in
      let matches : p d ≡ true = first_matches p db.debts d first_d in
      let gone : first p (change_first p f db.debts) ≡ none =
        first-change_first-none debt_key p f db.debts d k.debts_distinct first_d (ground arith)
          (λ x y.
            debt_filter_id budget id true x y ∙ sym (debt_filter_id budget id true d matches)) in
      let none_left : m.find_one p db'.debts ≡ none =
        m.find_one_law p db'.debts ∙ ap (first p) debts ∙ gone in
      (
        archived_book p now db db' k same (d, e),
        record {
          before = d;
          found = first-In p db.debts d first_d;
          named = ground arith;
          home = ground arith;
          live = ground arith;
          marked = subst (In (f d)) (sym debts) (In-change_first p f db.debts d first_d);
          entries = ap (λ (z : Db). z.repayments) same;
        },
        rw none_left refl,
      )
