-- ===== src/Debts/RoundTrip.antt =====
-- A repayment that is cancelled has changed nothing of its debt
-- (src/modules/debts/debts.service.ts, `repayForBudget` and `cancelRepaymentForBudget`).
use mathlib.Core.Path.{subst}
use babki_back.Prelude.{
  ◌≡◌, ◌≢◌, refl, sym, ap, ◌∙◌, if◌then◌else◌, Bool, true, some, List, [], ◌∷◌, ◌++◌, In, inl, inr,
  arith, Bool-cases,
}
use babki_back.Prelude.Int.{◌+ℤ◌, ◌-ℤ◌, int_laws, eq_ℤ, pos}
use babki_back.Money.{Amount, Intl, normalize_money}
use babki_back.Money.Precision.{normalize_money_exact}
use babki_back.Dates.{Date}
use babki_back.Mongo.{Mongo, first, change_first}
use babki_back.Mongo.Lookup.{first_matches, first-In}
use babki_back.Mongo.Distinct.{Distinct-In, All-In}
use babki_back.Http.{ok}
use babki_back.Schemas.{Db, ObjectId, Debt, DebtTransaction, Status, active, closed}
use babki_back.Budget.{BudgetContext}
use babki_back.Debts.{
  RepayDebtCommand, debt_filter, unchanged_filter, set_balance, repayment_filter, repay_for_budget,
  cancel_repayment_for_budget,
}
use babki_back.Debts.Book.{debt_key, entry_key, Balanced, DebtBook}
use babki_back.Debts.Changes.{sub_exact}
use babki_back.Debts.Repay.{repay-Repaid, repay-DebtBook, debt_filter_id}
use babki_back.Debts.Cancel.{cancel-Cancelled}

In-change_first :
    (p : Debt → Bool) (f : Debt → Debt) (ds : List Debt) (d : Debt)
    → first p ds ≡ some d
    → In (f d) (change_first p f ds)
unfolding first change_first
In-change_first p f [] d h = cc
In-change_first p f (e ∷ ds) d h = elim (Bool-cases (p e)) [
  | inl y ↦ let same : e ≡ d = ground arith in rw y (inl (ap f (sym same)))
  | inr n ↦ rw n (inr (In-change_first p f ds d (ground arith)))
]

In-append : (rs : List DebtTransaction) (h : DebtTransaction) → In h (rs ++ h ∷ [])
In-append [] h = inl refl
In-append (r ∷ rs) h = inr (In-append rs h)

back_again : (a b : Amount) → (a -ℤ b) +ℤ b ≡ a
back_again a b = omega int_laws

open_is_active : (s : Status) → s ≢ closed → active ≡ s
open_is_active active n = refl
open_is_active closed n = absurd (n refl)

repayment_filter_id :
    (budget : BudgetContext) (debt_id id : ObjectId) (r : DebtTransaction)
    → repayment_filter budget debt_id id r ≡ true
    → r.id ≡ id
unfolding repayment_filter
repayment_filter_id budget debt_id id r h = ground arith

-- What cancelling sets, after what the repayment has set.
restored_debt :
    (d : Debt) (x y : Amount) (s : Status)
    → y ≡ d.remaining_amount
    → active ≡ d.status
    → set_balance y active (set_balance x s d) ≡ d
unfolding set_balance
restored_debt d x y s e a =
    ap (λ z. set_balance z active d) e ∙ ap (λ z. set_balance d.remaining_amount z d) a

module _ ⦃m : Mongo⦄ ⦃intl : Intl⦄ where
  -- Where a repayment is recorded and then cancelled, the debt is as it was before the two.
  pub cancel-repay :
      (budget : BudgetContext) (actor_id actor_id' : ObjectId) (now : Date) (id : ObjectId)
      (dto : RepayDebtCommand) (d d' : Debt) (h h' : DebtTransaction) (db db₁ db₂ : Db)
      → DebtBook db.debts db.repayments
      → repay_for_budget budget actor_id id dto db ≡ ok ((d, h), db₁)
      → cancel_repayment_for_budget budget actor_id' now id h.id db₁ ≡ ok ((d', h'), db₂)
      → first (debt_filter budget id true) db.debts ≡ some d'
  unfolding set_balance
  cancel-repay budget actor_id actor_id' now id dto d d' h h' db db₁ db₂ k paid undone =
      let book = repay-DebtBook budget actor_id id dto (d, h) db db₁ k paid in
      let r = repay-Repaid budget actor_id id dto (d, h) db db₁ k.debts_distinct paid in
      let c =
        cancel-Cancelled budget actor_id' now id h.id (d', h') db₁ db₂ book.debts_distinct
          book.entries_distinct undone in
      let e = r.recorded in
      let entry_is : h ≡ e.entry = ap (λ (z : Debt × DebtTransaction). z.1) e.result in
      let x = normalize_money (r.current.remaining_amount -ℤ dto.amount) r.current.currency in
      let changed = set_balance x (if eq_ℤ x (pos 0) then closed else r.current.status) r.current in
      let stored_debt : In changed db₁.debts =
        subst (In changed) (sym e.debts)
          (In-change_first (unchanged_filter budget r.current) _ r.before.debts r.current r.hit) in
      let stored_entry : In e.entry db₁.repayments =
        subst (In e.entry) (sym e.repayments) (In-append r.before.repayments e.entry) in
      let same_debt : c.current ≡ changed =
        Distinct-In debt_key db₁.debts c.current changed book.debts_distinct
          (first-In _ db₁.debts c.current c.was) stored_debt
          (debt_filter_id budget id true c.current (first_matches _ db₁.debts c.current c.was)
            ∙ sym (
                debt_filter_id budget id true r.current
                  (first_matches _ db.debts r.current r.was))) in
      let same_entry : c.entry ≡ e.entry =
        Distinct-In entry_key db₁.repayments c.entry e.entry book.entries_distinct
          (first-In _ db₁.repayments c.entry c.found) stored_entry
          (repayment_filter_id budget c.current.id h.id c.entry
              (first_matches _ db₁.repayments c.entry c.found)
            ∙ ap entry_key entry_is) in
      let held =
        All-In (Balanced db.repayments) db.debts r.current k.balanced
          (first-In _ db.debts r.current r.was) in
      let less : x ≡ r.current.remaining_amount -ℤ dto.amount =
        normalize_money_exact _ r.current.currency
          (sub_exact _ _ _ held.remaining_exact r.payable.exact) in
      let again : normalize_money (c.current.remaining_amount +ℤ c.entry.amount) c.current.currency
          ≡ r.current.remaining_amount =
        ap (λ (z : Debt). normalize_money (z.remaining_amount +ℤ c.entry.amount) z.currency)
          same_debt
        ∙ ap (λ (z : DebtTransaction). normalize_money (x +ℤ z.amount) r.current.currency)
            same_entry
        ∙ ap (λ z. normalize_money (z +ℤ e.entry.amount) r.current.currency) less
        ∙ ap
            (λ z.
              normalize_money (r.current.remaining_amount -ℤ dto.amount +ℤ z) r.current.currency)
            e.amount
        ∙ ap (λ z. normalize_money z r.current.currency)
            (back_again r.current.remaining_amount dto.amount)
        ∙ normalize_money_exact r.current.remaining_amount r.current.currency
            held.remaining_exact in
      let result : d' ≡ r.current =
        ap (λ (z : Debt × DebtTransaction). z.0) c.restored.result
        ∙ ap
            (λ z.
              set_balance
                (normalize_money (c.current.remaining_amount +ℤ c.entry.amount) c.current.currency)
                active z)
            same_debt
        ∙ restored_debt r.current x _ (if eq_ℤ x (pos 0) then closed else r.current.status) again
            (open_is_active r.current.status r.payable.open_debt) in
      r.was ∙ ap some (sym result)
