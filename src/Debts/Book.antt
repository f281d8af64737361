-- ===== src/Debts/Book.antt =====
-- The book of debts: what the debts and their repayments promise together, and the changes of
-- the two collections that keep it.
use babki_back.Prelude.{
  ℕ, ◌≡◌, ◌≢◌, ◌↔◌, refl, Bool, false, not, ◌&&◌, some, List, [], ◌∷◌, ◌++◌, arith, All, In, inl,
  inr, Bool-cases, map, is_some, if◌then◌else◌, ◌==◌,
}
use babki_back.Prelude.Int.{pos, ◌+ℤ◌, ◌≤ℤ◌, int_laws, parts_eq}
use babki_back.Money.{Amount, Intl}
use babki_back.Money.Precision.{IsExact}
use babki_back.Mongo.{first, change_first}
use babki_back.Mongo.Distinct.{Distinct}
use babki_back.Schemas.{ObjectId, Debt, DebtTransaction, closed}

abbrev pub debt_key : Debt → ℕ
debt_key d = d.id

abbrev pub entry_key : DebtTransaction → ℕ
entry_key r = r.id

-- What a repayment that is not cancelled takes off a debt.
unfoldable pub repaid : ObjectId → DebtTransaction → Amount
repaid id r = if r.debt_id == id && not (is_some r.cancelled_at) then r.amount else pos 0

unfoldable pub active_total : ObjectId → List DebtTransaction → Amount
active_total id [] = pos 0
active_total id (r ∷ rs) = repaid id r +ℤ active_total id rs

pub active_total-append :
    (id : ObjectId) (rs : List DebtTransaction) (r : DebtTransaction)
    → active_total id (rs ++ r ∷ []) ≡ active_total id rs +ℤ repaid id r
unfolding active_total
active_total-append id [] r = omega int_laws
active_total-append id (x ∷ rs) r = omega (int_laws, parts_eq (active_total-append id rs r))

pub active_total-change_first :
    (id : ObjectId) (p : DebtTransaction → Bool) (f : DebtTransaction → DebtTransaction)
    (rs : List DebtTransaction) (r : DebtTransaction)
    → first p rs ≡ some r
    → active_total id (change_first p f rs) +ℤ repaid id r ≡ active_total id rs +ℤ repaid id (f r)
unfolding active_total first change_first
active_total-change_first id p f [] r h = cc
active_total-change_first id p f (x ∷ rs) r h = elim (Bool-cases (p x)) [
  | inl y ↦ let same : x ≡ r = ground arith in rw (y, same) (omega int_laws)
  | inr n ↦
      let later : first p rs ≡ some r = ground arith in
      rw n (omega (int_laws, parts_eq (active_total-change_first id p f rs r later)))
]

pub active_total_none :
    (id : ObjectId) (rs : List DebtTransaction)
    → All (λ r. r.debt_id ≢ id) rs
    → active_total id rs ≡ pos 0
unfolding active_total repaid
active_total_none id [] a = refl
active_total_none id (r ∷ rs) a =
    let none_here : (r.debt_id == id) ≡ false = ground (arith, a.0) in
    rw (none_here, active_total_none id rs a.1) (omega int_laws)

module _ ⦃intl : Intl⦄ where
  -- An entry of the debt is a positive amount in whole minor units of its currency.
  abbrev pub IsEntryOf : Debt → DebtTransaction → Type 0
  IsEntryOf d r = r.debt_id ≡ d.id → IsExact d.currency r.amount × (pos 1 ≤ℤ r.amount)

  -- The principal is what remains and what the repayments that are not cancelled have paid. The
  -- debt is closed exactly when nothing remains.
  pub record Balanced (rs : List DebtTransaction) (d : Debt) : Type 0 where
    pub principal : d.principal_amount ≡ d.remaining_amount +ℤ active_total d.id rs
    pub principal_positive : pos 1 ≤ℤ d.principal_amount
    pub remaining_nonneg : pos 0 ≤ℤ d.remaining_amount
    pub remaining_exact : IsExact d.currency d.remaining_amount
    pub closed_iff : (d.status ≡ closed) ↔ (d.remaining_amount ≡ pos 0)
    pub entries : All (IsEntryOf d) rs

  -- Ids are unique, every repayment is of a debt, and every debt is balanced.
  pub record DebtBook (ds : List Debt) (rs : List DebtTransaction) : Type 0 where
    pub debts_distinct : Distinct debt_key ds
    pub entries_distinct : Distinct entry_key rs
    pub owned : All (λ r. In r.debt_id (map debt_key ds)) rs
    pub balanced : All (Balanced rs) ds
