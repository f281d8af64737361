-- ===== src/Debts/Changes.antt =====
-- The changes of the two collections that keep the book of debts.
use mathlib.Core.Path.{subst}
use babki_back.Prelude.{
  ℕ, ◌≡◌, ◌≢◌, ◌↔◌, refl, sym, ap, ◌∙◌, Bool, none, some, List, [], ◌∷◌, ◌++◌, arith, All, In, inl,
  inr, map, if◌then◌else◌,
}
use babki_back.Prelude.Int.{pos, ◌+ℤ◌, ◌-ℤ◌, ◌≤ℤ◌, eq_ℤ, int_laws, parts_eq}
use babki_back.Money.{Amount, Intl}
use babki_back.Money.Precision.{IsExact}
use babki_back.Money.Rounding.{IsMultiple, times-add, times-sub}
use babki_back.Dates.{Date}
use babki_back.Mongo.{first, change_first}
use babki_back.Mongo.Lookup.{first-In}
use babki_back.Mongo.Distinct.{
  Distinct, All-In, All-map, All-append, All-change_first, Distinct-change_first, Distinct-append,
  map-key-change_first,
}
use babki_back.Schemas.{ObjectId, Debt, DebtTransaction, Status, active, closed}
use babki_back.Debts.{set_balance, mark_cancelled}
use babki_back.Debts.Book.{
  debt_key, entry_key, repaid, active_total-append, active_total-change_first, active_total_none,
  IsEntryOf, Balanced, DebtBook,
}

repaid_elsewhere : (id : ObjectId) (r : DebtTransaction) → r.debt_id ≢ id → repaid id r ≡ pos 0
unfolding repaid
repaid_elsewhere id r ne = ground arith

pub repaid_here :
    (id : ObjectId) (r : DebtTransaction)
    → r.debt_id ≡ id
    → r.cancelled_at ≡ none
    → repaid id r ≡ r.amount
unfolding repaid
repaid_here id r e o = ground arith

repaid_cancelled :
    (id : ObjectId) (r : DebtTransaction) (now : Date) (actor_id : ObjectId)
    → repaid id (mark_cancelled now actor_id r) ≡ pos 0
unfolding repaid mark_cancelled
repaid_cancelled id r now actor_id = ground arith

pub sub_exact : (s : ℕ) (a b : Amount) → IsMultiple s a → IsMultiple s b → IsMultiple s (a -ℤ b)
sub_exact s a b (p, e) (q, e') = (p -ℤ q, rw (times-sub, e, e') refl)

pub add_exact : (s : ℕ) (a b : Amount) → IsMultiple s a → IsMultiple s b → IsMultiple s (a +ℤ b)
add_exact s a b (p, e) (q, e') = (p +ℤ q, rw (times-add, e, e') refl)

In-map : {D : Type 0} (key : D → ℕ) (c : List D) (d : D) → In d c → In (key d) (map key c)
In-map key [] d h = absurd h
In-map key (e ∷ c) d (inl q) = inl (ap key q)
In-map key (e ∷ c) d (inr h) = inr (In-map key c d h)

sym_zero : (x : Amount) → x ≡ x +ℤ pos 0
sym_zero x = omega int_laws

In-more :
    (ds : List Debt) (d : Debt) (x : ℕ)
    → In x (map debt_key ds)
    → In x (map debt_key (ds ++ d ∷ []))
In-more [] d x h = absurd h
In-more (e ∷ ds) d x (inl q) = inl q
In-more (e ∷ ds) d x (inr h) = inr (In-more ds d x h)

-- The status that `record_repayment` gives a debt that is not closed.
status_after :
    (x : Amount) (s : Status)
    → s ≢ closed
    → ((if eq_ℤ x (pos 0) then closed else s) ≡ closed) ↔ (x ≡ pos 0)
status_after x s open_debt = (λ h. ground arith, λ h. ground arith)

module _ ⦃intl : Intl⦄ where
  appended_other :
      (rs : List DebtTransaction) (e : Debt) (h : DebtTransaction)
      → h.debt_id ≢ e.id
      → Balanced rs e
      → Balanced (rs ++ h ∷ []) e
  appended_other rs e h ne b = record {
    principal =
        rw (active_total-append, repaid_elsewhere e.id h ne)
          (b.principal ∙ ap (λ x. e.remaining_amount +ℤ x) (sym_zero _));
    principal_positive = b.principal_positive;
    remaining_nonneg = b.remaining_nonneg;
    remaining_exact = b.remaining_exact;
    closed_iff = b.closed_iff;
    entries = All-append (IsEntryOf e) rs h b.entries (λ q. absurd (ne q));
  }

  repaid-Balanced :
      (rs : List DebtTransaction) (d : Debt) (h : DebtTransaction)
      → h.debt_id ≡ d.id
      → h.cancelled_at ≡ none
      → IsExact d.currency h.amount
      → pos 1 ≤ℤ h.amount
      → h.amount ≤ℤ d.remaining_amount
      → d.status ≢ closed
      → Balanced rs d
      → Balanced (rs ++ h ∷ []) (
          set_balance
            (d.remaining_amount -ℤ h.amount)
            (if eq_ℤ (d.remaining_amount -ℤ h.amount) (pos 0) then closed else d.status)
            d)
  unfolding set_balance
  repaid-Balanced rs d h here live exact positive covered open_debt b = record {
    principal =
        rw (active_total-append, repaid_here d.id h here live)
          (omega (int_laws, parts_eq b.principal));
    principal_positive = b.principal_positive;
    remaining_nonneg = omega int_laws;
    remaining_exact = sub_exact _ _ _ b.remaining_exact exact;
    closed_iff = status_after (d.remaining_amount -ℤ h.amount) d.status open_debt;
    entries = All-append (IsEntryOf d) rs h b.entries (λ q. (exact, positive));
  }

  -- A repayment is recorded.
  pub book-repay :
      (ds : List Debt) (rs : List DebtTransaction) (p : Debt → Bool) (d : Debt)
      (h : DebtTransaction)
      → DebtBook ds rs
      → first p ds ≡ some d
      → h.debt_id ≡ d.id
      → h.cancelled_at ≡ none
      → IsExact d.currency h.amount
      → pos 1 ≤ℤ h.amount
      → h.amount ≤ℤ d.remaining_amount
      → d.status ≢ closed
      → ¬ (In h.id (map entry_key rs))
      → DebtBook
          (change_first p
            (set_balance
              (d.remaining_amount -ℤ h.amount)
              (if eq_ℤ (d.remaining_amount -ℤ h.amount) (pos 0) then closed else d.status))
            ds)
          (rs ++ h ∷ [])
  unfolding set_balance
  book-repay ds rs p d h k found here live exact positive covered open_debt new =
      let amount = d.remaining_amount -ℤ h.amount in
      let f = set_balance amount (if eq_ℤ amount (pos 0) then closed else d.status) in
      record {
        debts_distinct = Distinct-change_first debt_key p f ds (λ x. refl) k.debts_distinct;
        entries_distinct = Distinct-append entry_key rs h k.entries_distinct new;
        owned = rw (map-key-change_first debt_key p f ds (λ x. refl)) (
            All-append (λ r. In r.debt_id (map debt_key ds)) rs h k.owned
              (rw here (In-map debt_key ds d (first-In p ds d found))));
        balanced =
            All-change_first debt_key p f ds d k.debts_distinct found k.balanced
              (λ e ne b. appended_other rs e h (λ q. ne (sym q ∙ here)) b)
              (repaid-Balanced rs d h here live exact positive covered open_debt);
      }

  entries_marked :
      (rs : List DebtTransaction) (q : DebtTransaction → Bool) (r : DebtTransaction) (now : Date)
      (actor_id : ObjectId) (e : Debt)
      → Distinct entry_key rs
      → first q rs ≡ some r
      → All (IsEntryOf e) rs
      → All (IsEntryOf e) (change_first q (mark_cancelled now actor_id) rs)
  unfolding mark_cancelled
  entries_marked rs q r now actor_id e u found a =
      All-change_first entry_key q (mark_cancelled now actor_id) rs r u found a (λ x ne p. p)
        (λ p. p)

  marked_other :
      (rs : List DebtTransaction) (q : DebtTransaction → Bool) (r : DebtTransaction) (now : Date)
      (actor_id : ObjectId) (e : Debt)
      → Distinct entry_key rs
      → first q rs ≡ some r
      → r.debt_id ≢ e.id
      → Balanced rs e
      → Balanced (change_first q (mark_cancelled now actor_id) rs) e
  marked_other rs q r now actor_id e u found ne b = record {
    principal =
        let moved = active_total-change_first e.id q (mark_cancelled now actor_id) rs r found in
        omega (
          int_laws,
          parts_eq b.principal,
          parts_eq moved,
          parts_eq (repaid_elsewhere e.id r ne),
          parts_eq (repaid_cancelled e.id r now actor_id),
        );
    principal_positive = b.principal_positive;
    remaining_nonneg = b.remaining_nonneg;
    remaining_exact = b.remaining_exact;
    closed_iff = b.closed_iff;
    entries = entries_marked rs q r now actor_id e u found b.entries;
  }

  restored-Balanced :
      (rs : List DebtTransaction) (q : DebtTransaction → Bool) (r : DebtTransaction) (now : Date)
      (actor_id : ObjectId) (d : Debt)
      → Distinct entry_key rs
      → first q rs ≡ some r
      → r.debt_id ≡ d.id
      → r.cancelled_at ≡ none
      → Balanced rs d
      → Balanced
          (change_first q (mark_cancelled now actor_id) rs)
          (set_balance (d.remaining_amount +ℤ r.amount) active d)
  unfolding set_balance
  restored-Balanced rs q r now actor_id d u found here live b =
      let (exact, positive) = All-In (IsEntryOf d) rs r b.entries (first-In q rs r found) here in
      let moved = active_total-change_first d.id q (mark_cancelled now actor_id) rs r found in
      record {
        principal = omega (
          int_laws,
          parts_eq b.principal,
          parts_eq moved,
          parts_eq (repaid_here d.id r here live),
          parts_eq (repaid_cancelled d.id r now actor_id),
        );
        principal_positive = b.principal_positive;
        remaining_nonneg = omega (int_laws, b.remaining_nonneg, positive);
        remaining_exact = add_exact _ _ _ b.remaining_exact exact;
        closed_iff =
            (λ h. cc, λ h. absurd (omega (int_laws, parts_eq h, b.remaining_nonneg, positive)));
        entries = entries_marked rs q r now actor_id d u found b.entries;
      }

  -- A repayment is cancelled.
  pub book-cancel :
      (ds : List Debt) (rs : List DebtTransaction) (p : Debt → Bool) (d : Debt)
      (q : DebtTransaction → Bool) (r : DebtTransaction) (now : Date) (actor_id : ObjectId)
      → DebtBook ds rs
      → first p ds ≡ some d
      → first q rs ≡ some r
      → r.debt_id ≡ d.id
      → r.cancelled_at ≡ none
      → DebtBook
          (change_first p (set_balance (d.remaining_amount +ℤ r.amount) active) ds)
          (change_first q (mark_cancelled now actor_id) rs)
  unfolding set_balance mark_cancelled
  book-cancel ds rs p d q r now actor_id k found found' here live =
      let f = set_balance (d.remaining_amount +ℤ r.amount) active in
      let g = mark_cancelled now actor_id in
      record {
        debts_distinct = Distinct-change_first debt_key p f ds (λ x. refl) k.debts_distinct;
        entries_distinct = Distinct-change_first entry_key q g rs (λ x. refl) k.entries_distinct;
        owned = rw (map-key-change_first debt_key p f ds (λ x. refl)) (
            All-change_first entry_key q g rs r k.entries_distinct found' k.owned (λ x ne h. h)
              (λ h. h));
        balanced =
            All-change_first debt_key p f ds d k.debts_distinct found k.balanced
              (λ e ne b.
                marked_other rs q r now actor_id e k.entries_distinct found'
                  (λ z. ne (sym z ∙ here)) b)
              (restored-Balanced rs q r now actor_id d k.entries_distinct found' here live);
      }

  -- A debt is changed so that it is balanced again.
  pub book-change :
      (ds : List Debt) (rs : List DebtTransaction) (p : Debt → Bool) (f : Debt → Debt) (d : Debt)
      → DebtBook ds rs
      → first p ds ≡ some d
      → ((x : Debt) → (f x).id ≡ x.id)
      → (Balanced rs d → Balanced rs (f d))
      → DebtBook (change_first p f ds) rs
  book-change ds rs p f d k found same here = record {
    debts_distinct = Distinct-change_first debt_key p f ds same k.debts_distinct;
    entries_distinct = k.entries_distinct;
    owned = rw (map-key-change_first debt_key p f ds same) k.owned;
    balanced =
        All-change_first debt_key p f ds d k.debts_distinct found k.balanced (λ e ne b. b) here;
  }

  no_entries :
      (ds : List Debt) (rs : List DebtTransaction) (id : ObjectId)
      → ¬ (In id (map debt_key ds))
      → All (λ r. In r.debt_id (map debt_key ds)) rs
      → All (λ r. r.debt_id ≢ id) rs
  no_entries ds rs id new a = All-map rs (λ r h q. new (subst (λ x. In x (map debt_key ds)) q h)) a

  owned_more :
      (ds : List Debt) (d : Debt) (rs : List DebtTransaction)
      → All (λ r. In r.debt_id (map debt_key ds)) rs
      → All (λ r. In r.debt_id (map debt_key (ds ++ d ∷ []))) rs
  owned_more ds d rs a = All-map rs (λ r h. In-more ds d r.debt_id h) a

  -- A debt of which nothing is paid yet.
  pub unpaid-Balanced :
      (rs : List DebtTransaction) (d : Debt)
      → All (λ r. r.debt_id ≢ d.id) rs
      → pos 1 ≤ℤ d.principal_amount
      → IsExact d.currency d.principal_amount
      → d.remaining_amount ≡ d.principal_amount
      → d.status ≡ active
      → Balanced rs d
  unpaid-Balanced rs d fresh positive exact same open_debt = record {
    principal = rw (active_total_none d.id rs fresh, same) (sym_zero d.principal_amount);
    principal_positive = positive;
    remaining_nonneg = omega (int_laws, positive, parts_eq same);
    remaining_exact = rw same exact;
    closed_iff = (λ h. cc, λ h. absurd (omega (int_laws, positive, parts_eq same, parts_eq h)));
    entries = All-map rs (λ r ne q. absurd (ne q)) fresh;
  }

  -- A debt is added.
  pub book-create :
      (ds : List Debt) (rs : List DebtTransaction) (d : Debt)
      → DebtBook ds rs
      → ¬ (In d.id (map debt_key ds))
      → pos 1 ≤ℤ d.principal_amount
      → IsExact d.currency d.principal_amount
      → d.remaining_amount ≡ d.principal_amount
      → d.status ≡ active
      → DebtBook (ds ++ d ∷ []) rs
  book-create ds rs d k new positive exact same open_debt = record {
    debts_distinct = Distinct-append debt_key ds d k.debts_distinct new;
    entries_distinct = k.entries_distinct;
    owned = owned_more ds d rs k.owned;
    balanced =
        All-append (Balanced rs) ds d k.balanced
          (unpaid-Balanced rs d (no_entries ds rs d.id new k.owned) positive exact same open_debt);
  }
