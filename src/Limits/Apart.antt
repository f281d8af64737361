-- ===== src/Limits/Apart.antt =====
-- What the limits promise: those of one category and currency have periods that are apart
-- (src/modules/expense-limits/expense-limits.service.ts, `checkOverlap`).
use babki_back.Prelude.{
  ◌≤◌, ◌≡◌, ◌≢◌, refl, sym, ap, ◌∙◌, Bool, true, false, Option, none, some, List, [], ◌∷◌, ◌++◌,
  arith, All, In, inl, inr, Bool-cases, map, is_some,
}
use mathlib.Core.Path.{subst}
use babki_back.Money.{Currency}
use babki_back.Mongo.{first, change_first, drop_first}
use babki_back.Mongo.Distinct.{
  Differs, Distinct, All-append, All-map, All-drop, All-In, All-change_first, Distinct-append,
  Distinct-change_first, Distinct-drop,
}
use babki_back.Mongo.Lookup.{first-In}
use babki_back.Schemas.{ObjectId, ExpenseLimit}
use babki_back.Budget.{BudgetContext}
use babki_back.Limits.{same_currency, is_other, overlap_filter}

-- Two limits count the same expenses at some time.
abbrev pub Clash : ExpenseLimit → ExpenseLimit → Type 0
Clash a b =
    (a.space_id ≡ b.space_id)
    × (a.category ≡ b.category)
    × (a.currency ≡ b.currency)
    × (a.start_date ≤ b.end_date)
    × (b.start_date ≤ a.end_date)

abbrev pub Disjoint : ExpenseLimit → ExpenseLimit → Type 0
Disjoint a b = ¬ (Clash a b)

abbrev pub Apart : List ExpenseLimit → Type 0
Apart [] = Unit
Apart (a ∷ c) = All (Disjoint a) c × Apart c

pub record IsLimitBook (c : List ExpenseLimit) : Type 0 where
  pub ids : Distinct (λ l. l.id) c
  pub apart : Apart c
  pub periods : All (λ l. l.start_date ≤ l.end_date) c

swap : (a b : ExpenseLimit) → Disjoint a b → Disjoint b a
swap a b h k = h (sym k.0, sym k.1, sym k.2, k.4, k.3)

Apart-append :
    (c : List ExpenseLimit) (d : ExpenseLimit)
    → Apart c
    → All (λ x. Disjoint x d) c
    → Apart (c ++ d ∷ [])
Apart-append [] d a h = (tt, tt)
Apart-append (x ∷ c) d a h = (All-append (Disjoint x) c d a.0 h.0, Apart-append c d a.1 h.1)

Apart-drop : (p : ExpenseLimit → Bool) (c : List ExpenseLimit) → Apart c → Apart (drop_first p c)
unfolding drop_first
Apart-drop p [] a = tt
Apart-drop p (x ∷ c) a = elim (Bool-cases (p x)) [
  | inl y ↦ rw y a.1
  | inr n ↦ rw n (All-drop (Disjoint x) p c a.0, Apart-drop p c a.1)
]

-- A limit that is apart from all others changes in its place.
Apart-change :
    (p : ExpenseLimit → Bool) (f : ExpenseLimit → ExpenseLimit) (c : List ExpenseLimit)
    (d : ExpenseLimit)
    → Distinct (λ l. l.id) c
    → first p c ≡ some d
    → Apart c
    → All (λ x. x.id ≢ d.id → Disjoint x (f d)) c
    → Apart (change_first p f c)
unfolding first change_first
Apart-change p f [] d u h a free = tt
Apart-change p f (x ∷ c) d u h a free = elim (Bool-cases (p x)) [
  | inl y ↦
      let same : x ≡ d = ground arith in
      rw y (subst (λ z. All (Disjoint (f z)) c) (sym same) (others c d u free.1 same), a.1)
  | inr n ↦
      let later : first p c ≡ some d = ground arith in
      let differs : x.id ≢ d.id =
        λ q. All-In (Differs (λ l. l.id) x) c d u.0 (first-In p c d later) (sym q) in
      rw n (
        All-change_first (λ l. l.id) p f c d u.1 later a.0 (λ e ne k. k) (λ k. free.0 differs),
        Apart-change p f c d u.1 later a.1 free.1,
      )
]
  where
    others :
        (c : List ExpenseLimit) (d : ExpenseLimit)
        → Distinct (λ l. l.id) (x ∷ c)
        → All (λ z. z.id ≢ d.id → Disjoint z (f d)) c
        → x ≡ d
        → All (Disjoint (f d)) c
    others c d u free same = together c u.0 free
      where
        together :
            (c : List ExpenseLimit)
            → All (Differs (λ l. l.id) x) c
            → All (λ z. z.id ≢ d.id → Disjoint z (f d)) c
            → All (Disjoint (f d)) c
        together [] k free = tt
        together (z ∷ c) k free = (
          swap z (f d) (free.0 (λ q. k.0 (q ∙ sym (ap (λ (l : ExpenseLimit). l.id) same)))),
          together c k.1 free.1,
        )

same_currency_refl : (o : Option Currency) → same_currency o o ≡ true
unfolding same_currency
same_currency_refl none = refl
same_currency_refl (some c) = ground arith

-- What the overlap check does not find does not clash with the new period.
free :
    (budget : BudgetContext) (id : Option ObjectId) (d x : ExpenseLimit)
    → budget.space_id ≡ d.space_id
    → overlap_filter budget d.category d.start_date d.end_date d.currency id x ≡ false
    → is_other id x.id ≡ true
    → Disjoint x d
unfolding overlap_filter
free budget id d x home h other k =
    let z = same_currency_refl d.currency in
    let q : same_currency x.currency d.currency ≡ true =
      ap (λ c. same_currency c d.currency) k.2 ∙ z in
    ground arith

nothing_found :
    (p : ExpenseLimit → Bool) (c : List ExpenseLimit)
    → is_some (first p c) ≡ false
    → All (λ x. p x ≡ false) c
unfolding first
nothing_found p [] h = tt
nothing_found p (x ∷ c) h = elim (Bool-cases (p x)) [
  | inl y ↦ absurd (found h y)
  | inr n ↦ (n, nothing_found p c (ground arith))
]
  where
    found : is_some (first p (x ∷ c)) ≡ false → p x ≡ true → ⊥
    found h y = ground arith

pub add_limit :
    (budget : BudgetContext) (c : List ExpenseLimit) (d : ExpenseLimit)
    → budget.space_id ≡ d.space_id
    → d.start_date ≤ d.end_date
    → is_some (first (overlap_filter budget d.category d.start_date d.end_date d.currency none) c)
      ≡ false
    → ¬ (In d.id (map (λ l. l.id) c))
    → IsLimitBook c
    → IsLimitBook (c ++ d ∷ [])
unfolding is_other
add_limit budget c d home le h new b = record {
  ids = Distinct-append (λ l. l.id) c d b.ids new;
  apart = Apart-append c d b.apart (
      All-map c (λ x n. free budget none d x home n refl)
        (nothing_found (overlap_filter budget d.category d.start_date d.end_date d.currency none) c
          h));
  periods = All-append (λ l. l.start_date ≤ l.end_date) c d b.periods le;
}

is_other-true : (id x : ObjectId) → x ≢ id → is_other (some id) x ≡ true
unfolding is_other
is_other-true id x ne = ground arith

pub change_limit :
    (budget : BudgetContext) (id : ObjectId) (c : List ExpenseLimit) (p : ExpenseLimit → Bool)
    (f : ExpenseLimit → ExpenseLimit) (l : ExpenseLimit)
    → first p c ≡ some l
    → l.id ≡ id
    → ((x : ExpenseLimit) → (f x).id ≡ x.id)
    → budget.space_id ≡ (f l).space_id
    → (f l).start_date ≤ (f l).end_date
    → is_some (
        first
          (overlap_filter budget
            (f l).category
            (f l).start_date
            (f l).end_date
            (f l).currency
            (some id))
          c)
      ≡ false
    → IsLimitBook c
    → IsLimitBook (change_first p f c)
change_limit budget id c p f l found mine same home le h b = record {
  ids = Distinct-change_first (λ x. x.id) p f c same b.ids;
  apart = Apart-change p f c l b.ids found b.apart (
      All-map c
        (λ x n ne.
          free budget (some id) (f l) x home n (is_other-true id x.id (λ q. ne (q ∙ sym mine))))
        (nothing_found
          (overlap_filter budget (f l).category (f l).start_date (f l).end_date (f l).currency
            (some id))
          c h));
  periods = All-change_first (λ x. x.id) p f c l b.ids found b.periods (λ x ne k. k) (λ k. le);
}

pub drop_limit :
    (p : ExpenseLimit → Bool) (c : List ExpenseLimit) → IsLimitBook c → IsLimitBook (drop_first p c)
drop_limit p c b = record {
  ids = Distinct-drop (λ l. l.id) p c b.ids;
  apart = Apart-drop p c b.apart;
  periods = All-drop (λ l. l.start_date ≤ l.end_date) p c b.periods;
}
