-- ===== src/Mongo/Lookup.antt =====
-- Lookups after writes, over the list functions of the driver's laws.
use babki_back.Prelude.{
  ◌≡◌, ap, ◌∙◌, ◌⊎◌, refl, Bool, true, false, none, some, List, [], ◌∷◌, ◌++◌, arith, In, inl, inr,
  Bool-cases,
}
use babki_back.Mongo.Documents.{first, change_first}

module _ {D : Type 0} where
  -- What is found matches, and stands in the collection.
  pub first_matches : (p : D → Bool) (c : List D) (d : D) → first p c ≡ some d → p d ≡ true
  unfolding first
  first_matches p [] d e = cc
  first_matches p (x ∷ c) d e = ground (arith, first_matches p c d)

  pub first-In : (p : D → Bool) (c : List D) (d : D) → first p c ≡ some d → In d c
  unfolding first
  first-In p [] d e = cc
  first-In p (x ∷ c) d e = ground (arith, first-In p c d)

  -- The document that was changed is found, when it matches now and no document before it did.
  pub first-change_first :
      (p q : D → Bool) (f : D → D) (c : List D) (d : D)
      → ((e : D) → p e ≡ true → q e ≡ true)
      → p (f d) ≡ true
      → first q c ≡ some d
      → first p (change_first q f c) ≡ some (f d)
  unfolding first change_first
  first-change_first p q f [] d sub t h = cc
  first-change_first p q f (x ∷ c) d sub t h = elim (Bool-cases (q x)) [
    | inl y ↦ let same : x ≡ d = ground arith in rw y (rw same (rw t refl))
    | inr n ↦
        let later : first q c ≡ some d = ground arith in
        rw n (rw (not_here x n) (first-change_first p q f c d sub t later))
  ]
    where
      not_here : (e : D) → q e ≡ false → p e ≡ false
      not_here e n = elim (Bool-cases (p e)) [ inl y ↦ let z = sub e y in cc | inr k ↦ k ]

  pub first-append_new :
      (p : D → Bool) (c : List D) (d : D)
      → first p c ≡ none
      → p d ≡ true
      → first p (c ++ d ∷ []) ≡ some d
  unfolding first
  first-append_new p [] d h t = rw t refl
  first-append_new p (x ∷ c) d h t = elim (Bool-cases (p x)) [
    | inl y ↦ let z : first p (x ∷ c) ≡ some x = rw y refl in cc
    | inr n ↦ let later : first p c ≡ none = ground arith in rw n (first-append_new p c d later t)
  ]

  -- A narrower filter finds nothing where a wider one finds nothing.
  pub first-none_narrow :
      (p q : D → Bool) (c : List D)
      → ((e : D) → p e ≡ true → q e ≡ true)
      → first q c ≡ none
      → first p c ≡ none
  unfolding first
  first-none_narrow p q [] sub h = refl
  first-none_narrow p q (x ∷ c) sub h = elim (Bool-cases (p x)) [
    | inl y ↦ let z : first q (x ∷ c) ≡ some x = rw (sub x y) refl in cc
    | inr n ↦ elim (Bool-cases (q x)) [
      | inl y ↦ let z : first q (x ∷ c) ≡ some x = rw y refl in cc
      | inr k ↦
          let later : first q c ≡ none = ground arith in rw n (first-none_narrow p q c sub later)
    ]
  ]

  -- What a filter finds stays found, perhaps changed.
  pub first_after :
      (p q : D → Bool) (f : D → D) (c : List D) (d : D)
      → ((e : D) → p (f e) ≡ p e)
      → first p c ≡ some d
      → (first p (change_first q f c) ≡ some d) ⊎ (first p (change_first q f c) ≡ some (f d))
  unfolding first change_first
  first_after p q f [] d same h = cc
  first_after p q f (x ∷ c) d same h = elim (Bool-cases (q x)) [
    | inl y ↦ elim (Bool-cases (p x)) [
      | inl z ↦
          let is_d : x ≡ d = ground arith in rw y (inr (rw (same x ∙ z) (ap some (ap f is_d))))
      | inr z ↦ let later : first p c ≡ some d = ground arith in rw y (inl (rw (same x ∙ z) later))
    ]
    | inr n ↦ elim (Bool-cases (p x)) [
      | inl z ↦ let is_d : x ≡ d = ground arith in rw n (inl (rw z (ap some is_d)))
      | inr z ↦
          let later : first p c ≡ some d = ground arith in
          rw n (rw z (first_after p q f c d same later))
    ]
  ]

  -- What is found after a change was found before it.
  pub first_before :
      (p : D → Bool) (f : D → D) (c : List D) (a : D)
      → ((e : D) → p (f e) ≡ p e)
      → first p (change_first p f c) ≡ some a
      → (x : D) × (first p c ≡ some x) × (f x ≡ a)
  unfolding first change_first
  first_before p f [] a same h = cc
  first_before p f (x ∷ c) a same h = elim (Bool-cases (p x)) [
    | inl y ↦ (x, rw y refl, here y)
    | inr n ↦
        let later : first p (change_first p f c) ≡ some a = ground arith in
        let (e, found, q) = first_before p f c a same later in (e, rw n found, q)
  ]
    where
      here : p x ≡ true → f x ≡ a
      here y = let z = same x ∙ y in ground arith
