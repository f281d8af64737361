-- ===== src/Mongo/Writes.antt =====
-- What writes keep: that a filter still finds a document, and that every document still has a
-- property.
use mathlib.Core.Path.{subst}
use babki_back.Prelude.{
  ℕ, ◌≡◌, ◌⊎◌, true, false, sym, refl, ap, ◌∙◌, Bool, none, some, is_some, List, [], ◌∷◌, ◌++◌,
  arith, All, In, inl, inr, Bool-cases, map,
}
use babki_back.Mongo.Distinct.{Differs, Distinct}
use babki_back.Mongo.Lookup.{first-In}
use babki_back.Mongo.{first, change_first, change_all}

module _ {D : Type 0} where
  -- A document matches the filter.
  abbrev pub Finds : (D → Bool) → List D → Type 0
  Finds p [] = ⊥
  Finds p (d ∷ c) = (p d ≡ true) ⊎ Finds p c

  pub Finds-of_some : (p : D → Bool) (c : List D) → is_some (first p c) ≡ true → Finds p c
  unfolding first
  Finds-of_some p [] h = cc
  Finds-of_some p (d ∷ c) h = elim (Bool-cases (p d)) [
    | inl y ↦ inl y
    | inr n ↦ inr (Finds-of_some p c (ground arith))
  ]

  pub some_of_Finds : (p : D → Bool) (c : List D) → Finds p c → (d : D) × (first p c ≡ some d)
  unfolding first
  some_of_Finds p [] h = absurd h
  some_of_Finds p (d ∷ c) (inl y) = (d, rw y refl)
  some_of_Finds p (d ∷ c) (inr h) = elim (Bool-cases (p d)) [
    | inl y ↦ (d, rw y refl)
    | inr n ↦ rw n (some_of_Finds p c h)
  ]

  pub none_of_no_Finds : (p : D → Bool) (c : List D) → ¬ (Finds p c) → first p c ≡ none
  unfolding first
  none_of_no_Finds p [] h = refl
  none_of_no_Finds p (d ∷ c) h = elim (Bool-cases (p d)) [
    | inl y ↦ absurd (h (inl y))
    | inr n ↦ rw n (none_of_no_Finds p c (λ k. h (inr k)))
  ]

  pub Finds-In : (p : D → Bool) (c : List D) (d : D) → In d c → p d ≡ true → Finds p c
  Finds-In p [] d h y = absurd h
  Finds-In p (e ∷ c) d (inl q) y = inl (subst (λ x. p x ≡ true) q y)
  Finds-In p (e ∷ c) d (inr h) y = inr (Finds-In p c d h y)

  pub Finds-change_first :
      (p q : D → Bool) (f : D → D) (c : List D)
      → ((d : D) → In d c → q d ≡ true → p d ≡ true → p (f d) ≡ true)
      → Finds p c
      → Finds p (change_first q f c)
  unfolding change_first
  Finds-change_first p q f [] keeps h = absurd h
  Finds-change_first p q f (d ∷ c) keeps h = elim (Bool-cases (q d)) [
    | inl y ↦ rw y (elim h as (λ x. (p (f d) ≡ true) ⊎ Finds p c) [
      | inl here ↦ inl (keeps d (inl refl) y here)
      | inr later ↦ inr later
    ])
    | inr n ↦ rw n (elim h as (λ x. (p d ≡ true) ⊎ Finds p (change_first q f c)) [
      | inl here ↦ inl here
      | inr later ↦ inr (Finds-change_first p q f c (λ x i. keeps x (inr i)) later)
    ])
  ]

  pub Finds-change_all :
      (p q : D → Bool) (f : D → D) (c : List D)
      → ((d : D) → In d c → q d ≡ true → p d ≡ true → p (f d) ≡ true)
      → Finds p c
      → Finds p (change_all q f c)
  unfolding change_all
  Finds-change_all p q f [] keeps h = absurd h
  Finds-change_all p q f (d ∷ c) keeps (inr later) =
      inr (Finds-change_all p q f c (λ x i. keeps x (inr i)) later)
  Finds-change_all p q f (d ∷ c) keeps (inl here) = elim (Bool-cases (q d)) [
    | inl y ↦ rw y (inl (keeps d (inl refl) y here))
    | inr n ↦ rw n (inl here)
  ]

  pub Finds-append : (p : D → Bool) (c : List D) (d : D) → Finds p c → Finds p (c ++ d ∷ [])
  Finds-append p [] d h = absurd h
  Finds-append p (e ∷ c) d (inl h) = inl h
  Finds-append p (e ∷ c) d (inr h) = inr (Finds-append p c d h)

  pub Finds-append_new : (p : D → Bool) (c : List D) (d : D) → p d ≡ true → Finds p (c ++ d ∷ [])
  Finds-append_new p [] d h = inl h
  Finds-append_new p (e ∷ c) d h = inr (Finds-append_new p c d h)

  pub All-map-In :
      {P Q : D → Type 0} (c : List D) → ((d : D) → In d c → P d → Q d) → All P c → All Q c
  All-map-In [] f a = tt
  All-map-In (d ∷ c) f a = (f d (inl refl) a.0, All-map-In c (λ x i. f x (inr i)) a.1)

  -- Every document keeps its property, those that are changed by what the change does.
  pub All-change :
      {P Q : D → Type 0} (p : D → Bool) (f : D → D) (c : List D)
      → ((d : D) → In d c → p d ≡ true → P d → Q (f d))
      → ((d : D) → In d c → P d → Q d)
      → All P c
      → All Q (change_first p f c)
  unfolding change_first
  All-change p f [] changed kept a = tt
  All-change p f (d ∷ c) changed kept a = elim (Bool-cases (p d)) [
    | inl y ↦ rw y (changed d (inl refl) y a.0, All-map-In c (λ x i. kept x (inr i)) a.1)
    | inr n ↦ rw n (
      kept d (inl refl) a.0,
      All-change p f c (λ x i. changed x (inr i)) (λ x i. kept x (inr i)) a.1,
    )
  ]

  pub All-change_all :
      {P Q : D → Type 0} (p : D → Bool) (f : D → D) (c : List D)
      → ((d : D) → In d c → p d ≡ true → P d → Q (f d))
      → ((d : D) → In d c → p d ≡ false → P d → Q d)
      → All P c
      → All Q (change_all p f c)
  unfolding change_all
  All-change_all p f [] changed kept a = tt
  All-change_all {P} {Q} p f (d ∷ c) changed kept a = (
    elim (Bool-cases (p d)) [
      | inl y ↦ rw y (changed d (inl refl) y a.0)
      | inr n ↦ rw n (kept d (inl refl) n a.0)
    ],
    All-change_all p f c (λ x i. changed x (inr i)) (λ x i. kept x (inr i)) a.1,
  )

  -- A key that a change keeps is the same everywhere.
  pub map-change_first :
      {K : Type 0} (key : D → K) (p : D → Bool) (f : D → D) (c : List D)
      → ((d : D) → key (f d) ≡ key d)
      → map key (change_first p f c) ≡ map key c
  unfolding change_first
  map-change_first key p f [] same = refl
  map-change_first key p f (e ∷ c) same = elim (Bool-cases (p e)) [
    | inl y ↦ rw y (ap (λ k. k ∷ map key c) (same e))
    | inr n ↦ rw n (ap (λ ks. key e ∷ ks) (map-change_first key p f c same))
  ]

  pub map-change_all :
      {K : Type 0} (key : D → K) (p : D → Bool) (f : D → D) (c : List D)
      → ((d : D) → key (f d) ≡ key d)
      → map key (change_all p f c) ≡ map key c
  unfolding change_all
  map-change_all key p f [] same = refl
  map-change_all key p f (e ∷ c) same = elim (Bool-cases (p e)) [
    | inl y ↦ rw y (rw (same e) (ap (λ ks. key e ∷ ks) (map-change_all key p f c same)))
    | inr n ↦ rw n (ap (λ ks. key e ∷ ks) (map-change_all key p f c same))
  ]

  pub In-map : {K : Type 0} (key : D → K) (c : List D) (d : D) → In d c → In (key d) (map key c)
  In-map key [] d h = absurd h
  In-map key (e ∷ c) d (inl q) = inl (ap key q)
  In-map key (e ∷ c) d (inr h) = inr (In-map key c d h)

  pub In-map_inv :
      {K : Type 0} (key : D → K) (c : List D) (k : K)
      → In k (map key c)
      → (d : D) × In d c × (key d ≡ k)
  In-map_inv key [] k h = absurd h
  In-map_inv key (e ∷ c) k (inl q) = (e, inl refl, sym q)
  In-map_inv key (e ∷ c) k (inr h) = let (d, i, q) = In-map_inv key c k h in (d, inr i, q)

-- No element occurs twice.
abbrev pub Unique : {K : Type 0} → List K → Type 0
Unique [] = Unit
Unique (k ∷ ks) = ¬ (In k ks) × Unique ks

In-append : {K : Type 0} (ks : List K) (j k : K) → In j (ks ++ k ∷ []) → In j ks ⊎ (j ≡ k)
In-append [] j k (inl q) = inr q
In-append [] j k (inr h) = absurd h
In-append (a ∷ ks) j k (inl q) = inl (inl q)
In-append (a ∷ ks) j k (inr h) = elim (In-append ks j k h) [ inl i ↦ inl (inr i) | inr q ↦ inr q ]

pub Unique-append :
    {K : Type 0} (ks : List K) (k : K) → Unique ks → ¬ (In k ks) → Unique (ks ++ k ∷ [])
Unique-append [] k u new = (λ h. h, tt)
Unique-append (a ∷ ks) k u new = (
  λ h. elim (In-append ks a k h) [ inl i ↦ u.0 i | inr q ↦ new (inl (sym q)) ],
  Unique-append ks k u.1 (λ h. new (inr h)),
)

module _ {D : Type 0} {K : Type 0} where
  pub map-append :
      (key : D → K) (c : List D) (d : D) → map key (c ++ d ∷ []) ≡ map key c ++ key d ∷ []
  map-append key [] d = refl
  map-append key (e ∷ c) d = ap (λ ks. key e ∷ ks) (map-append key c d)

  -- Documents of one key are one document.
  pub Unique-In :
      (key : D → K) (c : List D) (d e : D)
      → Unique (map key c)
      → In d c
      → In e c
      → key d ≡ key e
      → d ≡ e
  Unique-In key [] d e u h k q = absurd h
  Unique-In key (x ∷ c) d e u (inl h) (inl k) q = h ∙ sym k
  Unique-In key (x ∷ c) d e u (inl h) (inr k) q =
      absurd (u.0 (subst (λ z. In z (map key c)) (sym q ∙ ap key h) (In-map key c e k)))
  Unique-In key (x ∷ c) d e u (inr h) (inl k) q =
      absurd (u.0 (subst (λ z. In z (map key c)) (q ∙ ap key k) (In-map key c d h)))
  Unique-In key (x ∷ c) d e u (inr h) (inr k) q = Unique-In key c d e u.1 h k q

differ :
    {D : Type 0} (key : D → ℕ) (c : List D) (d : D)
    → ¬ (In (key d) (map key c))
    → All (Differs key d) c
differ key [] d h = tt
differ key (e ∷ c) d h = (λ q. h (inl (sym q)), differ key c d (λ i. h (inr i)))

pub Distinct-of_Unique :
    {D : Type 0} (key : D → ℕ) (c : List D) → Unique (map key c) → Distinct key c
Distinct-of_Unique key [] u = tt
Distinct-of_Unique key (d ∷ c) u = (differ key c d u.0, Distinct-of_Unique key c u.1)

pub match_of :
    {D : Type 0} (p : D → Bool) (c : List D) → Finds p c → (d : D) × In d c × (p d ≡ true)
match_of p [] h = absurd h
match_of p (d ∷ c) (inl y) = (d, inl refl, y)
match_of p (d ∷ c) (inr h) = let (e, i, y) = match_of p c h in (e, inr i, y)

changed_here :
    {D : Type 0} (p : D → Bool) (f : D → D) (d : D) (c : List D)
    → p d ≡ true
    → change_first p f (d ∷ c) ≡ f d ∷ c
unfolding change_first
changed_here p f d c h = rw h refl

changed_later :
    {D : Type 0} (p : D → Bool) (f : D → D) (d : D) (c : List D)
    → p d ≡ false
    → change_first p f (d ∷ c) ≡ d ∷ change_first p f c
unfolding change_first
changed_later p f d c h = rw h refl

-- When the only document of its key that matches is changed and does not match any more, none does.
pub no_more :
    {D : Type 0} {K : Type 0} (key : D → K) (k : K) (p : D → Bool) (f : D → D) (c : List D)
    → Unique (map key c)
    → ((d : D) → p d ≡ true → key d ≡ k)
    → ((d : D) → p (f d) ≡ false)
    → ¬ (Finds p (change_first p f c))
unfolding change_first
no_more key k p f [] u keyed gone h = h
no_more key k p f (d ∷ c) u keyed gone h = elim (Bool-cases (p d)) [
  | inl y ↦
      let now : Finds p (f d ∷ c) = subst (Finds p) (changed_here p f d c y) h in
      elim now [
        | inl t ↦ let n = gone d in cc
        | inr later ↦
            let (e, i, t) = match_of p c later in
            u.0 (subst (λ z. In z (map key c)) (keyed e t ∙ sym (keyed d y)) (In-map key c e i))
      ]
  | inr n ↦
      let now : Finds p (d ∷ change_first p f c) = subst (Finds p) (changed_later p f d c n) h in
      elim now [ inl t ↦ cc | inr later ↦ no_more key k p f c u.1 keyed gone later ]
]

-- The document that a filter finds is changed by its key, and found again.
pub first_changed :
    {D : Type 0} (key : D → ℕ) (p q : D → Bool) (f : D → D) (c : List D) (d : D)
    → Unique (map key c)
    → ((e : D) → p (f e) ≡ p e)
    → ((e : D) → q e ≡ true → key e ≡ key d)
    → q d ≡ true
    → first p c ≡ some d
    → first p (change_first q f c) ≡ some (f d)
unfolding first change_first
first_changed key p q f [] d u same keyed t h = cc
first_changed key p q f (x ∷ c) d u same keyed t h = elim (Bool-cases (p x)) [
  | inl z ↦
      let is_d : x ≡ d = ground arith in
      let hit : q x ≡ true = ap q is_d ∙ t in rw hit (rw (same x ∙ z) (ap some (ap f is_d)))
  | inr z ↦
      let later : first p c ≡ some d = ground arith in
      elim (Bool-cases (q x)) [
        | inl y ↦ absurd (
            u.0 (
              subst (λ k. In k (map key c)) (sym (keyed x y))
                (In-map key c d (first-In p c d later))))
        | inr n ↦ rw n (rw z (first_changed key p q f c d u.1 same keyed t later))
      ]
]
