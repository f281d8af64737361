-- ===== src/Mongo/Distinct.antt =====
-- Collections whose documents have distinct ids.
use babki_back.Prelude.{
  ℕ, ◌≡◌, ◌≢◌, true, false, none, some, refl, sym, ap, ◌∙◌, Bool, some, List, [], ◌∷◌, ◌++◌, arith,
  All, In, inl, inr, Bool-cases, map,
}
use mathlib.Core.Path.{subst}
use babki_back.Mongo.{first, change_first, drop_first}
use babki_back.Mongo.Lookup.{first-In}

module _ {D : Type 0} (key : D → ℕ) where
  abbrev pub Differs : D → D → Type 0
  Differs d e = key e ≢ key d

  -- No two documents have the same key.
  abbrev pub Distinct : List D → Type 0
  Distinct [] = Unit
  Distinct (d ∷ c) = All (Differs d) c × Distinct c

module _ {D : Type 0} where
  pub All-In : (P : D → Type 0) (c : List D) (d : D) → All P c → In d c → P d
  All-In P [] d a h = absurd h
  All-In P (e ∷ c) d a (inl q) = subst P (sym q) a.0
  All-In P (e ∷ c) d a (inr h) = All-In P c d a.1 h

  pub All-map : {P Q : D → Type 0} (c : List D) → ((d : D) → P d → Q d) → All P c → All Q c
  All-map [] f a = tt
  All-map (d ∷ c) f a = (f d a.0, All-map c f a.1)

  pub All-append : (P : D → Type 0) (c : List D) (d : D) → All P c → P d → All P (c ++ d ∷ [])
  All-append P [] d a p = (p, tt)
  All-append P (e ∷ c) d a p = (a.0, All-append P c d a.1 p)

  pub All-drop : (P : D → Type 0) (p : D → Bool) (c : List D) → All P c → All P (drop_first p c)
  unfolding drop_first
  All-drop P p [] a = tt
  All-drop P p (d ∷ c) a = elim (Bool-cases (p d)) [
    | inl y ↦ rw y a.1
    | inr n ↦ rw n (a.0, All-drop P p c a.1)
  ]

  All-both :
      {P Q R : D → Type 0} (c : List D) → All R c → All P c → ((d : D) → R d → P d → Q d) → All Q c
  All-both [] r a f = tt
  All-both (d ∷ c) r a f = (f d r.0 a.0, All-both c r.1 a.1 f)

  All-changed :
      (key : D → ℕ) (p : D → Bool) (f : D → D) (c : List D) (d : D)
      → ((e : D) → key (f e) ≡ key e)
      → All (Differs key d) c
      → All (Differs key d) (change_first p f c)
  unfolding change_first
  All-changed key p f [] d same a = tt
  All-changed key p f (e ∷ c) d same a = elim (Bool-cases (p e)) [
    | inl y ↦ rw y (λ q. a.0 (sym (same e) ∙ q), a.1)
    | inr n ↦ rw n (a.0, All-changed key p f c d same a.1)
  ]

  -- The first match is changed, which has another key than every other document.
  pub All-change_first :
      (key : D → ℕ) {P Q : D → Type 0} (p : D → Bool) (f : D → D) (c : List D) (d : D)
      → Distinct key c
      → first p c ≡ some d
      → All P c
      → ((e : D) → key e ≢ key d → P e → Q e)
      → (P d → Q (f d))
      → All Q (change_first p f c)
  unfolding first change_first
  All-change_first key p f [] d u h a other here = tt
  All-change_first key {P} {Q} p f (e ∷ c) d u h a other here = elim (Bool-cases (p e)) [
    | inl y ↦
        let same : e ≡ d = ground arith in
        rw y (
          subst (λ x. Q (f x)) (sym same) (here (subst P same a.0)),
          All-both c u.0 a.1 (λ x ne px. other x (λ q. ne (q ∙ sym (ap key same))) px),
        )
    | inr n ↦
        let later : first p c ≡ some d = ground arith in
        rw n (
          other e (λ q. All-In (Differs key e) c d u.0 (first-In p c d later) (sym q)) a.0,
          All-change_first key p f c d u.1 later a.1 other here,
        )
  ]

  pub Distinct-change_first :
      (key : D → ℕ) (p : D → Bool) (f : D → D) (c : List D)
      → ((d : D) → key (f d) ≡ key d)
      → Distinct key c
      → Distinct key (change_first p f c)
  unfolding change_first
  Distinct-change_first key p f [] same u = tt
  Distinct-change_first key p f (e ∷ c) same u = elim (Bool-cases (p e)) [
    | inl y ↦ rw y (All-map c (λ x ne q. ne (q ∙ same e)) u.0, u.1)
    | inr n ↦ rw n (All-changed key p f c e same u.0, Distinct-change_first key p f c same u.1)
  ]

  pub Distinct-append :
      (key : D → ℕ) (c : List D) (d : D)
      → Distinct key c
      → ¬ (In (key d) (map key c))
      → Distinct key (c ++ d ∷ [])
  Distinct-append key [] d u new = (tt, tt)
  Distinct-append key (e ∷ c) d u new = (
    All-append (Differs key e) c d u.0 (λ q. new (inl q)),
    Distinct-append key c d u.1 (λ h. new (inr h)),
  )

  pub Distinct-drop :
      (key : D → ℕ) (p : D → Bool) (c : List D) → Distinct key c → Distinct key (drop_first p c)
  unfolding drop_first
  Distinct-drop key p [] u = tt
  Distinct-drop key p (d ∷ c) u = elim (Bool-cases (p d)) [
    | inl y ↦ rw y u.1
    | inr n ↦ rw n (All-drop (Differs key d) p c u.0, Distinct-drop key p c u.1)
  ]

  pub Distinct-In :
      (key : D → ℕ) (c : List D) (d e : D)
      → Distinct key c
      → In d c
      → In e c
      → key d ≡ key e
      → d ≡ e
  Distinct-In key [] d e u h k q = absurd h
  Distinct-In key (x ∷ c) d e u (inl h) (inl k) q = h ∙ sym k
  Distinct-In key (x ∷ c) d e u (inl h) (inr k) q =
      absurd (All-In (Differs key x) c e u.0 k (sym q ∙ ap key h))
  Distinct-In key (x ∷ c) d e u (inr h) (inl k) q =
      absurd (All-In (Differs key x) c d u.0 h (q ∙ ap key k))
  Distinct-In key (x ∷ c) d e u (inr h) (inr k) q = Distinct-In key c d e u.1 h k q

  -- Ids of a collection stay when documents change and keep their ids.
  pub map-key-change_first :
      (key : D → ℕ) (p : D → Bool) (f : D → D) (c : List D)
      → ((d : D) → key (f d) ≡ key d)
      → map key (change_first p f c) ≡ map key c
  unfolding change_first
  map-key-change_first key p f [] same = refl
  map-key-change_first key p f (e ∷ c) same = elim (Bool-cases (p e)) [
    | inl y ↦ rw y (ap (λ k. k ∷ map key c) (same e))
    | inr n ↦ rw n (ap (λ ks. key e ∷ ks) (map-key-change_first key p f c same))
  ]

  -- A filter that matches by id finds the document that has it.
  pub first_by_key :
      (key : D → ℕ) (p : D → Bool) (c : List D) (d : D)
      → Distinct key c
      → In d c
      → p d ≡ true
      → ((x : D) → p x ≡ true → key x ≡ key d)
      → first p c ≡ some d
  unfolding first
  first_by_key key p [] d u h t same = absurd h
  first_by_key key p (e ∷ c) d u (inl q) t same = rw (subst (λ x. p x ≡ true) q t) (ap some (sym q))
  first_by_key key p (e ∷ c) d u (inr h) t same = elim (Bool-cases (p e)) [
    | inl y ↦ absurd (All-In (Differs key e) c d u.0 h (sym (same e y)))
    | inr n ↦ rw n (first_by_key key p c d u.1 h t same)
  ]

  none_match : (p : D → Bool) (c : List D) → All (λ x. p x ≡ false) c → first p c ≡ none
  unfolding first
  none_match p [] a = refl
  none_match p (x ∷ c) a = rw a.0 (none_match p c a.1)

  -- A document that no longer matches after its change is not found again, where matching
  -- documents share their key.
  pub first-change_first-none :
      (key : D → ℕ) (p : D → Bool) (f : D → D) (c : List D) (d : D)
      → Distinct key c
      → first p c ≡ some d
      → p (f d) ≡ false
      → ((x : D) → p x ≡ true → key x ≡ key d)
      → first p (change_first p f c) ≡ none
  unfolding first change_first
  first-change_first-none key p f [] d u h t same = refl
  first-change_first-none key p f (e ∷ c) d u h t same = elim (Bool-cases (p e)) [
    | inl y ↦
        let here : e ≡ d = ground arith in
        rw y (
          rw (subst (λ x. p (f x) ≡ false) (sym here) t) (
            none_match p c (All-map c (λ x ne. other x (λ q. ne (same x q ∙ sym (same e y)))) u.0)))
    | inr n ↦
        let later : first p c ≡ some d = ground arith in
        rw n (rw n (first-change_first-none key p f c d u.1 later t same))
  ]
    where
      other : (x : D) → ¬ (p x ≡ true) → p x ≡ false
      other x n = elim (Bool-cases (p x)) [ inl y ↦ absurd (n y) | inr k ↦ k ]

  -- The first match stands in the collection with its change.
  pub In-change_first :
      (p : D → Bool) (f : D → D) (c : List D) (d : D)
      → first p c ≡ some d
      → In (f d) (change_first p f c)
  unfolding first change_first
  In-change_first p f [] d h = cc
  In-change_first p f (e ∷ c) d h = elim (Bool-cases (p e)) [
    | inl y ↦ let here : e ≡ d = ground arith in rw y (inl (ap f (sym here)))
    | inr n ↦
        let later : first p c ≡ some d = ground arith in rw n (inr (In-change_first p f c d later))
  ]
