-- ===== src/Mongo/Gone.antt =====
-- What deletions leave behind: nothing that matches.
use mathlib.Core.Path.{subst}
use babki_back.Prelude.{
  ◌≡◌, sym, ap, ◌∙◌, Bool, true, false, some, is_some, List, [], ◌∷◌, In, inl, inr, Bool-cases, map,
  arith,
}
use babki_back.Mongo.{first, drop_first, drop_all}
use babki_back.Mongo.Writes.{Finds, some_of_Finds, Unique, In-map, match_of}

module _ {D : Type 0} (p : D → Bool) where
  pub nothing_found : (c : List D) → is_some (first p c) ≡ false → ¬ (Finds p c)
  nothing_found c h k = let (d, found) = some_of_Finds p c k in clash found
    where
      clash : {d : D} → first p c ≡ some d → ⊥
      clash e = let q = sym (ap is_some e) ∙ h in cc

  pub drop_all_gone : (c : List D) → ¬ (Finds p (drop_all p c))
  unfolding drop_all
  drop_all_gone [] h = h
  drop_all_gone (d ∷ c) h = elim (Bool-cases (p d)) [
    | inl y ↦ drop_all_gone c (subst (Finds p) (dropped y) h)
    | inr n ↦ elim (subst (Finds p) (stays n) h) as (λ x. ⊥) [
      | inl y ↦ cc
      | inr later ↦ drop_all_gone c later
    ]
  ]
    where
      dropped : p d ≡ true → drop_all p (d ∷ c) ≡ drop_all p c
      dropped y = ground arith

      stays : p d ≡ false → drop_all p (d ∷ c) ≡ d ∷ drop_all p c
      stays n = ground arith

  -- The only document of its key is deleted.
  pub drop_first_gone :
      {K : Type 0} (key : D → K) (k : K) (c : List D)
      → Unique (map key c)
      → ((d : D) → p d ≡ true → key d ≡ k)
      → ¬ (Finds p (drop_first p c))
  unfolding drop_first
  drop_first_gone key k [] u keyed h = h
  drop_first_gone key k (d ∷ c) u keyed h = elim (Bool-cases (p d)) [
    | inl y ↦
        let (e, i, z) = match_of p c (subst (Finds p) (dropped y) h) in
        u.0 (subst (λ x. In x (map key c)) (keyed e z ∙ sym (keyed d y)) (In-map key c e i))
    | inr n ↦ elim (subst (Finds p) (stays n) h) as (λ x. ⊥) [
      | inl y ↦ cc
      | inr later ↦ drop_first_gone key k c u.1 keyed later
    ]
  ]
    where
      dropped : p d ≡ true → drop_first p (d ∷ c) ≡ c
      dropped y = ground arith

      stays : p d ≡ false → drop_first p (d ∷ c) ≡ d ∷ drop_first p c
      stays n = ground arith
