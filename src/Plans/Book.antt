-- ===== src/Plans/Book.antt =====
-- The ids of plans, and a plan that is found before and after it is changed.
use mathlib.Core.Path.{subst}
use babki_back.Prelude.{
  ℕ, ◌≡◌, refl, sym, Bool, true, false, some, List, [], ◌∷◌, arith, Bool-cases, inl, inr,
}
use babki_back.Mongo.{first, change_first}
use babki_back.Mongo.Lookup.{first_matches}
use babki_back.Schemas.{Plan}

abbrev pub plan_key : Plan → ℕ
plan_key p = p.id

true_not_false : (b : Bool) → b ≡ true → b ≡ false → ⊥
true_not_false b h k = cc

-- What is found first matches the filter, so it is not the head where the head does not.
clash :
    (q : Plan → Bool) (ps : List Plan) (e d : Plan)
    → q e ≡ false
    → e ≡ d
    → first q (e ∷ ps) ≡ some d
    → ⊥
clash q ps e d n same k =
    true_not_false (q e) (subst (λ x. q x ≡ true) (sym same) (first_matches q (e ∷ ps) d k)) n

-- A document that two filters find first is found by the one after it is changed by the other.
pub first-change_first :
    (p q : Plan → Bool) (f : Plan → Plan) (ps : List Plan) (d : Plan)
    → first p ps ≡ some d
    → first q ps ≡ some d
    → p (f d) ≡ true
    → first p (change_first q f ps) ≡ some (f d)
unfolding first change_first
first-change_first p q f [] d h k t = cc
first-change_first p q f (e ∷ ps) d h k t = elim (Bool-cases (q e)) [
  | inl y ↦ let same : e ≡ d = ground arith in rw (y, same, t) refl
  | inr n ↦ elim (Bool-cases (p e)) [
    | inl y' ↦ absurd (clash q ps e d n (ground arith) k)
    | inr n' ↦ rw (n, n') (first-change_first p q f ps d (ground arith) (ground arith) t)
  ]
]
