-- ===== src/Mongo/Documents.antt =====
-- List functions by which the laws of the driver are stated.
use babki_back.Prelude.{Bool, Option, none, some, List, [], ◌∷◌, if◌then◌else◌}

module _ {D : Type 0} where
  unfoldable pub first : (D → Bool) → List D → Option D
  first p [] = none
  first p (d ∷ c) = if p d then some d else first p c

  unfoldable pub matching : (D → Bool) → List D → List D
  matching p [] = []
  matching p (d ∷ c) = let rest = matching p c in if p d then d ∷ rest else rest

  unfoldable pub change_first : (D → Bool) → (D → D) → List D → List D
  change_first p f [] = []
  change_first p f (d ∷ c) = if p d then f d ∷ c else d ∷ change_first p f c

  unfoldable pub change_all : (D → Bool) → (D → D) → List D → List D
  change_all p f [] = []
  change_all p f (d ∷ c) = (if p d then f d else d) ∷ change_all p f c

  unfoldable pub drop_first : (D → Bool) → List D → List D
  drop_first p [] = []
  drop_first p (d ∷ c) = if p d then c else d ∷ drop_first p c

  unfoldable pub drop_all : (D → Bool) → List D → List D
  drop_all p [] = []
  drop_all p (d ∷ c) = let rest = drop_all p c in if p d then rest else d ∷ rest
