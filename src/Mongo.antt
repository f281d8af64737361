-- ===== src/Mongo.antt =====
-- The database driver, which the program calls and does not implement. A collection is the list
-- of its documents in natural order. The operations are parameters; the laws state what the
-- driver documents of them, against the list functions of `Mongo.Documents`.
mod Documents
pub mod Lookup
pub mod Distinct
pub mod Writes
pub mod Gone
unfoldable pub use Documents.*
use babki_back.Prelude.{ℕ, ◌≡◌, Bool, Option, List, [], ◌∷◌, ◌++◌, In}

pub record Mongo : Type 1 where
  -- `findOne`, `exists`
  pub find_one : {D : Type 0} → (D → Bool) → List D → Option D
  -- `find`, and the `$match` stage of `aggregate`
  pub find : {D : Type 0} → (D → Bool) → List D → List D
  -- `create` of one document
  pub insert : {D : Type 0} → D → List D → List D
  -- `updateOne` and `findOneAndUpdate`, `updateMany`
  pub update_one : {D : Type 0} → (D → Bool) → (D → D) → List D → List D
  pub update_many : {D : Type 0} → (D → Bool) → (D → D) → List D → List D
  -- `deleteOne` and `findOneAndDelete`, `deleteMany`
  pub delete_one : {D : Type 0} → (D → Bool) → List D → List D
  pub delete_many : {D : Type 0} → (D → Bool) → List D → List D
  -- The `ObjectId` that a new document is given, beside the ids of its collection.
  pub object_id : List ℕ → ℕ
  pub find_one_law : {D : Type 0} (p : D → Bool) (c : List D) → find_one p c ≡ first p c
  pub find_law : {D : Type 0} (p : D → Bool) (c : List D) → find p c ≡ matching p c
  pub insert_law : {D : Type 0} (d : D) (c : List D) → insert d c ≡ c ++ d ∷ []
  pub update_one_law :
      {D : Type 0} (p : D → Bool) (f : D → D) (c : List D) → update_one p f c ≡ change_first p f c
  pub update_many_law :
      {D : Type 0} (p : D → Bool) (f : D → D) (c : List D) → update_many p f c ≡ change_all p f c
  pub delete_one_law : {D : Type 0} (p : D → Bool) (c : List D) → delete_one p c ≡ drop_first p c
  pub delete_many_law : {D : Type 0} (p : D → Bool) (c : List D) → delete_many p c ≡ drop_all p c
  pub object_id_new : (ids : List ℕ) → ¬ (In (object_id ids) ids)
