-- ===== src/Session.antt =====
-- Work in a database session: reads and writes of the collections, and exceptions. What an
-- aborted transaction wrote is discarded, so an exception carries no state.
pub mod Inversion
use mathlib.Core.Option
use babki_back.Prelude.{ℕ, Bool, Option, none, some, List, map, is_some, true, false}
use babki_back.Http.{Exception, Result, ok, err}
use babki_back.Mongo.{Mongo}
use babki_back.Schemas.{Db, ObjectId}
use babki_back.Tables.{Table}

abbrev pub Action {ℓ} : Type ℓ → Type ℓ
Action A = Db → Result (A × Db)

abbrev pub pure {ℓ} : {A : Type ℓ} → A → Action A
pure a db = ok (a, db)

abbrev pub raise {ℓ} : {A : Type ℓ} → Exception → Action A
raise e db = err e

infixl 5 ◌>>=◌ ◌>>◌
abbrev pub ◌>>=◌ {ℓ κ} : {A : Type ℓ} {B : Type κ} → Action A → (A → Action B) → Action B
◌>>=◌ m f db = elim (m db) [ ok (a, db') ↦ f a db' | err e ↦ err e ]

abbrev pub ◌>>◌ {ℓ κ} : {A : Type ℓ} {B : Type κ} → Action A → Action B → Action B
m >> k = m >>= λ _. k

abbrev pub raise_if : Bool → Exception → Action (Unit {0})
raise_if true e db = err e
raise_if false e db = ok (tt, db)

abbrev pub or_raise {ℓ} : {A : Type ℓ} → Option A → Exception → Action A
or_raise none e db = err e
or_raise (some a) e db = ok (a, db)

module _ ⦃m : Mongo⦄ {D : Type 0} where
  abbrev pub find_one : Table D → (D → Bool) → Action (Option D)
  find_one t p db = ok (m.find_one p (t.rows db), db)

  abbrev pub exists : Table D → (D → Bool) → Action Bool
  exists t p db = ok (is_some (m.find_one p (t.rows db)), db)

  abbrev pub find : Table D → (D → Bool) → Action (List D)
  find t p db = ok (m.find p (t.rows db), db)

  -- `create`, of the document that is made with its new id.
  abbrev pub create : Table D → (D → ObjectId) → (ObjectId → D) → Action D
  create t id make db =
      let d = make (m.object_id (map id (t.rows db))) in ok (d, t.put (m.insert d (t.rows db)) db)

  -- `updateOne`, with its `matchedCount`.
  abbrev pub update_one : Table D → (D → Bool) → (D → D) → Action Bool
  update_one t p f db =
      ok (is_some (m.find_one p (t.rows db)), t.put (m.update_one p f (t.rows db)) db)

  -- `findOneAndUpdate` with `returnDocument: 'after'`.
  abbrev pub find_one_and_update : Table D → (D → Bool) → (D → D) → Action (Option D)
  find_one_and_update t p f db =
      ok (Option.map f (m.find_one p (t.rows db)), t.put (m.update_one p f (t.rows db)) db)

  abbrev pub update_many : Table D → (D → Bool) → (D → D) → Action (Unit {0})
  update_many t p f db = ok (tt, t.put (m.update_many p f (t.rows db)) db)

  -- `findOneAndDelete`, and `deleteOne` with its `deletedCount`.
  abbrev pub find_one_and_delete : Table D → (D → Bool) → Action Bool
  find_one_and_delete t p db =
      ok (is_some (m.find_one p (t.rows db)), t.put (m.delete_one p (t.rows db)) db)

  abbrev pub delete_many : Table D → (D → Bool) → Action (Unit {0})
  delete_many t p db = ok (tt, t.put (m.delete_many p (t.rows db)) db)
