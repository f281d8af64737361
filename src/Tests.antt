-- ===== src/Tests.antt =====
-- A database driver and currency data to run the definitions with, and the examples.
mod Fixture
mod Machine
mod Debts
mod Ledger
mod Plans
mod Access
mod Changed
mod Spaces
mod Limits
mod Settings
mod Entries
use babki_back.Prelude.{
  ℕ, suc, ◌+◌, ◌≤◌, true, arith, refl, List, [], ◌∷◌, ◌++◌, In, inl, inr, ◌==◌, if◌then◌else◌,
}
use babki_back.Money.{Intl}
use babki_back.Mongo.{Mongo, first, matching, change_first, change_all, drop_first, drop_all}

-- One more than all ids of the collection.
abbrev fresh_id : List ℕ → ℕ
fresh_id [] = 1
fresh_id (a ∷ ids) = suc (a + fresh_id ids)

fresh_id_above : (ids : List ℕ) (a : ℕ) → In a ids → suc a ≤ fresh_id ids
fresh_id_above [] a h = absurd h
fresh_id_above (b ∷ ids) a (inl e) = omega arith
fresh_id_above (b ∷ ids) a (inr h) = omega (arith, fresh_id_above ids a h)

pub fresh_id_new : (ids : List ℕ) → ¬ (In (fresh_id ids) ids)
fresh_id_new ids h = omega (arith, fresh_id_above ids (fresh_id ids) h)

-- The driver on lists.
instance abbrev pub list_mongo : Mongo
list_mongo = record {
  find_one = first;
  find = matching;
  insert = λ d c. c ++ d ∷ [];
  update_one = change_first;
  update_many = change_all;
  delete_one = drop_first;
  delete_many = drop_all;
  object_id = fresh_id;
  find_one_law = λ p c. refl;
  find_law = λ p c. refl;
  insert_law = λ d c. refl;
  update_one_law = λ p f c. refl;
  update_many_law = λ p f c. refl;
  delete_one_law = λ p c. refl;
  delete_many_law = λ p c. refl;
  object_id_new = fresh_id_new;
}

pub digits_le : (c : ℕ) → (if c == 7 then 0 else 2) ≤ 4
digits_le c = ground arith

-- Every code is supported, and code 7 has no fraction digits, the others two.
instance abbrev pub small_intl : Intl
small_intl = record {
  supported = λ c. true;
  fraction_digits = λ c. if c == 7 then 0 else 2;
  digits_le_four = digits_le;
}
