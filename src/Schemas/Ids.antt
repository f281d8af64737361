-- ===== src/Schemas/Ids.antt =====
-- Identifiers and texts, which all documents use.
use Prim.Native.String.{String}
use babki_back.Prelude.{ℕ}

-- An `ObjectId`. Ids are only compared.
abbrev pub ObjectId : Type 0
ObjectId = ℕ

abbrev pub Text : Type 0
Text = String

-- A secret's digest, and the secret itself. They are only compared, so they are numbers.
abbrev pub Digest : Type 0
Digest = ℕ

abbrev pub Token : Type 0
Token = ℕ
