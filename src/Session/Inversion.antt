-- ===== src/Session/Inversion.antt =====
-- What a successful chain of actions has done.
use mathlib.Core.Option
use babki_back.Prelude.{◌≡◌, ap, refl, Bool, true, false, Option, none, some}
use babki_back.Http.{Exception, Result, ok, err}
use babki_back.Schemas.{Db}
use babki_back.Session.{Action, ◌>>=◌, raise_if, or_raise}

result_bind {ℓ κ} :
    {A : Type ℓ} {B : Type κ} (r : Result (A × Db)) (f : A → Action B) {b : B} {db' : Db}
    → elim r as (λ x. Result (B × Db)) [ ok (a, db₁) ↦ f a db₁ | err e ↦ err e ] ≡ ok (b, db')
    → (a : A) × (db₁ : Db) × (r ≡ ok (a, db₁)) × (f a db₁ ≡ ok (b, db'))
result_bind (ok (a, db₁)) f h = (a, db₁, refl, h)
result_bind (err e) f h = cc

-- A bind that returns has two parts that return.
pub bind_ok {ℓ κ} :
    {A : Type ℓ} {B : Type κ} (m : Action A) (f : A → Action B) (db : Db) {b : B} {db' : Db}
    → (m >>= f) db ≡ ok (b, db')
    → (a : A) × (db₁ : Db) × (m db ≡ ok (a, db₁)) × (f a db₁ ≡ ok (b, db'))
bind_ok m f db h = result_bind (m db) f h

-- A guard that lets through has changed nothing.
pub raise_if_ok :
    (b : Bool) (e : Exception) (db db' : Db)
    → raise_if b e db ≡ ok (tt, db')
    → (b ≡ false) × (db' ≡ db)
raise_if_ok true e db db' h = cc
raise_if_ok false e db db' h = (refl, cc)

pub or_raise_ok {ℓ} :
    {A : Type ℓ} (o : Option A) (e : Exception) (db db' : Db) (a : A)
    → or_raise o e db ≡ ok (a, db')
    → (o ≡ some a) × (db' ≡ db)
or_raise_ok none e db db' a h = cc
or_raise_ok (some x) e db db' a h = (cc, cc)

-- A result that is returned at the end.
pub pure_ok {ℓ} :
    {A : Type ℓ} (a b : A) (db db' : Db)
    → ◌≡◌ {A = Result (A × Db)} (ok (a, db)) (ok (b, db'))
    → (a ≡ b) × (db ≡ db')
pure_ok a b db db' h = (cc, cc)

-- A bind whose first part returns goes on with what it returns.
pub bind_run {ℓ κ} :
    {A : Type ℓ} {B : Type κ} (m : Action A) (f : A → Action B) (db db₁ : Db) (a : A)
    → m db ≡ ok (a, db₁)
    → (m >>= f) db ≡ f a db₁
bind_run {B = B} m f db db₁ a h =
    ap (λ r. elim r as (λ x. Result (B × Db)) [ ok (x, d) ↦ f x d | err e ↦ err e ]) h

pub raise_if_run : (b : Bool) (e : Exception) (db : Db) → b ≡ false → raise_if b e db ≡ ok (tt, db)
raise_if_run b e db h = rw h refl

pub mapped :
    {D : Type 0} (f : D → D) (o : Option D) (y : D)
    → Option.map f o ≡ some y
    → (x : D) × (o ≡ some x) × (f x ≡ y)
mapped f none y h = cc
mapped f (some x) y h = (x, refl, cc)
