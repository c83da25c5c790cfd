-- ===== src/Orchestration/Tx.antt =====
-- `with self.store.tx() as session`: a transaction over the tables. An exception rolls the session
-- back (session_scope of llama_pack/core/persistence/db_infra.py), so an error carries no state.
use llama_pack.Prelude.{ℕ, suc, Bool, true, false, Option, none, some}
use llama_pack.Orchestration.Rows.{Db}

pub data Error : Type 0 where
  unknown_job unknown_attempt owner_mismatch cancellation_requested integrity : Error

pub data Result {ℓ} (A : Type ℓ) : Type ℓ where
  ok : A → Result A
  err : Error → Result A

abbrev pub Tx {ℓ} : Type ℓ → Type ℓ
Tx A = Db → Result (A × Db)

-- Go on from what a step returned and wrote, unless it raised.
unfoldable pub and_then {ℓ κ} :
    {A : Type ℓ} {B : Type κ} → Result (A × Db) → (A → Tx B) → Result (B × Db)
and_then (ok (a, db)) f = f a db
and_then (err e) f = err e

infixl 5 ◌>>=◌ ◌>>◌
abbrev pub ◌>>=◌ {ℓ κ} : {A : Type ℓ} {B : Type κ} → Tx A → (A → Tx B) → Tx B
◌>>=◌ m f db = and_then (m db) f

abbrev pub ◌>>◌ {ℓ} : {B : Type ℓ} → Tx (Unit {0}) → Tx B → Tx B
m >> k = m >>= λ _. k

abbrev pub pure {ℓ} : {A : Type ℓ} → A → Tx A
pure a db = ok (a, db)

abbrev pub raise {ℓ} : {A : Type ℓ} → Error → Tx A
raise e db = err e

-- `if row is None: raise ...`, and what is done with the row.
unfoldable pub demand {ℓ κ} :
    {A : Type ℓ} {B : Type κ} → Error → Option A → (A → Result B) → Result B
demand e none f = err e
demand e (some a) f = f a

-- `if b: s else: t` over steps.
infix 1 when◌then◌else◌
unfoldable pub when◌then◌else◌ {ℓ} : {A : Type ℓ} → Bool → Tx A → Tx A → Tx A
when true then s else t = s
when false then s else t = t

-- A query.
abbrev pub gets {ℓ} : {A : Type ℓ} → (Db → A) → Tx A
gets f db = ok (f db, db)

-- A change of the tables.
abbrev pub modify : (Db → Db) → Tx (Unit {0})
modify f db = ok (tt, f db)

-- uuid.uuid4()
abbrev pub uuid4 : Tx ℕ
uuid4 db = ok (db.fresh, record db { fresh = suc db.fresh })

-- The tables that a result leaves: what was written, or, after an exception, what was there.
unfoldable pub settled {ℓ} : {A : Type ℓ} → Result (A × Db) → Db → Db
settled (ok (a, db')) db = db'
settled (err e) db = db

abbrev pub after {ℓ} : {A : Type ℓ} → Tx A → Db → Db
after t db = settled (t db) db
