-- ===== src/Database/Connection.antt =====
-- A connection to the ledger database, as `aiosqlite.connect` opens it (core/database.py), with what
-- the code takes from its runtime. A call on it returns a value or raises; what it wrote before a
-- raise stays written until a ROLLBACK, so the connection comes back beside the error too.
use sentinel_ai_v3_0_the_fin.Prelude.{
  ℕ, ◌+◌, ℤ, String, Bool, true, false, Option, none, some, List, if◌then◌else◌,
}
use sentinel_ai_v3_0_the_fin.Database.{Db}

-- What `except Exception` can catch: sqlite3.IntegrityError, any failure of a statement (a locked
-- database, a full disk), and the ValueError of a text that does not parse.
pub data Error : Type 0 where
  integrity_error operational_error value_error : Error

pub data Result (A : Type 0) : Type 0 where
  ok : A → Result A
  err : Error → Result A

-- The values that the code puts into its JSON payloads.
pub data Json : Type 0 where
  text : String → Json
  number : ℤ → Json

-- What the ledger's code takes from elsewhere.
pub record Runtime : Type 0 where
  pub sha256 : String → String  -- hashlib.sha256(t.encode('utf-8')).hexdigest()
  pub dumps : List (String × Json) → String  -- json.dumps(payload)
  pub dumps_sorted : List (String × Json) → String  -- with sort_keys and the short separators
  pub uuid4 : ℕ → String  -- the n-th str(uuid.uuid4()) of the request
  pub fails : ℕ → Bool  -- whether the n-th statement of the connection fails
  pub others : Db → Db  -- what other connections commit while the bank is asked

-- `committed` is the file, `working` what the connection sees inside its open transaction.
pub record Conn : Type 0 where
  pub committed : Db
  pub working : Db
  pub in_tx : Bool
  pub sent : ℕ  -- statements sent so far
  pub draws : ℕ  -- calls of uuid4 so far

-- A connection with no transaction open, after `n` statements.
abbrev pub idle : ℕ → Db → Conn
idle n db = record { committed = db; working = db; in_tx = false; sent = n; draws = 0 }

-- `get_db_connection`
abbrev pub connect : Db → Conn
connect = idle 0

abbrev pub Exec : Type 0 → Type 0
Exec A = Conn → Result A × Conn

abbrev pub pure : {A : Type 0} → A → Exec A
pure a c = (ok a, c)

abbrev pub raise : {A : Type 0} → Error → Exec A
raise e c = (err e, c)

infixl 5 ◌>>=◌ ◌>>◌
unfoldable pub ◌>>=◌ : {A B : Type 0} → Exec A → (A → Exec B) → Exec B
◌>>=◌ m f c = let (r, c') = m c in elim r [ ok a ↦ f a c' | err e ↦ (err e, c') ]

abbrev pub ◌>>◌ : {A B : Type 0} → Exec A → Exec B → Exec B
m >> k = m >>= λ _. k

-- `try: m  except Exception as e: handler`
unfoldable pub try_except : {A : Type 0} → Exec A → (Error → Exec A) → Exec A
try_except m handler c = let (r, c') = m c in elim r [ ok a ↦ (ok a, c') | err e ↦ handler e c' ]

abbrev pub draw_uuid : Runtime → Exec String
draw_uuid rt c = (ok (rt.uuid4 c.draws), record c { draws = c.draws + 1 })

-- Every statement may fail, and then it has done nothing.
send : Runtime → Exec Unit
send rt c =
    (if rt.fails c.sent then err operational_error else ok tt, record c { sent = c.sent + 1 })

abbrev pub or_integrity : Conn → Option Db → Result Unit × Conn
or_integrity c none = (err integrity_error, record c { in_tx = true })
or_integrity c (some db) = (ok tt, record c { working = db; in_tx = true })

-- SELECT
unfoldable pub query : {A : Type 0} → Runtime → (Db → A) → Exec A
unfolding send ◌>>=◌
query rt select = do send rt; λ c. (ok (select c.working), c)

-- INSERT or UPDATE; with none open, sqlite3 opens a transaction for it.
unfoldable pub modify : Runtime → (Db → Option Db) → Exec Unit
unfolding send ◌>>=◌
modify rt change = do send rt; λ c. or_integrity c (change c.working)

-- execute("BEGIN"): refused inside a transaction.
unfoldable pub begin : Runtime → Exec Unit
unfolding send ◌>>=◌
begin rt = do
  send rt
  λ c. if c.in_tx then (err operational_error, c) else (ok tt, record c { in_tx = true })

-- execute("ROLLBACK"): refused outside a transaction.
unfoldable pub rollback : Runtime → Exec Unit
unfolding send ◌>>=◌
rollback rt = do
  send rt
  λ c.
      if c.in_tx
      then (ok tt, record c { working = c.committed; in_tx = false })
      else (err operational_error, c)

-- db.commit()
unfoldable pub commit : Runtime → Exec Unit
unfolding send ◌>>=◌
commit rt = do send rt; λ c. (ok tt, record c { committed = c.working; in_tx = false })

-- While this request waits, other connections commit; this one has no transaction open.
abbrev pub wait : Runtime → Exec Unit
wait rt c = (ok tt, record c { committed = rt.others c.committed; working = rt.others c.committed })
