-- ===== src/Database/Working.antt =====
-- The statements of a connection on which none fails.
use sentinel_ai_v3_0_the_fin.Prelude.{ℕ, ◌+◌, ◌≡◌, true, false, Option, none, some, arith}
use sentinel_ai_v3_0_the_fin.Database.{Db}
use sentinel_ai_v3_0_the_fin.Database.Connection.{
  integrity_error, Runtime, Conn, ok, err, ◌>>=◌, begin, modify, query, rollback, commit,
}
use sentinel_ai_v3_0_the_fin.Database.Rules.{begun}

module _ (rt : Runtime) (working : (n : ℕ) → rt.fails n ≡ false) where
  pub modify-ok :
      (c : Conn) (change : Db → Option Db) (db : Db)
      → change c.working ≡ some db
      → modify rt change c ≡ (ok tt, record c { working = db; in_tx = true; sent = c.sent + 1 })
  unfolding modify ◌>>=◌
  modify-ok c change db e = ground (arith, working c.sent)

  pub modify-none :
      (c : Conn) (change : Db → Option Db)
      → change c.working ≡ none
      → modify rt change c ≡ (err integrity_error, record c { in_tx = true; sent = c.sent + 1 })
  unfolding modify ◌>>=◌
  modify-none c change e = ground (arith, working c.sent)

  pub query-ok :
      {A : Type 0} (c : Conn) (select : Db → A)
      → query rt select c ≡ (ok (select c.working), record c { sent = c.sent + 1 })
  unfolding query ◌>>=◌
  query-ok c select = ground (arith, working c.sent)

  pub begin-ok : (c : Conn) → c.in_tx ≡ false → begin rt c ≡ (ok tt, begun c)
  unfolding begin ◌>>=◌
  begin-ok c e = ground (arith, working c.sent)

  pub rollback-ok :
      (c : Conn)
      → c.in_tx ≡ true
      → rollback rt c
        ≡ (ok tt, record c { working = c.committed; in_tx = false; sent = c.sent + 1 })
  unfolding rollback ◌>>=◌
  rollback-ok c e = ground (arith, working c.sent)

  pub commit-ok :
      (c : Conn)
      → commit rt c ≡ (ok tt, record c { committed = c.working; in_tx = false; sent = c.sent + 1 })
  unfolding commit ◌>>=◌
  commit-ok c = ground (arith, working c.sent)
