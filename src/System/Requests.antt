-- ===== src/System/Requests.antt =====
-- core/gateway.py: what one request, on its way through the whole stack, does to the ledger.
use sentinel_ai_v3_0_the_fin.Prelude.{ℕ, ℤ, String, refl, Bool, [], ◌∷◌, Option}
use sentinel_ai_v3_0_the_fin.Database.{Db}
use sentinel_ai_v3_0_the_fin.Database.Connection.{Runtime}
use sentinel_ai_v3_0_the_fin.Transaction.Consistency.{IsConsistent}
use sentinel_ai_v3_0_the_fin.Transaction.Register.{register, Evolves, stays, Evolves-trans}
use sentinel_ai_v3_0_the_fin.OpaClient.{OpaInput, Reply}
use sentinel_ai_v3_0_the_fin.Core.{KeyStore}
use sentinel_ai_v3_0_the_fin.Service.{HttpRequest, Framework, Service, headers_of, serve}
use sentinel_ai_v3_0_the_fin.Service.Rules.{serve_rule}
use sentinel_ai_v3_0_the_fin.System.Entitlement.{IsEntitled}
use sentinel_ai_v3_0_the_fin.System.Overlaps.{Safe}
use sentinel_ai_v3_0_the_fin.System.Safety.{requested-Safe}

-- A consistent ledger that pays registered accounts only stays so, and its register evolves.
pub record IsSound (sha256 : String → String) (db : Db) : Type 0 where
  pub consistent : IsConsistent sha256 db
  pub entitled : IsEntitled db

abbrev pub Extends : (String → String) → Db → Db → Type 0
Extends sha256 before after =
    IsSound sha256 before → IsSound sha256 after × Evolves (register before) (register after)

pub Extends-refl : (sha256 : String → String) (db : Db) → Extends sha256 db db
Extends-refl sha256 db h = (h, stays _)

pub Extends-trans :
    (sha256 : String → String) (a b c : Db)
    → Extends sha256 a b
    → Extends sha256 b c
    → Extends sha256 a c
Extends-trans sha256 a b c f g h =
    let (h', e) = f h in let (h'', e') = g h' in (h'', Evolves-trans e e')

pub Safe-Extends :
    {sha256 : String → String} {f : Db → Db} (db : Db) → Safe sha256 [] f → Extends sha256 db (f db)
Safe-Extends db s h = (
  record { consistent = s.consistent db h.consistent; entitled = s.entitled db h.entitled },
  s.evolves db h.consistent.unique,
)

module _ (rt : Runtime) (others : Safe rt.sha256 (rt.uuid4 0 ∷ []) rt.others) where
  pub serve-Extends :
      (ks : KeyStore) (post : OpaInput → Reply) (parse : String → Option ℤ) (fw : Framework)
      (q : HttpRequest) (n random : ℕ) (world : ℕ → Bool × Bool) (s : Service ks)
      → Extends rt.sha256 s.app.file (serve ks rt post parse fw n q random world s).1.app.file
  serve-Extends ks post parse fw q n random world s =
      serve_rule ks rt post parse fw q (λ a b. Extends rt.sha256 a.file b.file)
        (λ app. Extends-refl rt.sha256 app.file)
        (λ a b c. Extends-trans rt.sha256 a.file b.file c.file)
        (λ req app.
          Safe-Extends app.file (
            requested-Safe rt (rt.uuid4 0) [] refl others ks post parse (headers_of q) req app
              refl))
        n random world s
