-- ===== src/Core/Tests.antt =====
-- The registry over an association list.
use sentinel_ai_v3_0_the_fin.Prelude.{
  String, ◌≡◌, ◌≢◌, sym, false, some, List, [], ◌∷◌, ◌==◌, arith, eq_iff, if◌then◌else◌,
}
use sentinel_ai_v3_0_the_fin.Core.{KeyStore, Fetched, absent, stored, SentinelCore}

abbrev Entries : Type 0
Entries = List (String × String)

abbrev get : Entries → String → Fetched
get [] k = absent
get ((j, v) ∷ es) k = if j == k then stored v else get es k

put_self : (s s' : Entries) (k v : String) → some ((k, v) ∷ s) ≡ some s' → get s' k ≡ stored v
put_self s s' k v e = ground (arith, sym e, eq_iff k k)

put_ne :
    (s s' : Entries) (k j v : String) → some ((k, v) ∷ s) ≡ some s' → k ≢ j → get s' j ≡ get s j
put_ne s s' k j v e n = ground (arith, sym e, eq_iff k j)

abbrev entries : KeyStore
entries = record {
  Store = Entries;
  get = get;
  put = λ s k v. some ((k, v) ∷ s);
  get-put_self = put_self;
  get-put_ne = put_ne;
}

abbrev fresh : SentinelCore entries
fresh = record { fail_safe = false; db = [] }
