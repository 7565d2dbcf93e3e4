-- ===== src/Examples/Callers.antt =====
-- Two deliveries of one caller's request meet at one key.
use delphi.Base.{◌≡◌, refl, codes, ok}
use delphi.App.Principal.{Principal, new_principal}
use delphi.App.Principal.Keyspace.{key-inj}

abbrev caller : Principal
caller = record { tenant_id = codes "t-1"; user_id = codes "u_1" }

caller-safe : new_principal (codes "t-1") (codes "u_1") ≡ ok caller
unfolding new_principal
caller-safe = refl

key-inj_example : (caller ≡ caller) × (codes "i1" ≡ codes "i1")
key-inj_example =
    key-inj (codes "t-1") (codes "u_1") (codes "t-1") (codes "u_1") (codes "i1") (codes "i1")
      caller-safe caller-safe refl
