-- ===== src/Http/Admin/Access.antt =====
-- internal/httpapi/server.go: the admin routes ask for the admin key.
use payment_ledger_platform.Base.{
  ◌≡◌, ◌≢◌, ◌⊎◌, inl, inr, true, not, ◌||◌, ◌==◌, String, eq_iff, Bool, List, Option, arith,
}
use payment_ledger_platform.Amount.{Decimal}
use payment_ledger_platform.Text.{Unicode}
use payment_ledger_platform.Service.Journal.{EntryIds}
use payment_ledger_platform.Service.Reconciliation.{ReconciliationMismatch}
use payment_ledger_platform.Http.Handler.{Server, World, refuse}
use payment_ledger_platform.Http.Transfers.{
  DisputeRequest, require_admin, open_dispute, resolve_dispute,
}
use payment_ledger_platform.Http.Admin.{LineRequest, reconcile_lines}

barred_lem :
    (admin_key key : String)
    → (admin_key ≡ "") ⊎ (key ≢ admin_key)
    → (admin_key == "" || not (key == admin_key)) ≡ true
barred_lem admin_key key (inl unset) = ground (arith, unset, eq_iff admin_key "")
barred_lem admin_key key (inr wrong) = ground (arith, wrong, eq_iff key admin_key)

module _ {S A : Type 0} ⦃d : Decimal A⦄ ⦃u : Unicode⦄ where
  -- When no admin key is configured, or the request's key is another one, then reconciling,
  -- opening a dispute and resolving a dispute are all answered with 401, and neither the store
  -- nor a counter changes.
  pub admin_refused :
      (server : Server S A)
      (sort : List (ReconciliationMismatch A) → List (ReconciliationMismatch A)) (key id : String)
      (ids : EntryIds) (rows : Option (List LineRequest)) (opening : Option DisputeRequest)
      (resolution : Option Bool) (w : World S)
      → (server.admin_key ≡ "") ⊎ (key ≢ server.admin_key)
      → (reconcile_lines server sort key rows w ≡ refuse 401 "valid x-admin-api-key is required" w)
        × (open_dispute server id ids key opening w
            ≡ refuse 401 "valid x-admin-api-key is required" w)
        × (resolve_dispute server ids key id resolution w
            ≡ refuse 401 "valid x-admin-api-key is required" w)
  unfolding reconcile_lines open_dispute resolve_dispute require_admin
  admin_refused server sort key id ids rows opening resolution w barred =
      let no = barred_lem server.admin_key key barred in
      (ground (arith, no), ground (arith, no), ground (arith, no))
