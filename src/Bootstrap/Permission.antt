-- ===== src/Bootstrap/Permission.antt =====
-- Which requests the tests of an existing cluster in pkg/bootstrap/server.go let pass.
use opni_monitoring.Prelude.{
  Bool, true, false, if◌then◌else◌, is_not_found, Result, ok, err, Error, ◌≡◌, refl,
}
use mathlib.Core.Path.{subst}
use opni_monitoring.Core.Types.{BootstrapToken, Cluster}
use opni_monitoring.Tokens.Jws.{Signer}
use opni_monitoring.Storage.Mutators.{
  cluster_has, token_has, cluster_capability, join_existing_cluster_for,
}
use opni_monitoring.Bootstrap.{AuthRequest, Stores, send, no_body, text, Progress, respond, proceed}
use opni_monitoring.Bootstrap.Server.{decide_existing}

-- A request for a cluster that is not stored creates one. A request for a stored cluster that
-- does not have the capability edits it, if the token may join it.
pub data Permitted (req : AuthRequest) (token : BootstrapToken)
    : Result Cluster → Bool → Type 0 where
  fresh : (e : Error) → is_not_found e ≡ true → Permitted req token (err e) false
  editable :
      (cluster : Cluster)
      → cluster_has cluster (cluster_capability req.capability) ≡ false
      → token_has token (join_existing_cluster_for (record { id = req.client_id })) ≡ true
      → Permitted req token (ok cluster) true

proceed_injective : {A : Type 0} {a b : A} → ◌≡◌ {A = Progress A} (proceed a) (proceed b) → a ≡ b
proceed_injective h = cc

Permitted-new :
    (req : AuthRequest) (token : BootstrapToken) (e : Error) (b edit : Bool)
    → is_not_found e ≡ b
    → (if b then proceed false else respond (send 500 no_body)) ≡ proceed edit
    → Permitted req token (err e) edit
Permitted-new req token e true edit missing h =
    subst (Permitted req token (err e)) (proceed_injective h) (fresh e missing)
Permitted-new req token e false edit missing h = cc

Permitted-old :
    (req : AuthRequest) (token : BootstrapToken) (cluster : Cluster) (has may edit : Bool)
    → cluster_has cluster (cluster_capability req.capability) ≡ has
    → token_has token (join_existing_cluster_for (record { id = req.client_id })) ≡ may
    → (if has
        then respond (send 409 text)
        else if may
        then proceed true
        else respond (send 401 text))
      ≡ proceed edit
    → Permitted req token (ok cluster) edit
Permitted-old req token cluster true may edit e f h = cc
Permitted-old req token cluster false false edit e f h = cc
Permitted-old req token cluster false true edit e f h =
    subst (Permitted req token (ok cluster)) (proceed_injective h) (editable cluster e f)

module _ {S : Type 0} (j : Signer) (stores : Stores S) where
  pub decide_existing_permits :
      (req : AuthRequest) (token : BootstrapToken) (found : Result Cluster) (edit : Bool)
      → decide_existing j stores req token found ≡ proceed edit
      → Permitted req token found edit
  unfolding decide_existing
  decide_existing_permits req token (err e) edit h =
      Permitted-new req token e (is_not_found e) edit refl h
  decide_existing_permits req token (ok cluster) edit h =
      Permitted-old req token cluster _ _ edit refl refl h
