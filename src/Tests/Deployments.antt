-- ===== src/Tests/Deployments.antt =====
-- Deployments of one service under one key.
use safeops.Prelude.{ℕ, ◌≡◌, refl, some, List, [], ◌∷◌}
use safeops.Tools.{done}
use safeops.Tools.Deploy.{
  DeploymentEnvironment, staging, production, Service, Deployment, Fleet, DeployInput,
  find_deployment, output_for, new_deployment, commit_deployment, deploy,
}
use safeops.Tools.Deploy.Once.{deploy-once}

abbrev service : Service
service = record { id = 1; name = "api" }

abbrev fleet : Fleet
fleet = record { services = service ∷ []; deployments = [] }

abbrev input : DeployInput
input = record { service_name = "api"; version = "1.2"; idempotency_key = some "k1" }

-- What another writer deploys under the same key.
abbrev rival : Deployment
rival = record (new_deployment 8 3 staging input service) { version = "1.1" }

deploy-once_example :
    (e : Deployment) × (g : Fleet) × (deploy (rival ∷ []) staging 7 4 input fleet
      ≡ (done (output_for service e), g))
    × (find_deployment (some "k1") g.deployments ≡ some e)
    × ((rivals' : List Deployment) (environment' : DeploymentEnvironment) (id' : _) (now' : ℕ)
        → deploy rivals' environment' id' now' input g ≡ (done (output_for service e), g))
deploy-once_example = deploy-once (rival ∷ []) staging 7 4 input fleet service "k1" refl refl

-- The other writer's row is replayed.
raced :
    deploy (rival ∷ []) staging 7 4 input fleet
    ≡ (done (output_for service rival), record fleet { deployments = rival ∷ [] })
unfolding deploy commit_deployment
raced = refl

-- A key that was used for staging: the tool for production answers with the staging deployment, of
-- another version, and deploys nothing.
key_of_staging :
    deploy [] production 9 6 input (record fleet { deployments = rival ∷ [] })
    ≡ (done (output_for service rival), record fleet { deployments = rival ∷ [] })
unfolding deploy commit_deployment
key_of_staging = refl
