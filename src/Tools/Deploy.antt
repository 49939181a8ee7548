-- ===== src/Tools/Deploy.antt =====
-- apps/api/app/tools/devops.py: deployments of a service. Rows have the columns that the tools read or
-- write.
pub mod Once
use safeops.Prelude.{
  ℕ, String, Bool, true, false, Option, none, some, List, [], ◌∷◌, ◌++◌, str_eq, if◌then◌else◌,
  find, any,
}
use safeops.Model.Uuid.{Uuid}
use safeops.Tools.{ToolAnswer, done, tool_error, broken, or_unchanged, quoted}

pub data DeploymentEnvironment : Type 0 where
  staging production : DeploymentEnvironment

pub record Service : Type 0 where
  pub id : Uuid
  pub name : String

pub record Deployment : Type 0 where
  pub id : Uuid
  pub service_id : Uuid
  pub environment : DeploymentEnvironment
  pub version : String
  pub idempotency_key : Option String
  pub deployed_at : ℕ

pub record Fleet : Type 0 where
  pub services : List Service
  pub deployments : List Deployment

pub record DeployInput : Type 0 where
  pub service_name : String
  pub version : String
  pub idempotency_key : Option String

pub record DeployOutput : Type 0 where
  pub service_name : String
  pub environment : DeploymentEnvironment
  pub version : String
  pub deployed_at : ℕ

abbrev pub find_service : String → List Service → Option Service
find_service name = find (λ s. str_eq s.name name)

-- Equal keys; a missing key is like no other.
abbrev pub same_key : Option String → Option String → Bool
same_key (some a) (some b) = str_eq b a
same_key (some a) none = false
same_key none b = false

abbrev pub find_deployment : Option String → List Deployment → Option Deployment
find_deployment key = find (λ d. same_key key d.idempotency_key)

-- The transaction that adds a deployment; a key is unique among the rows that have one.
unfoldable pub commit_deployment : Deployment → Fleet → Option Fleet
commit_deployment d f =
    if any (λ e. same_key d.idempotency_key e.idempotency_key) f.deployments
    then none
    else some (record f { deployments = f.deployments ++ d ∷ [] })

-- Deployments that other writers commit first.
abbrev pub settle : List Deployment → Fleet → Fleet
settle [] f = f
settle (d ∷ ds) f = settle ds (or_unchanged f (commit_deployment d f))

abbrev pub output_for : Service → Deployment → DeployOutput
output_for s d = record {
  service_name = s.name;
  environment = d.environment;
  version = d.version;
  deployed_at = d.deployed_at;
}

abbrev pub new_deployment : Uuid → ℕ → DeploymentEnvironment → DeployInput → Service → Deployment
new_deployment id now environment input s = record {
  id = id;
  service_id = s.id;
  environment = environment;
  version = input.version;
  idempotency_key = input.idempotency_key;
  deployed_at = now;
}

-- After a refused commit: the row that has the key, which is none where there is no key.
abbrev pub replay_or_raise : Service → Option Deployment → Fleet → ToolAnswer DeployOutput × Fleet
replay_or_raise s none f = (broken, f)
replay_or_raise s (some e) f = (done (output_for s e), f)

abbrev pub after_commit :
    Service → Deployment → Fleet → Option Fleet → ToolAnswer DeployOutput × Fleet
after_commit s d f none = replay_or_raise s (find_deployment d.idempotency_key f.deployments) f
after_commit s d f (some f') = (done (output_for s d), f')

module _ (rivals : List Deployment) (environment : DeploymentEnvironment) (id : Uuid) (now : ℕ)
    (input : DeployInput) where
  abbrev pub add_deployment : Service → Fleet → ToolAnswer DeployOutput × Fleet
  add_deployment s f =
      let d = new_deployment id now environment input s in
      let f' = settle rivals f in after_commit s d f' (commit_deployment d f')

  abbrev pub unless_existing : Service → Option Deployment → Fleet → ToolAnswer DeployOutput × Fleet
  unless_existing s (some e) f = (done (output_for s e), f)
  unless_existing s none f = add_deployment s f

  abbrev pub with_service : Option Service → Fleet → ToolAnswer DeployOutput × Fleet
  with_service none f =
      (tool_error "NOT_FOUND" (quoted "Service '" input.service_name "' not found"), f)
  with_service (some s) f =
      unless_existing s (find_deployment input.idempotency_key f.deployments) f

  -- `_deploy`; the tools for staging and production pass their environment.
  unfoldable pub deploy : Fleet → ToolAnswer DeployOutput × Fleet
  deploy f = with_service (find_service input.service_name f.services) f
