-- ===== src/Tools/Deploy/Once.antt =====
-- A deployment under a key happens once.
use safeops.Prelude.{
  ℕ, String, ◌≡◌, refl, sym, ap, ◌∙◌, inl, inr, true, false, Option, some, List, [], ◌∷◌, ◌++◌,
  eq_iff, any, Bool-cases, Option-cases,
}
use safeops.Model.Uuid.{Uuid}
use safeops.Tools.{done, or_unchanged}
use safeops.Tools.Deploy.{
  DeploymentEnvironment, Service, Deployment, Fleet, DeployInput, find_service, same_key,
  find_deployment, commit_deployment, settle, output_for, new_deployment, add_deployment, deploy,
}

commit-services :
    (d : Deployment) (f : Fleet) → (or_unchanged f (commit_deployment d f)).services ≡ f.services
unfolding commit_deployment
commit-services d f =
    elim (Bool-cases
      (any (λ (e : Deployment). same_key d.idempotency_key e.idempotency_key) f.deployments)) [
        | inl taken ↦ rw taken refl
        | inr free ↦ rw free refl
      ]

settle-services : (ds : List Deployment) (f : Fleet) → (settle ds f).services ≡ f.services
settle-services [] f = refl
settle-services (d ∷ ds) f =
    settle-services ds (or_unchanged f (commit_deployment d f)) ∙ commit-services d f

any-find :
    (key : Option String) (ds : List Deployment)
    → any (λ d. same_key key d.idempotency_key) ds ≡ true
    → (e : Deployment) × (find_deployment key ds ≡ some e)
any-find key [] h = absurd (cc)
any-find key (d ∷ ds) h = elim (Bool-cases (same_key key d.idempotency_key)) [
  | inl hit ↦ (d, rw hit refl)
  | inr miss ↦ rw miss (any-find key ds (rw miss at h))
]

find-snoc :
    (key : Option String) (d : Deployment) (ds : List Deployment)
    → any (λ e. same_key key e.idempotency_key) ds ≡ false
    → same_key key d.idempotency_key ≡ true
    → find_deployment key (ds ++ d ∷ []) ≡ some d
find-snoc key d [] h own = rw own refl
find-snoc key d (e ∷ es) h own = elim (Bool-cases (same_key key e.idempotency_key)) [
  | inl hit ↦ absurd (cc (rw hit at h))
  | inr miss ↦ rw miss (find-snoc key d es (rw miss at h) own)
]

same_key_refl : (k : String) → same_key (some k) (some k) ≡ true
same_key_refl k = (eq_iff k k).1 refl

module _ (input : DeployInput) (s : Service) (key : String)
    (keyed : input.idempotency_key ≡ some key) where
  -- The service is there, and the key belongs to this deployment.
  abbrev Stands : Deployment → Fleet → Type 0
  Stands e g =
      (find_service input.service_name g.services ≡ some s)
      × (find_deployment input.idempotency_key g.deployments ≡ some e)

  Stands-again :
      (e : Deployment) (g : Fleet)
      → Stands e g
      → (rivals : List Deployment) (environment : DeploymentEnvironment) (id : Uuid) (now : ℕ)
      → deploy rivals environment id now input g ≡ (done (output_for s e), g)
  unfolding deploy
  Stands-again e g (there, old) rivals environment id now = rw there (rw old refl)

  module _ (rivals : List Deployment) (environment : DeploymentEnvironment) (id : Uuid) (now : ℕ)
      (f : Fleet) (there : find_service input.service_name f.services ≡ some s) where
    add_deployment-Stands :
        (e : Deployment) × (g : Fleet) × (add_deployment rivals environment id now input s f
          ≡ (done (output_for s e), g))
        × Stands e g
    unfolding commit_deployment
    add_deployment-Stands =
        let f' = settle rivals f in
        let there' : find_service input.service_name f'.services ≡ some s =
          ap (find_service input.service_name) (settle-services rivals f) ∙ there in
        let d = new_deployment id now environment input s in
        elim (Bool-cases (
          any (λ (e : Deployment). same_key input.idempotency_key e.idempotency_key)
            f'.deployments)) [
              | inl taken ↦
                  let (e, old) = any-find input.idempotency_key f'.deployments taken in
                  (e, f', rw taken (rw old refl), (there', old))
              | inr free ↦
                  let own : same_key input.idempotency_key d.idempotency_key ≡ true =
                    rw keyed (same_key_refl key) in
                  (
                    d,
                    record f' { deployments = f'.deployments ++ d ∷ [] },
                    rw free refl,
                    (there', find-snoc input.idempotency_key d f'.deployments free own),
                  )
            ]

    deploy-Stands :
        (e : Deployment) × (g : Fleet) × (deploy rivals environment id now input f
          ≡ (done (output_for s e), g))
        × Stands e g
    unfolding deploy
    deploy-Stands = elim (Option-cases (find_deployment input.idempotency_key f.deployments)) [
      | inl unused ↦ rw there (rw unused add_deployment-Stands)
      | inr (e, old) ↦ (e, f, rw there (rw old refl), (there, old))
    ]

-- A deployment of a known service under a key succeeds, whatever others deploy before its commit, and
-- its answer describes the deployment that has the key afterwards. Every further request with the same
-- contents, for either environment, changes nothing and gets the same answer.
pub deploy-once :
    (rivals : List Deployment) (environment : DeploymentEnvironment) (id : Uuid) (now : ℕ)
    (input : DeployInput) (f : Fleet) (s : Service) (key : String)
    → input.idempotency_key ≡ some key
    → find_service input.service_name f.services ≡ some s
    → (e : Deployment) × (g : Fleet) × (deploy rivals environment id now input f
        ≡ (done (output_for s e), g))
      × (find_deployment (some key) g.deployments ≡ some e)
      × ((rivals' : List Deployment) (environment' : DeploymentEnvironment) (id' : Uuid) (now' : ℕ)
          → deploy rivals' environment' id' now' input g ≡ (done (output_for s e), g))
deploy-once rivals environment id now input f s key keyed there =
    let (e, g, answered, stands) =
      deploy-Stands input s key keyed rivals environment id now f there in
    (
      e,
      g,
      answered,
      sym (ap (λ k. find_deployment k g.deployments) keyed) ∙ stands.1,
      Stands-again input s key keyed e g stands,
    )
