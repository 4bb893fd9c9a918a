-- ===== src/Operator/Agents/Reconcile.antt =====
-- internal/controller/arkagent_controller.go: Reconcile, buildDeployment, reconcileDeployment and
-- syncStatus.
pub mod Scale
use Prim.Native.String.{◌++◌}
use agentops_operator.Prelude.{
  ℕ, String, Bool, true, false, ◌&&◌, Option, none, some, List, [], ◌∷◌, ◌==◌, if◌then◌else◌,
  is_some, eqb,
}
use agentops_operator.Prelude.Int64.{lt64}
use agentops_operator.Api.Meta.{
  Message, plain, format, end, str, num, wrap, Result, ok, err, Condition, ConditionStatus,
  condition_true, condition_false,
}
use agentops_operator.Api.Flow.{Flow}
use agentops_operator.Api.Agent.{ArkAgent, AgentStatus}
use agentops_operator.Api.Settings.{ArkSettings, ArkMemory}
use agentops_operator.Operator.Reconcile.{Get, found, not_found, get_error}
use agentops_operator.Operator.Agents.Budget.{
  Conditions, Budgeted, reconcile_daily_budget, replicas_of,
}
use agentops_operator.Operator.Agents.Env.{EnvVar, Marshal, build_env_vars}
use agentops_operator.Operator.Agents.Prompt.{Sources, resolve_system_prompt}

-- The parts of appsv1.Deployment that depend on the agent. The rest of what buildDeployment builds is
-- fixed: the health port, the two probes, the pull policy and the shared secret.
pub record Deployment : Type 0 where
  pub name : String
  pub namespace : String
  pub labels : List (String × String)
  pub replicas : ℕ
  pub annotations : List (String × String)
  pub image : String
  pub env : List EnvVar
  pub status_replicas : ℕ
  pub status_ready_replicas : ℕ

-- What a call of Reconcile meets. The agents of one namespace are reconciled one at a time.
pub record AgentWorld : Type 0 where
  pub agent : Get {0} ArkAgent
  pub settings : String → Get {0} ArkSettings
  pub memory : String → Get {0} ArkMemory
  pub sources : Sources
  pub flows : Result (List Flow)
  pub now : ℕ
  pub conditions : Conditions
  pub marshal : Marshal
  pub sha256_hex : String → String
  pub image : String
  pub set_owner : Deployment → Option Message
  pub existing : String → Get {0} Deployment
  pub create : Deployment → Option Message
  pub patch : Deployment → Option Message
  pub after_write : String → Get {0} Deployment
  pub update_status : ArkAgent → Option Message

-- The deployments that are created or patched, the agents whose status is sent, the time of the next
-- call, and the error.
pub record AgentOutcome : Type 0 where
  pub deployments : List Deployment
  pub updates : List ArkAgent
  pub requeue_at : Option ℕ
  pub error : Option Message

abbrev idle : AgentOutcome
idle = record { deployments = []; updates = []; requeue_at = none; error = none }

-- A reference that is optional, to an object that may be missing.
unfoldable pub optional_ref :
    {A : Type 0} → String → (String → Get {0} A) → Option String → Result (Option A)
optional_ref message get none = ok none
optional_ref message get (some name) = elim (get name) [
  | found a ↦ ok (some a)
  | not_found ↦ ok none
  | get_error e ↦ err (format message (str name (wrap e end)))
]

-- The changes that the patch of an existing Deployment makes.
unfoldable pub patched : Deployment → Deployment → Deployment
patched desired existing = record existing {
  replicas = desired.replicas;
  annotations = desired.annotations;
  image = desired.image;
  env = desired.env;
}

module _ (w : AgentWorld) where
  -- setCondition
  unfoldable pub set_ready : ConditionStatus → String → Message → ArkAgent → ArkAgent
  set_ready status reason message a = record a {
    status = record (a.status) {
      conditions = w.conditions.set w.now a.status.conditions (record {
        type = "Ready";
        status = status;
        observed_generation = a.meta.generation;
        last_transition_time = 0;
        reason = reason;
        message = message;
      });
    };
  }

  unfoldable pub build_deployment :
      ArkAgent → Option ArkSettings → Option ArkMemory → String → Deployment
  build_deployment a settings memory prompt = record {
    name = a.meta.name ++ "-agent";
    namespace = a.meta.namespace;
    labels =
        ("app.kubernetes.io/name", "agent")
        ∷ ("app.kubernetes.io/instance", a.meta.name)
        ∷ ("app.kubernetes.io/managed-by", "ark-operator")
        ∷ ("arkonis.dev/deployment", a.meta.name)
        ∷ [];
    replicas = replicas_of w.conditions a;
    annotations = ("arkonis.dev/system-prompt-hash", w.sha256_hex prompt) ∷ [];
    image = w.image;
    env = build_env_vars w.marshal a settings memory prompt;
    status_replicas = 0;
    status_ready_replicas = 0;
  }

  -- What is written, and the error.
  unfoldable pub write_deployment : Deployment → List Deployment × Option Message
  unfolding patched
  write_deployment desired = elim (w.set_owner desired) [
    | some e ↦ ([], some e)
    | none ↦ elim (w.existing desired.name) [
      | not_found ↦ (desired ∷ [], w.create desired)
      | get_error e ↦ ([], some e)
      | found d ↦ (patched desired d ∷ [], w.patch (patched desired d))
    ]
  ]

  synced : ArkAgent → Deployment → ArkAgent
  unfolding set_ready
  synced a d =
      let all_ready = eqb d.status_ready_replicas d.status_replicas && lt64 0 d.status_replicas in
      set_ready (if all_ready then condition_true else condition_false)
        (if all_ready then "AllReplicasReady" else "Progressing")
        (format "%d/%d replicas ready" (num d.status_ready_replicas (num d.status_replicas end)))
        (record a {
          status = record (a.status) {
            replicas = d.status_replicas;
            ready_replicas = d.status_ready_replicas;
            observed_generation = a.meta.generation;
          };
        })

  -- syncStatus: the agents whose status is sent, and the error.
  unfoldable pub sync_status : ArkAgent → List ArkAgent × Option Message
  unfolding synced
  sync_status a = elim (w.after_write (a.meta.name ++ "-agent")) [
    | not_found ↦ ([], none)
    | get_error e ↦ ([], some e)
    | found d ↦ (synced a d ∷ [], w.update_status (synced a d))
  ]

  -- From reconcileDeployment on.
  unfoldable pub deploy : Option ArkSettings → Option ArkMemory → String → Budgeted → AgentOutcome
  unfolding build_deployment write_deployment sync_status
  deploy settings memory prompt b =
      let (ds, e) = write_deployment (build_deployment b.agent settings memory prompt) in
      elim e [
        | some m ↦ record {
          deployments = ds;
          updates = set_ready condition_false "ReconcileError" m b.agent ∷ [];
          requeue_at = none;
          error = some m;
        }
        | none ↦
            let (us, e') = sync_status b.agent in
            record {
              deployments = ds;
              updates = us;
              requeue_at = if is_some e' then none else b.requeue_at;
              error = e';
            }
      ]

  -- From the system prompt on.
  unfoldable pub prompted : ArkAgent → Option ArkSettings → Option ArkMemory → AgentOutcome
  unfolding deploy
  prompted a settings memory = elim (resolve_system_prompt w.sources a.spec) [
    | err e ↦ record idle {
      updates = set_ready condition_false "PromptResolutionError" e a ∷ [];
      error = some e;
    }
    | ok prompt ↦ elim (reconcile_daily_budget w.conditions w.now w.flows a) [
      | err e ↦ record idle { error = some e }
      | ok b ↦ deploy settings memory prompt b
    ]
  ]

  with_memory : ArkAgent → Option ArkSettings → AgentOutcome
  unfolding prompted optional_ref
  with_memory a settings =
      elim (optional_ref "fetching ArkMemory %q: %w" w.memory a.spec.memory_ref) [
        | err e ↦ record idle { error = some e }
        | ok memory ↦ prompted a settings memory
      ]

  with_settings : ArkAgent → AgentOutcome
  unfolding with_memory optional_ref
  with_settings a = elim (optional_ref "fetching ArkSettings %q: %w" w.settings a.spec.config_ref) [
    | err e ↦ record idle { error = some e }
    | ok settings ↦ with_memory a settings
  ]

  unfoldable pub reconcile_agent : AgentOutcome
  unfolding with_settings
  reconcile_agent = elim w.agent [
    | not_found ↦ idle
    | get_error e ↦ record idle { error = some e }
    | found a ↦ if is_some a.meta.deleted then idle else with_settings a
  ]
