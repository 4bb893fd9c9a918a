-- ===== src/Operator/Services.antt =====
-- internal/controller/arkservice_controller.go: Reconcile with reconcileService, buildService and the
-- mapping from agents to services.
pub mod Routes
use agentops_operator.Prelude.{
  ℕ, String, Bool, Option, none, some, List, [], ◌∷◌, map, ◌==◌, if◌then◌else◌, is_some,
}
use agentops_operator.Api.Meta.{
  Message, plain, ObjectMeta, Result, ok, err, Condition, ConditionStatus, condition_true,
  condition_false,
}
use agentops_operator.Api.Agent.{ArkAgent}
use agentops_operator.Api.Service.{ArkService, ServicePort}
use agentops_operator.Operator.Reconcile.{Get, found, not_found, get_error}

-- corev1.ServicePort, whose protocol is TCP, and the parts of corev1.Service that are built; its type is
-- ClusterIP.
pub record Port : Type 0 where
  pub name : String
  pub port : ℕ
  pub target_port : ℕ

pub record Service : Type 0 where
  pub name : String
  pub namespace : String
  pub labels : List (String × String)
  pub selector : List (String × String)
  pub ports : List Port

-- What a call of Reconcile meets. `set_condition` is apimachinery's SetStatusCondition, and `lower` is
-- strings.ToLower.
pub record ServiceWorld : Type 0 where
  pub service : Get {0} ArkService
  pub agent : String → Get {0} ArkAgent
  pub set_owner : Service → Option Message
  pub existing : String → Get {0} Service
  pub create : Service → Option Message
  pub patch : Service → Option Message
  pub update_status : ArkService → Option Message
  pub set_condition : List Condition → Condition → List Condition
  pub lower : String → String

-- The services that are created or patched, the resources whose status is sent, and the error.
pub record ServiceOutcome : Type 0 where
  pub written : List Service
  pub updates : List ArkService
  pub error : Option Message

abbrev untouched : Option Message → ServiceOutcome
untouched e = record { written = []; updates = []; error = e }

module _ (w : ServiceWorld) where
  build_port : ServicePort → Port
  build_port p = record { name = w.lower p.protocol; port = p.port; target_port = p.port }

  abbrev default_port : Port
  default_port = record { name = "http"; port = 8081; target_port = 8080 }

  or_default : List Port → List Port
  or_default [] = default_port ∷ []
  or_default (p ∷ ps) = p ∷ ps

  unfoldable pub build_service : ArkService → ArkAgent → Service
  unfolding build_port or_default
  build_service svc agent = record {
    name = svc.meta.name;
    namespace = svc.meta.namespace;
    labels =
        ("app.kubernetes.io/managed-by", "ark-operator")
        ∷ ("arkonis.dev/service", svc.meta.name)
        ∷ [];
    selector = ("arkonis.dev/deployment", agent.meta.name) ∷ [];
    ports = or_default (map build_port svc.spec.ports);
  }

  unfoldable pub set_service_condition :
      ConditionStatus → String → Message → ArkService → ArkService
  set_service_condition status reason message svc = record svc {
    status = record (svc.status) {
      conditions = w.set_condition svc.status.conditions (record {
        type = "Ready";
        status = status;
        observed_generation = svc.meta.generation;
        last_transition_time = 0;
        reason = reason;
        message = message;
      });
    };
  }

  patched_service : Service → Service → Service
  patched_service desired existing = record existing {
    ports = desired.ports;
    selector = desired.selector;
  }

  -- reconcileService: what is written, and the error.
  unfoldable pub reconcile_service : ArkService → ArkAgent → List Service × Option Message
  unfolding build_service patched_service
  reconcile_service svc agent =
      let desired = build_service svc agent in
      elim (w.set_owner desired) [
        | some e ↦ ([], some e)
        | none ↦ elim (w.existing desired.name) [
          | not_found ↦ (desired ∷ [], w.create desired)
          | get_error e ↦ ([], some e)
          | found s ↦ (patched_service desired s ∷ [], w.patch (patched_service desired s))
        ]
      ]

  -- A status that ends the call; the error of the update is ignored.
  service_failed : String → Message → List Service → Option Message → ArkService → ServiceOutcome
  unfolding set_service_condition
  service_failed reason message written e svc = record {
    written = written;
    updates = set_service_condition condition_false reason message svc ∷ [];
    error = e;
  }

  -- The service with the status of a reconciled agent.
  unfoldable pub service_synced : ArkService → ArkAgent → ArkService
  unfolding set_service_condition
  service_synced svc agent =
      set_service_condition condition_true "Reconciled" (plain "ArkService reconciled")
        (record svc {
          status = record (svc.status) {
            ready_replicas = agent.status.ready_replicas;
            observed_generation = svc.meta.generation;
          };
        })

  finish_service : ArkService → ArkAgent → List Service × Option Message → ServiceOutcome
  unfolding service_failed service_synced
  finish_service svc agent (written, some e) =
      service_failed "ReconcileError" e written (some e) svc
  finish_service svc agent (written, none) = record {
    written = written;
    updates = service_synced svc agent ∷ [];
    error = w.update_status (service_synced svc agent);
  }

  with_agent : ArkService → ServiceOutcome
  unfolding finish_service reconcile_service service_failed
  with_agent svc = elim (w.agent svc.spec.selector.ark_agent) [
    | found agent ↦ finish_service svc agent (reconcile_service svc agent)
    | not_found ↦
        service_failed "DeploymentNotFound" (plain "referenced ArkAgent does not exist") [] none svc
    | get_error e ↦ untouched (some e)
  ]

  unfoldable pub reconcile_ark_service : ServiceOutcome
  unfolding with_agent service_failed
  reconcile_ark_service = elim w.service [
    | not_found ↦ untouched none
    | get_error e ↦ untouched (some e)
    | found svc ↦
        if is_some svc.meta.deleted
        then untouched none
        else if svc.spec.selector.ark_agent == ""
        then service_failed "NoSelector" (plain "spec.selector.arkAgent is required") [] none svc
        else with_agent svc
  ]

-- findServicesForAgent, on the services of the agent's namespace
unfoldable pub find_services_for_agent : String → List ArkService → List String
find_services_for_agent name [] = []
find_services_for_agent name (svc ∷ rest) =
    let others = find_services_for_agent name rest in
    if svc.spec.selector.ark_agent == name then svc.meta.name ∷ others else others
