-- ===== src/Operator/Memories.antt =====
-- internal/controller/arkmemory_controller.go and arksettings_controller.go: the reconcilers that only
-- report whether a resource is valid.
pub mod Connection
use agentops_operator.Prelude.{
  ℕ, String, Option, none, some, List, [], ◌∷◌, ◌==◌, if◌then◌else◌, is_some,
}
use agentops_operator.Api.Meta.{
  Message, plain, format, end, str, ObjectMeta, Condition, ConditionStatus, condition_true,
  condition_false,
}
use agentops_operator.Api.Settings.{
  ArkMemory, ArkSettings, MemorySpec, ResourceStatus, RedisMemoryConfig, VectorStoreMemoryConfig,
}
use agentops_operator.Operator.Reconcile.{Get, found, not_found, get_error}

-- What a call meets: the resource, the reply to the status update, and apimachinery's
-- SetStatusCondition.
pub record ResourceWorld (A : Type 0) : Type 0 where
  pub resource : Get {0} A
  pub update_status : A → Option Message
  pub set_condition : List Condition → Condition → List Condition

-- The resources whose status is sent, and the error.
pub record ResourceOutcome (A : Type 0) : Type 0 where
  pub updates : List A
  pub error : Option Message

unfoldable pub validate_redis : Option RedisMemoryConfig → Option Message
validate_redis none = some (format "spec.redis is required when backend is %q" (str "redis" end))
validate_redis (some r) =
    if r.secret_ref == "" then some (plain "spec.redis.secretRef.name is required") else none

unfoldable pub validate_vector_store : Option VectorStoreMemoryConfig → Option Message
validate_vector_store none =
    some (format "spec.vectorStore is required when backend is %q" (str "vector-store" end))
validate_vector_store (some v) =
    if v.endpoint == "" then some (plain "spec.vectorStore.endpoint is required") else none

-- validate; `none` is no error.
unfoldable pub validate_memory : MemorySpec → Option Message
unfolding validate_redis validate_vector_store
validate_memory spec =
    if spec.backend == "redis"
    then validate_redis spec.redis
    else if spec.backend == "vector-store"
    then validate_vector_store spec.vector_store
    else none

-- The status with the generation and the Ready condition.
unfoldable pub report :
    (List Condition → Condition → List Condition)
    → ConditionStatus
    → String
    → Message
    → ObjectMeta
    → ResourceStatus
    → ResourceStatus
report set status reason message meta st = record st {
  observed_generation = meta.generation;
  conditions = set st.conditions (record {
    type = "Ready";
    status = status;
    observed_generation = meta.generation;
    last_transition_time = 0;
    reason = reason;
    message = message;
  });
}

unfoldable pub checked_memory :
    (List Condition → Condition → List Condition) → Option Message → ArkMemory → ArkMemory
unfolding report
checked_memory set (some e) m = record m {
  status = report set condition_false "InvalidSpec" e m.meta m.status;
}
checked_memory set none m = record m {
  status =
      report set condition_true "Accepted" (plain "ArkMemory is valid and available") m.meta
        m.status;
}

sent : {A : Type 0} → ResourceWorld A → A → ResourceOutcome A
sent w u = record { updates = u ∷ []; error = w.update_status u }

abbrev idle_outcome : {A : Type 0} → Option Message → ResourceOutcome A
idle_outcome e = record { updates = []; error = e }

unfoldable pub reconcile_memory : ResourceWorld ArkMemory → ResourceOutcome ArkMemory
unfolding sent checked_memory
reconcile_memory w = elim w.resource [
  | not_found ↦ idle_outcome none
  | get_error e ↦ idle_outcome (some e)
  | found m ↦
      if is_some m.meta.deleted
      then idle_outcome none
      else sent w (checked_memory w.set_condition (validate_memory m.spec) m)
]

unfoldable pub reconcile_settings : ResourceWorld ArkSettings → ResourceOutcome ArkSettings
unfolding sent report
reconcile_settings w = elim w.resource [
  | not_found ↦ idle_outcome none
  | get_error e ↦ idle_outcome (some e)
  | found s ↦
      if is_some s.meta.deleted
      then idle_outcome none
      else sent w (record s {
        status =
            report w.set_condition condition_true "Accepted"
              (plain "ArkSettings is valid and available") s.meta s.status;
      })
]
