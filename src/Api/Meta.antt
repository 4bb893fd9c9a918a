-- ===== src/Api/Meta.antt =====
-- Parts of the Kubernetes object model that the resources carry: metadata, conditions, and the
-- texts of messages and errors.
use agentops_operator.Prelude.{ℕ, String, Option, List}

-- A formatted text is kept as its format and its arguments: `fmt.Sprintf` is not run.
mutual
  pub data Message : Type 0 where
    plain : String → Message
    format : String → Args → Message

  pub data Args : Type 0 where
    end : Args
    str : String → Args → Args
    num : ℕ → Args → Args
    wrap : Message → Args → Args

pub data Result {ℓ} (A : Type ℓ) : Type ℓ where
  ok : A → Result A
  err : Message → Result A

-- metav1.ConditionStatus
pub data ConditionStatus : Type 0 where
  condition_true condition_false condition_unknown : ConditionStatus

-- metav1.Condition; a time is a number of nanoseconds.
pub record Condition : Type 0 where
  pub type : String
  pub status : ConditionStatus
  pub observed_generation : ℕ
  pub last_transition_time : ℕ
  pub reason : String
  pub message : Message

-- metav1.ObjectMeta, as far as the program reads it. `deleted` is a set deletion timestamp.
pub record ObjectMeta : Type 0 where
  pub name : String
  pub namespace : String
  pub generation : ℕ
  pub annotations : List (String × String)
  pub labels : List (String × String)
  pub deleted : Option ℕ
