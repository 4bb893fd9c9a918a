-- ===== src/Operator/History.antt =====
-- The life of a flow in the API server: what Reconcile writes, call after call, and what users edit.
-- Models internal/controller/arkflow_controller.go, Reconcile, as a step relation.
pub mod Final
pub mod Times
use agentops_operator.Prelude.{◌≡◌, Memᴰ}
use agentops_operator.Api.Meta.{ObjectMeta}
use agentops_operator.Api.Flow.{FlowSpec, FlowStatus, Flow}
use agentops_operator.Flow.External.{External}
use agentops_operator.Operator.Reconcile.{found, Cluster, reconcile}

-- One change of the stored flow: a status that a call of Reconcile sends, on whatever cluster it meets, or
-- an edit of the metadata and the specification, which leaves the status.
pub data Change (ext : External) : Flow → Flow → Type 0 where
  write :
      {f u : Flow} (c : Cluster)
      → c.flow ≡ found f
      → Memᴰ u (reconcile ext c).updates
      → Change ext f u
  edit : {f u : Flow} → u.status ≡ f.status → Change ext f u

-- Any number of changes.
pub data Later (ext : External) (f : Flow) : Flow → Type 0 where
  now : Later ext f f
  then_change : {u v : Flow} → Later ext f u → Change ext u v → Later ext f v
