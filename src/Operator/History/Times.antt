-- ===== src/Operator/History/Times.antt =====
-- The times of the statuses over the life of a flow.
use agentops_operator.Prelude.{[], ◌≡◌, sym, subst, All, All-mem}
use agentops_operator.Api.Flow.{FlowStatus, Flow}
use agentops_operator.Flow.External.{External}
use agentops_operator.Flow.Status.Times.{IsTimed}
use agentops_operator.Operator.Reconcile.{found}
use agentops_operator.Operator.Reconcile.Timed.{HasTimes, reconcile-HasTimes}
use agentops_operator.Operator.History.{Change, write, edit, Later, now, then_change}

module _ (ext : External) where
  Change-HasTimes : {f u : Flow} → Change ext f u → HasTimes f → HasTimes u
  Change-HasTimes (write {f} {u} c e m) h =
      All-mem HasTimes (reconcile-HasTimes ext c (λ g p. subst HasTimes (same_flow f g e p) h)) m
    where
      same_flow : (f g : Flow) → c.flow ≡ found f → c.flow ≡ found g → f ≡ g
      same_flow f g a b = cc
  Change-HasTimes (edit same) h = subst (λ (s : FlowStatus). All IsTimed s.steps) (sym same) h

  -- However often a flow is reconciled, on whatever clusters, and its specification is edited: if it
  -- started with no statuses, every Running step has a start time, and every Succeeded step a start
  -- time and a completion time.
  pub Later-HasTimes : {f u : Flow} → Later ext f u → f.status.steps ≡ [] → HasTimes u
  Later-HasTimes now fresh = subst (All IsTimed) (sym fresh) tt
  Later-HasTimes (then_change l c) fresh = Change-HasTimes c (Later-HasTimes l fresh)
