-- ===== src/Operator/Services/Routes.antt =====
-- Where the services lead, and which are reconciled when an agent changes.
use agentops_operator.Prelude.{
  String, Option, List, [], ◌∷◌, ◌≡◌, ◌↔◌, ◌⊎◌, inl, inr, refl, Memᴰ, All, name_cases,
}
use agentops_operator.Api.Agent.{ArkAgent}
use agentops_operator.Api.Service.{ArkService}
use agentops_operator.Api.Settings.{ArkSettings, ArkMemory}
use agentops_operator.Operator.Agents.Reconcile.{AgentWorld, build_deployment}
use agentops_operator.Operator.Services.{ServiceWorld, build_service, find_services_for_agent}

-- Every label that the selector asks for is a label of the pods of the agent's Deployment.
pub build_service-selects :
    (w : ServiceWorld) (v : AgentWorld) (svc : ArkService) (a : ArkAgent)
    (settings : Option ArkSettings) (memory : Option ArkMemory) (prompt : String)
    → All
        (λ label. Memᴰ label (build_deployment v a settings memory prompt).labels)
        (build_service w svc a).selector
unfolding build_service build_deployment
build_service-selects w v svc a settings memory prompt =
    (Memᴰ.tail (Memᴰ.tail (Memᴰ.tail (Memᴰ.head refl))), tt)

-- The services that route to an agent of the name.
abbrev pub RoutesTo : String → String → List ArkService → Type 0
RoutesTo n name [] = ⊥
RoutesTo n name (svc ∷ rest) =
    ((n ≡ svc.meta.name) × (svc.spec.selector.ark_agent ≡ name)) ⊎ RoutesTo n name rest

-- A change of an agent wakes exactly the services whose selector names it.
pub find_services_for_agent-RoutesTo :
    (n name : String) (services : List ArkService)
    → Memᴰ n (find_services_for_agent name services) ↔ RoutesTo n name services
unfolding find_services_for_agent
find_services_for_agent-RoutesTo n name [] = (λ m. elim m [ ], λ r. absurd r)
find_services_for_agent-RoutesTo n name (svc ∷ rest) =
    let ih = find_services_for_agent-RoutesTo n name rest in
    elim (name_cases svc.spec.selector.ark_agent name) [
      | inl (e, b) ↦
          rw (b, find_services_for_agent)
            (
              λ m. elim m [ Memᴰ.head p ↦ inl (p, e) | Memᴰ.tail m' ↦ inr (ih.0 m') ],
              λ r. elim r [ inl (p, q) ↦ Memᴰ.head p | inr r' ↦ Memᴰ.tail (ih.1 r') ],
            )
      | inr (e, b) ↦
          rw (b, find_services_for_agent)
            (λ m. inr (ih.0 m), λ r. elim r [ inl (p, q) ↦ absurd (e q) | inr r' ↦ ih.1 r' ])
    ]
