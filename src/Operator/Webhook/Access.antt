-- ===== src/Operator/Webhook/Access.antt =====
-- Who may fire an event over HTTP.
use agentops_operator.Prelude.{
  String, true, false, some, [], ◌≡◌, ◌≢◌, sym, ◌∙◌, inl, inr, ◌⊎◌, arith, ap, Bool-cases,
  Option-cases, eq_iff, name_cases,
}
use Prim.Native.String.{◌++◌}
use agentops_operator.Api.Event.{ArkEvent, TriggerSourceType, webhook}
use agentops_operator.Operator.Reconcile.{found}
use agentops_operator.Operator.Reconcile.Guards.{Get-cases}
use agentops_operator.Operator.Events.{Surroundings}
use agentops_operator.Operator.Webhook.{
  Request, Server, Served, route_of, token_of, stored_token, matches, is_webhook, valid_token,
  serve_fire, serve_event, serve_named, serve_http,
}

module _ (w : Surroundings) (s : Server w.Body) where
  -- The request may fire the event: it is a POST to the path of an event of type webhook that exists
  -- and is not suspended, and it carries the token that the event's secret holds, which is not empty.
  pub record IsAuthorized (r : Request) (namespace name : String) (trigger : ArkEvent)
      : Type 0 where
    pub path : route_of r.path ≡ some (namespace, name)
    pub method : r.method ≡ "POST"
    pub exists : s.event namespace name ≡ found trigger
    pub type : trigger.spec.source.type ≡ webhook
    pub awake : trigger.spec.suspended ≡ false
    pub token_given : token_of r ≢ ""
    pub token_stored :
        stored_token (s.secret trigger.meta.namespace (trigger.meta.name ++ "-webhook-token"))
        ≡ some (token_of r)

  -- Nothing was created and no status was sent.
  abbrev pub DoesNothing : Served → Type 0
  DoesNothing x = (x.created ≡ []) × (x.updates ≡ [])

  valid_token_lem :
      (trigger : ArkEvent) (token : String)
      → valid_token w s trigger token ≡ true
      → (token ≢ "")
        × (stored_token (s.secret trigger.meta.namespace (trigger.meta.name ++ "-webhook-token"))
            ≡ some token)
  unfolding valid_token matches
  valid_token_lem trigger token h =
      elim (Option-cases
        (stored_token (s.secret trigger.meta.namespace (trigger.meta.name ++ "-webhook-token")))) [
          | inl e ↦ absurd (ground arith)
          | inr (stored, e) ↦ (
            λ empty. ground (arith, (eq_iff token "").1 empty),
            e ∙ ap some (sym ((eq_iff token stored).0 (ground arith))),
          )
        ]

  webhook_lem : (t : TriggerSourceType) → is_webhook t ≡ true → t ≡ webhook
  webhook_lem t h = ground arith

  -- A request fires the event that its path names only if it is authorized; any other request creates
  -- no flow and changes no status.
  pub serve_http-IsAuthorized :
      (r : Request)
      → DoesNothing (serve_http w s r)
        ⊎ ((namespace : String) × (name : String) × (trigger : ArkEvent) × IsAuthorized r namespace
              name trigger
            × (serve_http w s r ≡ serve_fire w s r namespace name trigger))
  unfolding serve_http serve_named serve_event
  serve_http-IsAuthorized r = elim (Option-cases (route_of r.path)) [
    | inl e ↦ inl (ground arith, ground arith)
    | inr ((namespace, name), e) ↦ elim (name_cases r.method "POST") [
      | inr (m, b) ↦ inl (ground arith, ground arith)
      | inl (m, b) ↦ elim (Get-cases (s.event namespace name)) [
        | inr (inl g) ↦ inl (ground arith, ground arith)
        | inr (inr (msg, g)) ↦ inl (ground arith, ground arith)
        | inl (trigger, g) ↦ elim (Bool-cases (is_webhook trigger.spec.source.type)) [
          | inr t ↦ inl (ground arith, ground arith)
          | inl t ↦ elim (Bool-cases trigger.spec.suspended) [
            | inl z ↦ inl (ground arith, ground arith)
            | inr z ↦ elim (Bool-cases (valid_token w s trigger (token_of r))) [
              | inr v ↦ inl (ground arith, ground arith)
              | inl v ↦
                  let (given, stored) = valid_token_lem trigger (token_of r) v in
                  inr (
                    namespace,
                    name,
                    trigger,
                    record {
                      path = e;
                      method = m;
                      exists = g;
                      type = webhook_lem trigger.spec.source.type t;
                      awake = z;
                      token_given = given;
                      token_stored = stored;
                    },
                    ground arith,
                  )
            ]
          ]
        ]
      ]
    ]
  ]
