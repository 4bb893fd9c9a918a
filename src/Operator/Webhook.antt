-- ===== src/Operator/Webhook.antt =====
-- internal/controller/trigger_webhook_server.go: ServeHTTP up to the choice of the mode, with
-- bearerToken, validToken and parseSyncTimeout.
pub mod Access
pub mod Sync
pub mod Sse
use agentops_operator.Prelude.{
  ℕ, ◌*◌, String, Bool, true, false, ◌&&◌, Option, none, some, List, [], ◌∷◌, ◌==◌, if◌then◌else◌,
  ltb, length,
}
use Prim.Native.String.{◌++◌}
use text.Mathlib.Text.{starts_with}
use agentops_operator.Prelude.Text.{split_on, drop_bytes}
use agentops_operator.Prelude.Int64.{lt64}
use agentops_operator.Prelude.Maps.{lookup}
use agentops_operator.Api.Meta.{Message, format, end, wrap}
use agentops_operator.Api.Flow.{Flow}
use agentops_operator.Api.Event.{
  ArkEvent, EventStatus, EventTarget, TriggerSourceType, cron, webhook, pipeline_output,
  other_source,
}
use agentops_operator.Flow.Phase.{nanoseconds}
use agentops_operator.Operator.Reconcile.{Get, found, not_found, get_error}
use agentops_operator.Operator.Events.{FireContext, Surroundings}
use agentops_operator.Operator.Events.Fire.{Fired, fire}
use agentops_operator.Operator.Events.Trigger.{count_firing}
use agentops_operator.Operator.Events.Reconcile.{with_status}

-- http.Request, as far as the handler reads it; `authorization` is a header, and `body` what could be
-- read of at most 1 MiB.
pub record Request : Type 0 where
  pub method : String
  pub path : String
  pub authorization : String
  pub query : List (String × String)
  pub body : Option String

-- The server's surroundings besides those of `fire`: events and secrets by namespace and name, the
-- JSON decoder, and a key for the stream of tokens if Redis is configured.
pub record Server (Body : Type 0) : Type 0 where
  pub event : String → String → Get {0} ArkEvent
  pub secret : String → String → Get {0} (List (String × String))
  pub decode : String → Option Body
  pub stream_key : Option (String → String → String)

pub data Response : Type 0 where
  http_error : ℕ → Message → Response
  refuse : ℕ → String → Response
  accepted : (fired_at trigger : String) → (targets : ℕ) → Response
  wait_for : List Flow → Response
  stream : List Flow → String → Response

-- The answer, the flows that were created, and the events whose status is sent.
pub record Served : Type 0 where
  pub response : Response
  pub created : List Flow
  pub updates : List ArkEvent

abbrev refused : ℕ → String → Served
refused status text = record { response = refuse status text; created = []; updates = [] }

-- parts[1] and parts[2] of /triggers/{namespace}/{name}/fire
route : List String → Option (String × String)
route (a ∷ namespace ∷ name ∷ d ∷ []) =
    if a == "triggers" && d == "fire" then some (namespace, name) else none
route _ = none

unfoldable pub route_of : String → Option (String × String)
unfolding route split_on
route_of path = route (split_on b'/' (if starts_with path "/" then drop_bytes path 1 else path))

unfoldable pub bearer_token : String → String
bearer_token header = if starts_with header "Bearer " then drop_bytes header 7 else ""

value_or_empty : Option String → String
value_or_empty none = ""
value_or_empty (some s) = s

-- r.URL.Query().Get(key)
unfoldable pub query_value : String → Request → String
unfolding value_or_empty
query_value key r = value_or_empty (lookup key r.query)

unfoldable pub token_of : Request → String
token_of r =
    let token = bearer_token r.authorization in if token == "" then query_value "token" r else token

-- webhookTokenFromSecret; `none` is its error.
unfoldable pub stored_token : Get {0} (List (String × String)) → Option String
unfolding value_or_empty
stored_token (found data_map) = some (value_or_empty (lookup "token" data_map))
stored_token _ = none

matches : String → Option String → Bool
matches token none = false
matches token (some stored) = token == stored

abbrev is_webhook : TriggerSourceType → Bool
is_webhook webhook = true
is_webhook _ = false

module _ (w : Surroundings) (s : Server w.Body) where
  unfoldable pub valid_token : ArkEvent → String → Bool
  unfolding matches
  valid_token trigger token =
      if token == ""
      then false
      else matches token
          (stored_token (s.secret trigger.meta.namespace (trigger.meta.name ++ "-webhook-token")))

  body_of : Option String → Option w.Body
  body_of none = none
  body_of (some raw) = if raw == "" then none else s.decode raw

  stream_key_of : String → String → String → String
  stream_key_of mode namespace name =
      if mode == "sse" then elim s.stream_key [ none ↦ "" | some key ↦ key namespace name ] else ""

  respond : Request → String → ArkEvent → List Flow → Response
  respond r key trigger flows =
      let mode = query_value "mode" r in
      if mode == "sync"
      then wait_for flows
      else if mode == "sse"
      then stream flows key
      else accepted (w.rfc3339 w.now) trigger.meta.name (length trigger.spec.targets)

  after_fire : Request → String → ArkEvent → Fired → Served
  unfolding respond
  after_fire r key trigger fired = elim fired.error [
    | some e ↦ record {
      response = http_error 500 (format "fire failed: %v" (wrap e end));
      created = fired.created;
      updates = [];
    }
    | none ↦ record {
      response = respond r key trigger fired.created;
      created = fired.created;
      updates = with_status trigger (count_firing w.now trigger.status) ∷ [];
    }
  ]

  -- An authorized request.
  unfoldable pub serve_fire : Request → String → String → ArkEvent → Served
  unfolding after_fire stream_key_of body_of
  serve_fire r namespace name trigger =
      let key = stream_key_of (query_value "mode" r) namespace name in
      after_fire r key trigger (
        fire w trigger (record {
          name = trigger.meta.name;
          fired_at = w.rfc3339 w.now;
          output = "";
          body = body_of r.body;
          stream_key = key;
        }))

  unfoldable pub serve_event : Request → String → String → ArkEvent → Served
  serve_event r namespace name trigger =
      if is_webhook trigger.spec.source.type
      then if trigger.spec.suspended
        then refused 503 "trigger is suspended"
        else if valid_token trigger (token_of r)
        then serve_fire r namespace name trigger
        else refused 401 "unauthorized"
      else refused 400 "trigger is not of type webhook"

  unfoldable pub serve_named : Request → String → String → Served
  serve_named r namespace name =
      if r.method == "POST"
      then elim (s.event namespace name) [
        | found trigger ↦ serve_event r namespace name trigger
        | _ ↦ refused 404 "trigger not found"
      ]
      else refused 405 "method not allowed"

  unfoldable pub serve_http : Request → Served
  serve_http r = elim (route_of r.path) [
    | none ↦ refused 404 "not found"
    | some (namespace, name) ↦ serve_named r namespace name
  ]

or_minute : Option ℕ → ℕ
or_minute none = 60 * nanoseconds
or_minute (some d) = d

-- parseSyncTimeout. A duration is a bit pattern, and may be negative.
unfoldable pub parse_sync_timeout : (String → Option ℕ) → Request → ℕ
unfolding or_minute
parse_sync_timeout parse_duration r =
    let raw = query_value "timeout" r in
    let longest = 300 * nanoseconds in
    let timeout = if raw == "" then 60 * nanoseconds else or_minute (parse_duration raw) in
    if lt64 longest timeout then longest else timeout
