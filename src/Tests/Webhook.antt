-- ===== src/Tests/Webhook.antt =====
-- Requests to the webhook server.
use agentops_operator.Prelude.{String, none, some, [], ◌∷◌, ◌≡◌, refl, ◌⊎◌}
use agentops_operator.Api.Event.{ArkEvent, webhook}
use agentops_operator.Operator.Reconcile.{found}
use agentops_operator.Prelude.Text.{split_on, drop_bytes}
use agentops_operator.Prelude.Maps.{lookup}
use agentops_operator.Operator.Events.Fire.{
  fire, has_running_flow, build_flow, dispatch, any_running, resolve_input,
  resolve_trigger_template,
}
use agentops_operator.Operator.Webhook.{
  Request, Server, accepted, refuse, serve_http, serve_fire, route_of, serve_named, serve_event,
  token_of, bearer_token, valid_token, stored_token, query_value,
}
use agentops_operator.Operator.Webhook.Access.{IsAuthorized, DoesNothing, serve_http-IsAuthorized}
use agentops_operator.Tests.Events.{surroundings, event}

abbrev server : Server String
server = record {
  event = λ namespace name. found (event webhook);
  secret = λ namespace name. found (("token", "00ff") ∷ []);
  decode = λ raw. some raw;
  stream_key = none;
}

abbrev post : Request
post = record {
  method = "POST";
  path = "/triggers/default/nightly/fire";
  authorization = "Bearer 00ff";
  query = [];
  body = some "{}";
}

serve_http-IsAuthorized_example :
    DoesNothing surroundings server (serve_http surroundings server post)
    ⊎ ((namespace : String) × (name : String) × (trigger : ArkEvent) × IsAuthorized surroundings
          server post namespace name trigger
        × (serve_http surroundings server post
            ≡ serve_fire surroundings server post namespace name trigger))
serve_http-IsAuthorized_example = serve_http-IsAuthorized surroundings server post

abbrev forged : Request
forged = record post { authorization = "Bearer 00fe" }

posted : (serve_http surroundings server post).response ≡ accepted "now" "nightly" 1
unfolding serve_http route_of split_on drop_bytes serve_named serve_event token_of bearer_token
    valid_token stored_token lookup serve_fire query_value fire has_running_flow build_flow dispatch
    any_running resolve_input resolve_trigger_template
posted = refl

turned_away : (serve_http surroundings server forged).response ≡ refuse 401 "unauthorized"
unfolding serve_http route_of split_on drop_bytes serve_named serve_event token_of bearer_token
    valid_token stored_token lookup
turned_away = refl
