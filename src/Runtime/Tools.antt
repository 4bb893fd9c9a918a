-- ===== src/Runtime/Tools.antt =====
-- internal/agent/mcp/mcp.go: the discovery of tools on MCP servers, and calls of them.
use Prim.Native.String.{◌++◌}
use agentops_operator.Prelude.{
  ℕ, String, Option, none, some, List, [], ◌∷◌, map, ◌==◌, if◌then◌else◌, eqb,
}
use mathlib.Core.List as List
use agentops_operator.Api.Meta.{Message, format, end, str, num, wrap, Result, ok, err}
use agentops_operator.Runtime.Config.{McpServerConfig}

-- Raw JSON is kept as its text.
pub record Tool : Type 0 where
  pub name : String
  pub description : String
  pub input_schema : String
  pub server_url : String
  pub original_name : String

-- What comes of an HTTP request: an error before a reply, or a status and the body, if it could be
-- read.
pub data HttpReply : Type 0 where
  no_reply : Message → HttpReply
  http_reply : (status : ℕ) → (body : Result String) → HttpReply

-- One tool of the reply to tools/list, and one part of the reply to tools/call
pub record ListedTool : Type 0 where
  pub name : String
  pub description : String
  pub input_schema : String

pub record Content : Type 0 where
  pub type : String
  pub text : String

-- The JSON that is exchanged with the servers.
pub record ToolCodec : Type 0 where
  pub listed : String → Result (List ListedTool)
  pub contents : String → Result (List Content)
  pub call_body : (original_name input : String) → Result String

-- Requests change the state of what they reach: `S` is that state. A request has a method, a URL and
-- a JSON body, or none; `valid` is what http.NewRequestWithContext checks.
pub record Network (S : Type 0) : Type 0 where
  pub send : (method url : String) → Option String → S → HttpReply
  pub after : (method url : String) → Option String → S → S
  pub valid : (method url : String) → Option Message

named_tool : McpServerConfig → ListedTool → Tool
named_tool server t = record {
  name = server.name ++ "__" ++ t.name;
  description = t.description;
  input_schema = t.input_schema;
  server_url = server.url;
  original_name = t.name;
}

decoded_tools : McpServerConfig → Result (List ListedTool) → Result (List Tool)
unfolding named_tool
decoded_tools server (err e) = err (format "decoding tools/list response: %w" (wrap e end))
decoded_tools server (ok ts) = ok (map (named_tool server) ts)

read_body : {A : Type 0} → (String → Result A) → Result String → Result A
read_body decode (ok s) = decode s
read_body decode (err e) = err e

first_text : List Content → String
first_text [] = ""
first_text (c ∷ cs) = let rest = first_text cs in if c.type == "text" then c.text else rest

-- How a reply to tools/call reads.
answer_of : ToolCodec → HttpReply → Result String
unfolding read_body first_text
answer_of codec (no_reply e) = err (format "tools/call request failed: %w" (wrap e end))
answer_of codec (http_reply status body) = elim (read_body codec.contents body) [
  | ok cs ↦ ok (first_text cs)
  | err e ↦ err (format "decoding tools/call response: %w" (wrap e end))
]

listing : ToolCodec → McpServerConfig → HttpReply → Result (List Tool)
unfolding decoded_tools read_body
listing codec server (no_reply e) = err (format "tools/list request failed: %w" (wrap e end))
listing codec server (http_reply status body) =
    if eqb status 200
    then decoded_tools server (read_body codec.listed body)
    else err (format "tools/list returned status %d" (num status end))

find_tool : String → List Tool → Option Tool
find_tool name [] = none
find_tool name (t ∷ ts) = let rest = find_tool name ts in if t.name == name then some t else rest

module _ {S : Type 0} (codec : ToolCodec) (net : Network S) where
  unfoldable pub discover_tools : McpServerConfig → S → Result (List Tool) × S
  unfolding listing
  discover_tools server s =
      let url = server.url ++ "/tools/list" in
      (listing codec server (net.send "POST" url none s), net.after "POST" url none s)

  -- NewManager: the tools of all servers, or the error of the first that fails.
  unfoldable pub new_manager : List McpServerConfig → List Tool → S → Result (List Tool) × S
  new_manager [] tools s = (ok tools, s)
  new_manager (server ∷ servers) tools s =
      let (found, s') = discover_tools server s in
      elim found [
        | ok ts ↦ new_manager servers (List.◌++◌ tools ts) s'
        | err e ↦ (
          err (
              format "failed to discover tools from MCP server %q: %w"
                (str server.name (wrap e end))),
          s',
        )
      ]

  -- The request of Manager.CallTool, for a tool that was found.
  unfoldable pub call_server : Tool → String → S → Result String × S
  unfolding answer_of
  call_server t input s = elim (codec.call_body t.original_name input) [
    | err e ↦ (err (format "marshalling tool call: %w" (wrap e end)), s)
    | ok body ↦
        let url = t.server_url ++ "/tools/call" in
        elim (net.valid "POST" url) [
          | some e ↦ (err e, s)
          | none ↦ (
            answer_of codec (net.send "POST" url (some body) s),
            net.after "POST" url (some body) s,
          )
        ]
  ]

  unfoldable pub call_mcp_tool : List Tool → String → String → S → Result String × S
  unfolding find_tool call_server
  call_mcp_tool tools name input s = elim (find_tool name tools) [
    | some t ↦ call_server t input s
    | none ↦ (err (format "tool %q not found in any MCP server" (str name end)), s)
  ]
