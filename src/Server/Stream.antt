-- ===== src/Server/Stream.antt =====
-- The server over the chunks of a sequence of frames.
use debugger_dap.Common.{
  ◌≡◌, refl, sym, ap, ◌∙◌, true, List, [], ◌∷◌, ◌++◌, Option, String, All, concat, map,
  append_assoc, append-nil,
}
use debugger_dap.Common.Int.{ℤ}
use debugger_dap.Text.{Text, codes}
use debugger_dap.Json.{Node}
use debugger_dap.Rpc.{Host, HostLaws, Run, after_chunk, stream}
use debugger_dap.Rpc.Stream.{
  Carried, IsWaiting, IsWaiting-nil, done_run, Progress-stream, waiting_done,
}
use debugger_dap.Protocol.{Message, is_registered, pool, request}
use debugger_dap.Protocol.Requests.{with_arguments}
use debugger_dap.Protocol.RoundTrip.{request_message, from_json-with_arguments}
use debugger_dap.Server.{read_text, handed, check, checks}

-- A request: its number, its command and the tree of its arguments.
pub record Request : Type 0 where
  pub seq : ℤ
  pub command : String
  pub arguments : Node

-- The command is one of those that are registered.
abbrev pub IsKnown : Request → Type 0
IsKnown r = is_registered (codes r.command) (pool request) ≡ true

module _ (host : Host) (parse : Text → Option Node) (laws : HostLaws host) where
  checks_waiting :
      (values : List Node) (payloads : List Text) (b : Text) (contents : List (Option Text))
      → Carried host parse values payloads
      → b ++ concat (map read_text contents) ≡ stream payloads
      → IsWaiting host parse b payloads
      → checks host parse true b contents ≡ done_run host parse values []
  unfolding checks check after_chunk
  checks_waiting values payloads b [] c e w =
      let (none_left, empty) =
        waiting_done host parse values payloads b c (sym (append-nil b) ∙ e) w in
      rw (none_left, empty) refl
  checks_waiting values payloads b (content ∷ contents) c e w =
      let missing = concat (map read_text contents) in
      let p =
        Progress-stream host parse laws values payloads (b ++ read_text content) missing c
          (append_assoc b (read_text content) missing ∙ e) in
      let later = checks_waiting p.later p.ahead p.rest contents p.carried p.remains p.waits in
      rw (p.run) (rw later (ap (λ v. done_run host parse v []) (sym p.splits)))

  -- The trees of the requests that the other side writes.
  abbrev pub request_trees : List Request → List Node
  request_trees [] = []
  request_trees (r ∷ rest) = with_arguments r.seq r.command r.arguments ∷ request_trees rest

  abbrev pub request_messages : List Request → List Message
  request_messages [] = []
  request_messages (r ∷ rest) = request_message r.seq r.command ∷ request_messages rest

  handed-request_trees :
      (requests : List Request)
      → All IsKnown requests
      → handed (request_trees requests) ≡ request_messages requests
  unfolding handed
  handed-request_trees [] h = refl
  handed-request_trees (r ∷ rest) h =
      rw (from_json-with_arguments r.seq r.command r.arguments h.0, handed-request_trees rest h.1)
        refl

  -- Under HostLaws, however the bytes of the frames of requests are read, between calls of Check
  -- that read nothing, the handler gets exactly one message for each request, in order, with its
  -- command and its number, and no bytes are left, where each command is registered as a request
  -- and each payload is not empty, is parsed to the tree of its request, and has a frame whose
  -- length is a `long`.
  pub checks-requests :
      (requests : List Request) (payloads : List Text) (contents : List (Option Text))
      → All IsKnown requests
      → Carried host parse (request_trees requests) payloads
      → concat (map read_text contents) ≡ stream payloads
      → (handed (checks host parse true [] contents).messages ≡ request_messages requests)
        × ((checks host parse true [] contents).buffer ≡ [])
  checks-requests requests payloads contents h c e =
      let done =
        checks_waiting (request_trees requests) payloads [] contents c e
          (IsWaiting-nil host parse laws payloads) in
      (
        ap (λ r. let q : Run Node = r in handed q.messages) done ∙ handed-request_trees requests h,
        ap (λ r. let q : Run Node = r in q.buffer) done,
      )
