-- ===== src/Mcp/Server/Replies.antt =====
-- Which messages src/gateway/mcp.rs answers, and to whom.
use serica.Prelude.{
  ◌≡◌, refl, sym, ◌∙◌, ◌≢◌, ◌⊎◌, inl, inr, true, false, Option, none, some, [], Bool-cases, Text,
  text, text_eq, text_eq_iff,
}
use serica.Config.{Config}
use serica.Metrics.{MetricsCollector}
use serica.Extract.Pipeline.{Store, Weather}
use serica.Json.{Json, null}
use serica.Mcp.{Rpc, done, refused}
use serica.Mcp.Server.{
  dispatch, respond, JsonRpcRequest, Parsed, request, malformed, JsonRpcResponse, McpEnv, Outcome,
  silent, reply, handle_parsed, handle_message,
}

pub respond-id : (id : Json) (body : Rpc Json) → (respond id body).id ≡ id
unfolding respond
respond-id id (done result) = refl
respond-id id (refused e) = refl

module _ (env : McpEnv) (config : Config) (weather : Weather) (store : Store) where
  open env use {parse}

  -- Messages that are not answered: those without an id, and whatever has this method, with an id or
  -- without.
  abbrev pub IsUnasked : JsonRpcRequest → Type 0
  IsUnasked r = (r.id ≡ none) ⊎ (r.method ≡ text "notifications/initialized")

  -- Whether a message is answered, and by which id. No two of the cases hold of one message.
  pub data IsAnswered (metrics : MetricsCollector)
      : Parsed → Outcome env config weather store → Type 0 where
    unread :
        {e : Text} {o : Outcome env config weather store} {r : JsonRpcResponse}
        → o.response ≡ some r
        → r.id ≡ null
        → o.writes ≡ []
        → IsAnswered metrics (malformed e) o
    unanswered :
        {q : JsonRpcRequest} {o : Outcome env config weather store}
        → IsUnasked q
        → o ≡ silent env config weather store metrics
        → IsAnswered metrics (request q) o
    answered :
        {q : JsonRpcRequest} {o : Outcome env config weather store} {r : JsonRpcResponse}
        {id : Json}
        → ¬ IsUnasked q
        → q.id ≡ some id
        → o.response ≡ some r
        → r.id ≡ id
        → IsAnswered metrics (request q) o

  reply-IsAnswered :
      (metrics : MetricsCollector) (q : JsonRpcRequest) (id : Option Json)
      → q.id ≡ id
      → q.method ≢ text "notifications/initialized"
      → IsAnswered metrics (request q) (reply env config weather store metrics q id)
  unfolding reply
  reply-IsAnswered metrics q none e other = unanswered (inl e) refl
  reply-IsAnswered metrics q (some id) e other =
      answered
        (λ n. elim n [
          | inl no_id ↦ let clash : none ≡ some id = sym no_id ∙ e in cc clash
          | inr same ↦ other same
        ])
        e refl (respond-id id (dispatch env config weather store metrics q).body)

  parsed-IsAnswered :
      (metrics : MetricsCollector) (p : Parsed)
      → IsAnswered metrics p (handle_parsed env config weather store metrics p)
  unfolding handle_parsed respond
  parsed-IsAnswered metrics (malformed e) = unread refl refl refl
  parsed-IsAnswered metrics (request q) =
      elim (Bool-cases (text_eq q.method (text "notifications/initialized"))) [
        | inl e ↦ rw e (unanswered (inr ((text_eq_iff _ _).0 e)) refl)
        | inr e ↦ rw e (
            reply-IsAnswered metrics q q.id refl
              (λ same. let clash : true ≡ false = sym ((text_eq_iff _ _).1 same) ∙ e in cc clash))
      ]

  -- A message that cannot be read is answered under a null id and writes nothing to the cache. One that
  -- is read is not answered, and has no effect, just if it has no id or its method is
  -- `notifications/initialized`, even with an id; any other one is answered under its own id.
  pub handle_message-IsAnswered :
      (metrics : MetricsCollector) (line : Text)
      → IsAnswered metrics (parse line) (handle_message env config weather store metrics line)
  unfolding handle_message
  handle_message-IsAnswered metrics line = parsed-IsAnswered metrics (parse line)
