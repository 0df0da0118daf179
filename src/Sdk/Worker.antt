-- ===== src/Sdk/Worker.antt =====
-- sdk/golang/server.go: a consumer registers a handler for every topic, and answers the posts of the
-- bus. The handlers and the printing of responses as JSON are parameters.
pub mod Rounds
use pepperbus.Base.{List, [], ◌∷◌, ◌++◌, Bool, Option, none, some, if◌then◌else◌, not}
use pepperbus.Base.Int.{ℤ, pos}
use pepperbus.Base.Signed.{format_int}
use pepperbus.Base.Text.{Text, codes, text_eq}
use pepperbus.Base.Map.{Map, lookup, insert, is_some}
use pepperbus.HttpWorker.Post.{Post}

-- `Resp`; the data is nil, a text, or a value of a handler's.
pub data Data (D : Type 0) : Type 0 where
  no_data : Data D
  text : Text → Data D
  value : D → Data D

pub record Resp (D : Type 0) : Type 0 where
  pub error_code : ℤ
  pub code : ℤ
  pub content : Data D

-- `ExecSuccess`, `ExecFail` and `ExecNotFound`.
abbrev pub success : ℤ
success = pos 200

abbrev pub exec_fail : ℤ
exec_fail = pos 500

abbrev pub exec_not_found : ℤ
exec_not_found = pos 404

-- What is written: the headers "Code", "Error-code" and "Consume-Topics", and the body.
pub record Answer : Type 0 where
  pub code : Text
  pub error_code : Text
  pub consume_topics : Text
  pub body : Text

abbrev pub form_value : Text → Post → Text
form_value key post = elim (lookup key post.form) [ none ↦ [] | some v ↦ v ]

-- The name of a topic: "queue/topic".
abbrev pub name_of : Text → Text → Text
name_of queue topic = queue ++ (codes "/" ++ topic)

-- `RegisterJobHandler`; `none` is `log.Fatalf`.
unfoldable pub register_job_handler {ℓ} : {H : Type ℓ} → Text → Text → H → Map H → Option (Map H)
register_job_handler queue topic handler registered =
    if is_some (lookup (name_of queue topic) registered)
    then none
    else some (insert (name_of queue topic) handler registered)

-- The names, joined by commas, and each with a comma behind it. (In the order of the map, which Go
-- leaves open.)
unfoldable pub joined {ℓ} : {H : Type ℓ} → Map H → Text
joined [] = []
joined ((k, h) ∷ []) = k
joined ((k, h) ∷ e ∷ m) = k ++ (codes "," ++ joined (e ∷ m))

unfoldable pub listed {ℓ} : {H : Type ℓ} → Map H → Text
listed [] = []
listed ((k, h) ∷ m) = k ++ (codes "," ++ listed m)

module _ {H D : Type 0} (run : H → Post → Resp D) (marshal : Resp D → Option Text) where
  -- Code, error code and data of a response without a handler.
  abbrev pub plain_resp : ℤ → ℤ → Data D → Resp D
  plain_resp code error_code content = record {
    code = code;
    error_code = error_code;
    content = content;
  }

  abbrev pub not_found : Resp D
  not_found = plain_resp exec_not_found exec_not_found (text [])

  abbrev final : Resp D → Text → Text → Answer
  final resp topics body = record {
    code = format_int resp.code;
    error_code = format_int resp.error_code;
    consume_topics = topics;
    body = body;
  }

  abbrev pub handled : Option H → Post → Resp D
  handled none post = not_found
  handled (some handler) post = run handler post

  -- A response that is no JSON is a failure, with the JSON of a nil slice as its body.
  abbrev printed : Resp D → Option Text → Answer
  printed resp none = final (plain_resp exec_fail exec_fail no_data) [] (codes "null")
  printed resp (some body) = final resp [] body

  abbrev answer_data : Resp D → Answer
  answer_data resp = printed resp (marshal resp)

  -- The handler that `Serve` installs for a router with these handlers.
  unfoldable pub serve_post : Map H → Post → Answer
  unfolding format_int joined listed
  serve_post registered post =
      let okay = plain_resp success (pos 0) (text []) in
      let name = name_of (form_value (codes "queue") post) (form_value (codes "topic") post) in
      if not (text_eq post.bus_header (codes "true"))
      then final (plain_resp exec_fail exec_fail (text (codes "not invalid header"))) [] []
      else if text_eq (form_value (codes "type") post) (codes "ping")
      then final okay (joined registered) (listed registered)
      else if text_eq (form_value (codes "type") post) (codes "data")
      then answer_data (handled (lookup name registered) post)
      else final okay [] []
