-- ===== src/Response.antt =====
-- cgi.go: the answer of a worker and its codes, as the CGI and the HTTP transport return it.
pub mod Request
pub mod Cgi
pub mod Status
use pepperbus.Base.{Bool, ◌++◌}
use pepperbus.Base.Text.{Text, codes, text_eq}

pub record WorkerResponse : Type 0 where
  pub code : Text
  pub error_code : Text
  pub consume_topics : Text
  pub msg : Text

abbrev pub response_success : Text
response_success = codes "200"

abbrev pub response_not_found : Text
response_not_found = codes "404"

abbrev pub inner_error : Text
inner_error = codes "500"

abbrev pub bad_gateway : Text
bad_gateway = codes "502"

unfoldable pub is_success : WorkerResponse → Bool
is_success r = text_eq r.code response_success

-- `WorkerResponse.String`.
unfoldable pub to_string : WorkerResponse → Text
to_string r =
    codes "worker execute Code: "
    ++ (r.code ++ (codes ", ErrorCode: " ++ (r.error_code ++ (codes ", Msg: " ++ r.msg))))

-- What a `RemoteSender` returns: a response, or an error with its message.
pub data Sent : Type 0 where
  answered : WorkerResponse → Sent
  failed : Text → Sent
