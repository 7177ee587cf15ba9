-- ===== src/Client.antt =====
-- `DistributedStorageClient` of frontend/src/api/client.ts: the options of a request, the request itself
-- and the errors it throws. Downloads and uploads are in the children. The `fetch` that the client is
-- given is not part of the repository: how a call of it ends is the argument of the part that awaits it.
pub mod Download
pub mod Upload
pub mod Disposition
pub mod Laws
pub mod Refusals
use distributed_file_storage.Prelude.{
  ℕ, String, Bool, true, false, ◌||◌, Option, none, some, List, [], ◌∷◌, ◌++◌, or_else, or_text,
  if◌then◌else◌, template, decimal, str_eq, ◌==◌,
}
use distributed_file_storage.Api.{
  ApiErrorResponse, ApiClientError, Thrown, api, error, other, Outcome, resolved, rejected,
}
use distributed_file_storage.Runtime.{Runtime, set_timeout, clear_timeout, new_controller}
use Prim.Native.String
use Prim.Native.Char.{Char, code}

pub record RequestOptions : Type 0 where
  pub base_url : Option String
  pub timeout_ms : Option ℕ
  pub signal : Option ℕ
  pub headers : List (String × String)
  pub method : Option String

pub record Client : Type 0 where
  pub base_url : String
  pub default_timeout_ms : ℕ

-- `new DistributedStorageClient(config)`, on the two settings that are values
unfoldable pub new : Option String → Option ℕ → Client
new base_url default_timeout_ms = record {
  base_url = or_else base_url "http://localhost:8000";
  default_timeout_ms = or_else default_timeout_ms 5000;
}

-- `baseUrl.endsWith('/') ? baseUrl.slice(0, -1) : baseUrl`
unfoldable pub normalized_base : String → String
normalized_base String.[] = ""
normalized_base (String.◌∷◌ c String.[]) = if code c == 47 then "" else String.◌∷◌ c ""
normalized_base (String.◌∷◌ c (String.◌∷◌ d s)) = String.◌∷◌ c (normalized_base (String.◌∷◌ d s))

-- ``path.startsWith('/') ? path : `/${path}` ``
unfoldable pub normalized_path : String → String
normalized_path String.[] = "/"
normalized_path (String.◌∷◌ c s) =
    if code c == 47 then String.◌∷◌ c s else String.◌∷◌ "/" (String.◌∷◌ c s)

unfoldable pub build_url : String → String → String
build_url base path = String.◌++◌ (normalized_base base) (normalized_path path)

-- What an answer of the server holds for the client. `error_body` is its JSON body where that is an
-- object, and `body` is how reading the payload ends.
pub record Response (T : Type 0) : Type 0 where
  pub ok : Bool
  pub status : ℕ
  pub status_text : String
  pub disposition : Option String
  pub error_body : Option ApiErrorResponse
  pub body : Outcome T

-- A request as it is handed to `fetch`, and the timer that aborts it.
pub record Sent : Type 0 where
  pub url : String
  pub method : String
  pub headers : List (String × String)
  pub controller : ℕ
  pub timer : ℕ
  pub timeout_ms : ℕ

-- The controller and the timer of a request. The caller's signal, where there is one, aborts the same
-- controller; what an abort does is part of how the fetch ends.
unfoldable pub send :
    {R : Type 0} → String → String → List (String × String) → ℕ → Runtime R → Sent × Runtime R
send url method headers timeout_ms rt =
    let (controller, rt₁) = new_controller rt in
    let (timer, rt₂) = set_timeout timeout_ms rt₁ in
    (
      record {
        url = url;
        method = method;
        headers = headers;
        controller = controller;
        timer = timer;
        timeout_ms = timeout_ms;
      },
      rt₂,
    )

-- `request` up to its first `await`.
unfoldable pub begin_request :
    {R : Type 0} → Client → String → RequestOptions → Runtime R → Sent × Runtime R
unfolding send
begin_request client path options rt =
    send (build_url (or_else options.base_url client.base_url) path) (or_else options.method "GET")
      (("Accept", "application/json") ∷ options.headers)
      (or_else options.timeout_ms client.default_timeout_ms) rt

abbrev pub detail_of : Option ApiErrorResponse → Option String
detail_of none = none
detail_of (some e) = e.detail

abbrev pub message_of : Option ApiErrorResponse → Option String
message_of none = none
message_of (some e) = e.message

abbrev error_of : Option ApiErrorResponse → Option String
error_of none = none
error_of (some e) = e.error

-- ``errorData?.detail || errorData?.message || errorData?.error || response.statusText || `HTTP ${…}` ``
unfoldable pub error_message : {T : Type 0} → Response T → String
error_message r = or_text (detail_of r.error_body) (
    or_text (message_of r.error_body) (
      or_text (error_of r.error_body)
        (or_text (some r.status_text) (template ("HTTP " ∷ decimal r.status ∷ [])))))

-- The error of an answer whose status is no success.
unfoldable pub status_error : {T : Type 0} → String → String → Response T → ApiClientError
status_error url message r = record {
  message =
      template
        ("Request to " ∷ url ∷ " failed with status " ∷ decimal r.status ∷ ": " ∷ message ∷ []);
  status = r.status;
  url = url;
  error_data = r.error_body;
}

-- An error of the client's own, for a request that the server did not answer.
abbrev pub own_error : String → ℕ → String → Thrown
own_error message status url =
    api (record { message = message; status = status; url = url; error_data = none })

-- The `catch` clause of `request`.
unfoldable pub request_error : Sent → Thrown → Thrown
request_error sent (api e) = api e
request_error sent (error name message) =
    if str_eq name "AbortError"
    then own_error
        (template
          ("Request to " ∷ sent.url ∷ " timed out after " ∷ decimal sent.timeout_ms ∷ "ms" ∷ []))
        408 sent.url
    else own_error (template ("Network request to " ∷ sent.url ∷ " failed: " ∷ message ∷ [])) 0
        sent.url
request_error sent other =
    own_error
      (template ("Network request to " ∷ sent.url ∷ " failed: " ∷ "Unknown network error" ∷ [])) 0
      sent.url

-- A `try` with a `catch` that throws again.
abbrev pub caught : {T : Type 0} → (Thrown → Thrown) → Outcome T → Outcome T
caught f (resolved x) = resolved x
caught f (rejected err) = rejected (f err)

-- The body of the `try`: the answer's payload, or the error of its status.
unfoldable pub answered : {T : Type 0} → String → Outcome (Response T) → Outcome T
unfolding error_message status_error
answered url (rejected err) = rejected err
answered url (resolved r) =
    if r.ok then r.body else rejected (api (status_error url (error_message r) r))

-- `request` from its first `await`, with the `finally` that clears the timer.
unfoldable pub finish_request :
    {R : Type 0} → {T : Type 0} → Sent → Outcome (Response T) → Runtime R → Outcome T × Runtime R
finish_request sent reply rt =
    (caught (request_error sent) (answered sent.url reply), clear_timeout sent.timer rt)

-- The calls that read, up to their `await`; `encode` is the browser's `encodeURIComponent`.
unfoldable pub begin_get_health :
    {R : Type 0} → Client → RequestOptions → Runtime R → Sent × Runtime R
unfolding begin_request
begin_get_health client = begin_request client "/health"

unfoldable pub begin_get_cluster_status :
    {R : Type 0} → Client → RequestOptions → Runtime R → Sent × Runtime R
unfolding begin_request
begin_get_cluster_status client = begin_request client "/cluster/status"

unfoldable pub begin_get_nodes :
    {R : Type 0} → Client → RequestOptions → Runtime R → Sent × Runtime R
unfolding begin_request
begin_get_nodes client = begin_request client "/nodes"

unfoldable pub begin_get_files :
    {R : Type 0} → Client → RequestOptions → Runtime R → Sent × Runtime R
unfolding begin_request
begin_get_files client = begin_request client "/files"

unfoldable pub begin_get_node_by_id :
    {R : Type 0}
    → (encode : String → String) → Client
    → String
    → RequestOptions
    → Runtime R
    → Sent × Runtime R
unfolding begin_request
begin_get_node_by_id encode client node_id options rt =
    begin_request client (template ("/nodes/" ∷ encode node_id ∷ [])) options rt

-- `deleteFile`
unfoldable pub begin_delete_file :
    {R : Type 0}
    → (encode : String → String) → Client
    → String
    → RequestOptions
    → Runtime R
    → Sent × Runtime R
unfolding begin_request
begin_delete_file encode client file_id options rt =
    begin_request client (template ("/files/" ∷ encode file_id ∷ []))
      (record options { method = some "DELETE" }) rt

-- `string | RequestOptions`
pub data BaseUrlOrOptions : Type 0 where
  base_url : String → BaseUrlOrOptions
  options : RequestOptions → BaseUrlOrOptions

-- `resolveOptions`; spreading options that are not there gives none.
unfoldable pub resolve_options :
    Option BaseUrlOrOptions → Option RequestOptions → Option RequestOptions
resolve_options none extra = none
resolve_options (some (options o)) extra = some o
resolve_options (some (base_url url)) none =
    some (record {
      base_url = some url;
      timeout_ms = none;
      signal = none;
      headers = [];
      method = none;
    })
resolve_options (some (base_url url)) (some extra) = some (record extra { base_url = some url })
