-- ===== src/Webhook/Hub/WebhookCall.antt =====
-- `validateWebhookCall` and `isValidURL` of internal/webhook/v1/mdaihub_webhook.go. Header names are
-- lists of code points; `canonical_header` is textproto.CanonicalMIMEHeaderKey of Go's library.
use Prim.Native.String
use mdai_operator.Prelude.{
  ℕ, ◌+◌, ◌-◌, String, List, [], ◌∷◌, ◌++◌, Option, none, some, Bool, true, false, not, ◌&&◌, ◌||◌,
  ◌==◌, member, leb, eqb, trim_space, codes, Dict, if◌then◌else◌,
}
use mdai_operator.Field.{
  FieldPath, child, key, quoted, FieldError, required, invalid, not_supported, forbidden,
}
use mdai_operator.Api.{CallWebhookAction}
use mdai_operator.Webhook.External.{Url, Parsers}

abbrev pub allowed_http : List String
allowed_http = "GET" ∷ "POST" ∷ "PUT" ∷ "PATCH" ∷ "DELETE" ∷ []

abbrev pub forbidden_headers : List String
forbidden_headers = "Host" ∷ "Content-Length" ∷ "Transfer-Encoding" ∷ []

is_lower : ℕ → Bool
is_lower c = leb b'a' c && leb c b'z'

is_upper : ℕ → Bool
is_upper c = leb b'A' c && leb c b'Z'

elem : ℕ → List ℕ → Bool
elem c [] = false
elem c (d ∷ ds) = eqb d c || elem c ds

-- A token character of a header field name.
is_token : ℕ → Bool
unfolding is_lower is_upper elem
is_token c =
    is_lower c || is_upper c || (leb b'0' c && leb c b'9') || elem c (codes "!#$%&'*+-.^_`|~")

all_token : List ℕ → Bool
unfolding is_token
all_token [] = true
all_token (c ∷ cs) = is_token c && all_token cs

-- One byte: the first letter of a word is raised, the others are lowered.
canonical_byte : Bool → ℕ → ℕ
unfolding is_lower is_upper
canonical_byte true c = if is_lower c then c - 32 else c
canonical_byte false c = if is_upper c then c + 32 else c

canonical_from : Bool → List ℕ → List ℕ
unfolding canonical_byte
canonical_from upper [] = []
canonical_from upper (c ∷ cs) = canonical_byte upper c ∷ canonical_from (eqb c b'-') cs

unfoldable pub canonical_header : List ℕ → List ℕ
unfolding all_token canonical_from
canonical_header name = if all_token name then canonical_from true name else name

same_codes : List ℕ → List ℕ → Bool
same_codes [] [] = true
same_codes (c ∷ cs) (d ∷ ds) = eqb c d && same_codes cs ds
same_codes _ _ = false

-- The managed header that a canonical name is, if any.
managed_header : List ℕ → List String → Option String
unfolding same_codes
managed_header name [] = none
managed_header name (h ∷ hs) = if same_codes name (codes h) then some h else managed_header name hs

header_error : FieldPath → String → Option String → List FieldError
header_error path name none = []
header_error path name (some managed) =
    forbidden (key (child path "headers") name) (
      String.◌++◌ "header \"" (String.◌++◌ managed "\" is managed by the client and cannot be set"))
    ∷ []

header_errors : FieldPath → Dict String → List FieldError
unfolding header_error managed_header canonical_header
header_errors path [] = []
header_errors path ((name, value) ∷ headers) =
    header_error path name (managed_header (canonical_header (codes name)) forbidden_headers)
    ++ header_errors path headers

method_errors : FieldPath → String → List FieldError
unfolding member
method_errors path method =
    if method == ""
    then []
    else if member method allowed_http
    then []
    else not_supported (child path "method") method allowed_http ∷ []

-- The checks on a payload template that is there.
payload_errors : FieldPath → CallWebhookAction → List FieldError
payload_errors path call =
    (if call.template_ref == "slackAlertTemplate"
      then forbidden (child path "payloadTemplate")
          "must be empty when templateRef=slackAlertTemplate"
        ∷ []
      else [])
    ++ (if call.method == ""
        then []
        else if call.method == "POST"
        then []
        else invalid (child path "method") (quoted call.method) "payloadTemplate requires POST"
          ∷ [])

template_errors : FieldPath → CallWebhookAction → List FieldError
unfolding payload_errors
template_errors path call = elim call.payload_template [
  | some _ ↦ payload_errors path call
  | none ↦
      if call.template_ref == "jsonTemplate"
      then required (child path "payloadTemplate") "required when templateRef=jsonTemplate" ∷ []
      else []
]

module _ (parsers : Parsers) where
  open parsers use {request_uri}

  is_absolute_http : Option Url → Bool
  is_absolute_http none = false
  is_absolute_http (some u) =
      if u.scheme == "http" || u.scheme == "https" then not (u.host == "") else false

  unfoldable pub is_valid_url : String → Bool
  unfolding is_absolute_http
  is_valid_url s = is_absolute_http (request_uri s)

  url_errors : FieldPath → Option String → List FieldError
  unfolding is_valid_url trim_space
  url_errors path none = []
  url_errors path (some value) =
      let endpoint = trim_space value in
      if endpoint == ""
      then required (child path "url") "required" ∷ []
      else if is_valid_url endpoint
      then []
      else invalid (child path "url") (quoted endpoint) "must be an absolute http(s) URL" ∷ []

  unfoldable pub validate_webhook_call : FieldPath → CallWebhookAction → List FieldError
  unfolding url_errors method_errors template_errors header_errors
  validate_webhook_call path call =
      url_errors path call.url.value
      ++ (method_errors path call.method
          ++ (template_errors path call ++ header_errors path call.headers))
