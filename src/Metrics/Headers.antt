-- ===== src/Metrics/Headers.antt =====
-- proxy/metrics_monitor.go: `redactHeaders`, `filterAcceptEncoding`, and the headers of a capture.
use llama_swap.Base.{List, [], ◌∷◌, Option, none, some, Bool, if◌then◌else◌, ◌||◌}
use llama_swap.Base.Text.{Text, codes, text_eq, contains, split, join, trim_space}
use llama_swap.Base.Bytes.{to_lower}
use llama_swap.Base.Dict.{Dict, lookup}

-- `http.Header`.
abbrev pub Header : Type 0
Header = Dict (List Text)

-- `header.Get`: the first value, or "".
abbrev pub first_value : Option (List Text) → Text
first_value none = []
first_value (some []) = []
first_value (some (v ∷ vs)) = v

unfoldable pub get_header : Header → Text → Text
get_header h key = first_value (lookup key h)

-- The loops that copy the first value of each header.
abbrev pub put_first : Text → List Text → Dict Text → Dict Text
put_first key [] rest = rest
put_first key (v ∷ vs) rest = (key, v) ∷ rest

unfoldable pub first_values : Header → Dict Text
first_values [] = []
first_values ((key, values) ∷ h) = put_first key values (first_values h)

abbrev pub sensitive_headers : List Text
sensitive_headers =
    codes "authorization"
    ∷ codes "proxy-authorization"
    ∷ codes "cookie"
    ∷ codes "set-cookie"
    ∷ codes "x-api-key"
    ∷ []

unfoldable pub is_sensitive : Text → Bool
unfolding contains to_lower
is_sensitive key = contains sensitive_headers (to_lower key)

abbrev pub redacted : Text
redacted = codes "[REDACTED]"

unfoldable pub redact_headers : Dict Text → Dict Text
unfolding is_sensitive
redact_headers [] = []
redact_headers ((key, v) ∷ h) = (key, if is_sensitive key then redacted else v) ∷ redact_headers h

-- The name of one part of `Accept-Encoding`, without its quality.
abbrev pub first_part : List Text → Text
first_part [] = []
first_part (p ∷ ps) = p

unfoldable pub encoding_of : Text → Text
unfolding to_lower split trim_space
encoding_of part = to_lower (trim_space (first_part (split 59 part)))

unfoldable pub is_supported : Text → Bool
unfolding encoding_of text_eq
is_supported part =
    text_eq (encoding_of part) (codes "gzip") || text_eq (encoding_of part) (codes "deflate")

unfoldable pub supported_parts : List Text → List Text
unfolding is_supported
supported_parts [] = []
supported_parts (p ∷ parts) =
    let rest = supported_parts parts in if is_supported p then trim_space p ∷ rest else rest

unfoldable pub filter_accept_encoding : Text → Text
unfolding supported_parts
filter_accept_encoding [] = []
filter_accept_encoding (c ∷ s) = join (codes ", ") (supported_parts (split 44 (c ∷ s)))
