-- ===== src/Tests/Inference.antt =====
-- proxy/proxymanager.go, `proxyInferenceHandler`, on concrete inputs.
use llama_swap.Base.{
  ℕ, zero, suc, List, ◌++◌, ◌≡◌, refl, sym, ap, ◌∙◌, inl, inr, [], ◌∷◌, Option, none, some, Bool,
  true, false, if◌then◌else◌, ◌||◌, arith, Bool-cases,
}
use llama_swap.Base.Text.{Text, codes, text_eq, text_eq_iff, split, trim_space, trim_left, contains}
use llama_swap.Base.Dict.{lookup}
use llama_swap.Base.Sort.{sort_texts, insert_sorted}
use llama_swap.Config.Types.{Value, str, scalar, null, array, mapping, ModelConfig}
use llama_swap.Config.Filters.{
  clean_params, clean_param, unprotected, sanitized_strip_params, sanitized_set_params,
}
use llama_swap.Group.Requests.{calm_stop}
use llama_swap.Manager.Routes.{Manager, Target, local_process}
use llama_swap.Manager.Bodies.{BodyJson, Documented, filters_of, rewrite_body}
use llama_swap.Manager.Fields.{PlainFilters, sent_value, get-rewrite_body}
use llama_swap.Manager.Inference.{Request, Outside, proxy_inference_handler}
use llama_swap.Manager.Answers.{InferenceEnd, proxy_inference_handler-InferenceEnd}
use llama_swap.Manager.Forms.{Part, field, file, FormRequest, proxy_oai_post_form_handler}
use llama_swap.Manager.Copied.{FormEnd, proxy_oai_post_form_handler-FormEnd}
use llama_swap.Tests.Configs.{model}
use llama_swap.Tests.Managers.{config, two_groups}
use llama_swap.Tests.Metrics.{gjson, recorded, monitor}

-- A body of two bytes: one for the field `model`, one for the field `t`, 0 where the field is not
-- there. Other values and names are refused.
abbrev value_of : ℕ → Option Value
value_of zero = none
value_of (suc c) = some (str (suc c ∷ []))

abbrev get_byte : Text → Text → Option Value
get_byte (x ∷ (y ∷ [])) k =
    if text_eq k (codes "model")
    then value_of x
    else if text_eq k (codes "t")
    then value_of y
    else none
get_byte _ k = none

abbrev put_byte : ℕ → Text → Text → Option Text
put_byte c (x ∷ (y ∷ [])) k =
    if text_eq k (codes "model")
    then some (c ∷ (y ∷ []))
    else if text_eq k (codes "t")
    then some (x ∷ (c ∷ []))
    else none
put_byte c _ k = none

abbrev set_byte : Text → Text → Value → Option Text
set_byte b k (str (suc c ∷ [])) = put_byte (suc c) b k
set_byte b k _ = none

abbrev string_of : Option Value → Text
string_of (some (str s)) = s
string_of _ = []

abbrev bytes : BodyJson
bytes = record {
  get = get_byte;
  string = string_of;
  bool = λ v. false;
  set = set_byte;
  delete = put_byte 0;
}

abbrev plain : Text → Bool
plain k = text_eq k (codes "model") || text_eq k (codes "t")

abbrev get_in : Option Text → Text → Option Value
get_in none n = none
get_in (some b) n = get_byte b n

get-put_byte :
    (c : ℕ) (b k n : Text) {d : Text}
    → put_byte c b k ≡ some d
    → get_byte d n ≡ (if text_eq k n then value_of c else get_byte b n)
get-put_byte c (x ∷ (y ∷ [])) k n e =
    sym (ap (λ o. get_in o n) e) ∙ elim (Bool-cases (text_eq k (codes "model"))) [
      | inl at_model ↦ rw at_model (
          ground (
            arith,
            at_model,
            text_eq_iff k (codes "model"),
            text_eq_iff k n,
            text_eq_iff n (codes "model"),
          ))
      | inr at_other ↦ elim (Bool-cases (text_eq k (codes "t"))) [
        | inl at_t ↦
            rw (at_other, at_t)
              (ground (
                arith,
                at_other,
                at_t,
                text_eq_iff k (codes "t"),
                text_eq_iff k n,
                text_eq_iff n (codes "t"),
                text_eq_iff n (codes "model"),
                text_eq_iff k (codes "model"),
              ))
        | inr nowhere ↦ absurd (ground (arith))
      ]
    ]
get-put_byte c [] k n e = cc
get-put_byte c (x ∷ []) k n e = cc
get-put_byte c (x ∷ (y ∷ (z ∷ s))) k n e = cc

get-set_byte :
    (b k n : Text) (v : Value) {c : Text}
    → set_byte b k v ≡ some c
    → get_byte c n ≡ (if text_eq k n then some v else get_byte b n)
get-set_byte b k n (str (suc c ∷ [])) e = get-put_byte (suc c) b k n e
get-set_byte b k n (str []) e = cc
get-set_byte b k n (str (zero ∷ [])) e = cc
get-set_byte b k n (str (zero ∷ (d ∷ s))) e = cc
get-set_byte b k n (str (suc c ∷ (d ∷ s))) e = cc
get-set_byte b k n (scalar s) e = cc
get-set_byte b k n null e = cc
get-set_byte b k n (array s) e = cc
get-set_byte b k n (mapping s) e = cc

bytes-Documented : Documented bytes plain
bytes-Documented = record {
  get_set = λ b k n v {c} hk hn. get-set_byte b k n v;
  get_delete = λ b k n {c} hk hn. get-put_byte 0 b k n;
}

-- The model `a` is sent as `b`, without `t`.
abbrev filtered : ModelConfig
filtered = record model {
  use_model_name = codes "b";
  filters = record { strip_params = codes "t,model"; set_params = [] };
}

abbrev manager : Manager
manager = record {
  config = record config { models = (codes "a", filtered) ∷ [] };
  groups = two_groups;
  peers = none;
}

abbrev target : Target
target = local_process (codes "a") (codes "b") (codes "g")

plain_filters : PlainFilters plain (filters_of manager target)
unfolding sanitized_strip_params sanitized_set_params filters_of lookup text_eq split trim_space
    trim_left sort_texts contains clean_params clean_param insert_sorted unprotected
plain_filters = record { model_key = refl; strip_names = refl; set_names = refl }

rewritten : rewrite_body bytes manager target (b'a' ∷ (7 ∷ [])) ≡ some (b'b' ∷ (0 ∷ []))
unfolding rewrite_body sanitized_strip_params sanitized_set_params filters_of lookup text_eq split
    trim_space trim_left sort_texts contains clean_params clean_param insert_sorted unprotected
rewritten = refl

is_plain_t : plain (codes "t") ≡ true
unfolding text_eq
is_plain_t = refl

get-rewrite_body_example :
    get_byte (b'b' ∷ (0 ∷ [])) (codes "t")
    ≡ sent_value (filters_of manager target) (codes "b") (codes "t") (value_of 7)
unfolding text_eq
get-rewrite_body_example =
    get-rewrite_body bytes bytes-Documented is_plain_t manager target (b'a' ∷ (7 ∷ []))
      plain_filters rewritten

abbrev request : Request
request = record {
  method = codes "POST";
  path = codes "/v1/completions";
  headers = (codes "Transfer-Encoding", codes "chunked" ∷ []) ∷ [];
  content = some (b'a' ∷ (7 ∷ []));
}

abbrev outside : Outside
outside = record {
  swap_env = λ id name. calm_stop;
  next = λ t f. some recorded;
  gunzip = λ s. none;
  inflate = λ s. none;
}

proxy_inference_handler-InferenceEnd_example :
    InferenceEnd gjson bytes manager outside request
      (some monitor)
      (proxy_inference_handler gjson bytes manager outside request (some monitor))
proxy_inference_handler-InferenceEnd_example =
    proxy_inference_handler-InferenceEnd gjson bytes manager outside request (some monitor)

-- A form that is sent as its values, one after the other.
abbrev joined : List Part → Text
joined [] = []
joined (field key v ∷ ps) = v ++ joined ps
joined (file key name content ∷ ps) = content ++ joined ps

abbrev form_request : FormRequest
form_request = record {
  path = codes "/v1/audio/transcriptions";
  headers = [];
  parsed = some (record {
    values = (codes "model", codes "a" ∷ []) ∷ [];
    files = (codes "file", record { filename = codes "f"; content = some (codes "w") } ∷ []) ∷ [];
  });
  model_value = codes "a";
  encode = λ ps. some (joined ps);
  content_type = codes "multipart/form-data";
}

proxy_oai_post_form_handler-FormEnd_example :
    FormEnd manager outside form_request monitor
      (proxy_oai_post_form_handler manager outside form_request monitor)
proxy_oai_post_form_handler-FormEnd_example =
    proxy_oai_post_form_handler-FormEnd manager outside form_request monitor
