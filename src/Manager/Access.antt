-- ===== src/Manager/Access.antt =====
-- proxy/proxymanager.go: `apiKeyAuth` and `isOriginAllowed`.
use llama_swap.Base.{
  ◌++◌, false, if◌then◌else◌, some, ◌≡◌, refl, List, [], ◌∷◌, Option, none, some, Bool, true, false,
  if◌then◌else◌, ◌||◌, not, arith,
}
use llama_swap.Base.Text.{Text, codes, text_eq, contains, has_prefix, trim_prefix, contains_text}
use llama_swap.Config.Types.{guard, empty_api_key, api_key_with_space, ok}
use llama_swap.Config.Load.{check_api_keys}
use llama_swap.Config.Results.{bind_ok, guard_ok}

-- The headers of a request that the middleware reads; "" where there is none.
pub record Headers : Type 0 where
  pub authorization : Text
  pub x_api_key : Text

-- `strings.SplitN(s, ":", 2)`, its second part where there are two.
unfoldable pub after_colon : Text → Option Text
after_colon [] = none
after_colon (c ∷ s) =
    let rest = after_colon s in if text_eq (c ∷ []) (codes ":") then some s else rest

abbrev pub or_empty : Option Text → Text
or_empty none = []
or_empty (some s) = s

-- The password of Basic authentication; `decode` is `base64.StdEncoding.DecodeString`, none for its
-- error.
abbrev pub password : Option Text → Text
password none = []
password (some s) = or_empty (after_colon s)

abbrev pub bearer : Text
bearer = codes "Bearer "

abbrev pub basic : Text
basic = codes "Basic "

unfoldable pub bearer_key : Text → Text
bearer_key auth = if has_prefix auth bearer then trim_prefix auth bearer else []

unfoldable pub basic_key : (Text → Option Text) → Text → Text
basic_key decode auth =
    if has_prefix auth bearer
    then []
    else if has_prefix auth basic
    then password (decode (trim_prefix auth basic))
    else []

-- The first key found: Basic, then Bearer, then `x-api-key`.
unfoldable pub provided_key : (Text → Option Text) → Headers → Text
provided_key decode h =
    if not (text_eq (basic_key decode h.authorization) [])
    then basic_key decode h.authorization
    else if not (text_eq (bearer_key h.authorization) [])
    then bearer_key h.authorization
    else h.x_api_key

-- What the middleware does with a request: the key that it stores and the headers that it passes on,
-- or the status 401.
pub data Verdict : Type 0 where
  refused : Verdict
  passed_on : Option Text → Headers → Verdict

unfoldable pub api_key_auth : List Text → (Text → Option Text) → Headers → Verdict
api_key_auth [] decode h = passed_on none h
api_key_auth (key ∷ keys) decode h =
    if contains (key ∷ keys) (provided_key decode h)
    then passed_on (some (provided_key decode h)) (record { authorization = []; x_api_key = [] })
    else refused

bearer_key_lem : (k : Text) → bearer_key (bearer ++ k) ≡ k
unfolding bearer_key has_prefix trim_prefix
bearer_key_lem k = refl

no_basic_key : (decode : Text → Option Text) (k : Text) → basic_key decode (bearer ++ k) ≡ []
unfolding basic_key has_prefix
no_basic_key decode k = refl

provided-bearer :
    (decode : Text → Option Text) (k x : Text)
    → text_eq k [] ≡ false
    → provided_key decode (record { authorization = bearer ++ k; x_api_key = x }) ≡ k
unfolding provided_key text_eq
provided-bearer decode k x n = rw (no_basic_key decode k, bearer_key_lem k, n) refl

-- With keys configured, a request with the header `Authorization: Bearer k`, for a `k` that is not
-- empty, is judged by `k` alone, whatever its `x-api-key` is: it is passed on if `k` is one of the
-- keys, with `k` stored and both headers taken off, and refused otherwise.
pub api_key_auth-bearer :
    (key : Text) (keys : List Text) (decode : Text → Option Text) (k x : Text)
    → text_eq k [] ≡ false
    → api_key_auth (key ∷ keys) decode (record { authorization = bearer ++ k; x_api_key = x }) ≡ (
        if contains (key ∷ keys) k
        then passed_on (some k) (record { authorization = []; x_api_key = [] })
        else refused)
unfolding api_key_auth
api_key_auth-bearer key keys decode k x n = rw (provided-bearer decode k x n) refl

not-true : (b : Bool) → not b ≡ true → b ≡ false
not-true b h = ground arith

-- No key that `LoadConfig` accepts is empty.
no_empty_key :
    (keys : List Text) {u : Unit {0}} → check_api_keys keys ≡ ok u → contains keys [] ≡ false
unfolding check_api_keys contains
no_empty_key [] h = refl
no_empty_key (key ∷ keys) h =
    let (_, a, h₁) = bind_ok (guard (not (text_eq key [])) empty_api_key) _ h in
    let (_, _, rest) =
      bind_ok (guard (not (contains_text key (codes " "))) api_key_with_space) _ h₁ in
    rw
      (
        not-true (text_eq key []) (guard_ok (not (text_eq key [])) empty_api_key a),
        no_empty_key keys rest,
      )
      refl

-- With keys configured that passed the check of `LoadConfig`, a request that provides no key is
-- refused.
pub api_key_auth-no_key :
    (key : Text) (keys : List Text) (decode : Text → Option Text) (h : Headers) {u : Unit {0}}
    → check_api_keys (key ∷ keys) ≡ ok u
    → provided_key decode h ≡ []
    → api_key_auth (key ∷ keys) decode h ≡ refused
unfolding api_key_auth
api_key_auth-no_key key keys decode h checked e = rw (e, no_empty_key (key ∷ keys) checked) refl

-- `isOriginAllowed`.
unfoldable pub in_origins : Text → List Text → Bool
in_origins origin [] = false
in_origins origin (a ∷ allowed) =
    (text_eq a (codes "*") || text_eq a origin) || in_origins origin allowed

unfoldable pub is_origin_allowed : List Text → Text → Bool
is_origin_allowed [] origin = true
is_origin_allowed (a ∷ allowed) origin =
    if text_eq origin [] then true else in_origins origin (a ∷ allowed)
