-- ===== src/Manager/Bodies.antt =====
-- proxy/proxymanager.go: what `proxyInferenceHandler` does to the JSON body before it is sent on.
use llama_swap.Base.{◌≡◌, refl, List, [], ◌∷◌, Option, none, some, Bool, true, if◌then◌else◌}
use llama_swap.Base.Text.{Text, codes, text_eq}
use llama_swap.Base.Dict.{Dict, lookup}
use llama_swap.Config.Types.{Value, str, null, ModelConfig, Filters}
use llama_swap.Config.Filters.{sanitized_strip_params, sanitized_set_params}
use llama_swap.Manager.Peers.{PeerProxy, no_filters, get_peer_filters}
use llama_swap.Manager.Routes.{Manager, Target, local_process, peer}

-- The libraries gjson and sjson: what stands at a path of a body, as a value, a string or a bool, and
-- the body with a value put there or taken away; none is an error.
pub record BodyJson : Type 0 where
  pub get : Text → Text → Option Value
  pub string : Option Value → Text
  pub bool : Option Value → Bool
  pub set : Text → Text → Value → Option Text
  pub delete : Text → Text → Option Text

-- What they document for names that are no compound paths: each names a field of its own.
pub record Documented (j : BodyJson) (is_plain : Text → Bool) : Type 0 where
  pub get_set :
      (b k n : Text) (v : Value) {c : Text}
      → is_plain k ≡ true
      → is_plain n ≡ true
      → j.set b k v ≡ some c
      → j.get c n ≡ (if text_eq k n then some v else j.get b n)
  pub get_delete :
      (b k n : Text) {c : Text}
      → is_plain k ≡ true
      → is_plain n ≡ true
      → j.delete b k ≡ some c
      → j.get c n ≡ (if text_eq k n then none else j.get b n)

infixl 5 ◌>>=◌
abbrev pub ◌>>=◌ : Option Text → (Text → Option Text) → Option Text
none >>= f = none
some b >>= f = f b

pub bind-eq-some :
    (o : Option Text) (f : Text → Option Text) {c : Text}
    → o >>= f ≡ some c
    → (b : Text) × (o ≡ some b) × (f b ≡ some c)
bind-eq-some (some b) f h = (b, refl, h)
bind-eq-some none f h = cc

abbrev pub or_null : Option Value → Value
or_null none = null
or_null (some v) = v

abbrev pub filters_of_model : Option ModelConfig → Filters
filters_of_model none = no_filters
filters_of_model (some m) = m.filters

abbrev pub filters_of_peers : Option PeerProxy → Text → Filters
filters_of_peers none model = no_filters
filters_of_peers (some p) model = get_peer_filters p model

-- The filters and the name of the model for a target.
unfoldable pub filters_of : Manager → Target → Filters
unfolding lookup get_peer_filters
filters_of pm (local_process model use_name group) =
    filters_of_model (lookup model pm.config.models)
filters_of pm (peer model) = filters_of_peers pm.peers model

abbrev pub use_name_of : Target → Text
use_name_of (local_process model use_name group) = use_name
use_name_of (peer model) = []

module _ (j : BodyJson) where
  -- The loops over the parameters.
  unfoldable pub strip_all : List Text → Text → Option Text
  strip_all [] b = some b
  strip_all (param ∷ params) b = j.delete b param >>= λ c. strip_all params c

  unfoldable pub set_all : Dict Value → List Text → Text → Option Text
  set_all params [] b = some b
  set_all params (key ∷ keys) b =
      j.set b key (or_null (lookup key params)) >>= λ c. set_all params keys c

  unfoldable pub rename : Text → Text → Option Text
  rename use_name b = if text_eq use_name [] then some b else j.set b (codes "model") (str use_name)

  unfoldable pub filter_body : Filters → Text → Option Text
  unfolding strip_all set_all sanitized_strip_params sanitized_set_params
  filter_body f b = strip_all (sanitized_strip_params f) b >>= λ c.
      set_all (sanitized_set_params f).0 (sanitized_set_params f).1 c

  unfoldable pub rewrite_body : Manager → Target → Text → Option Text
  unfolding filter_body rename filters_of
  rewrite_body pm target b =
      rename (use_name_of target) b >>= λ c. filter_body (filters_of pm target) c
