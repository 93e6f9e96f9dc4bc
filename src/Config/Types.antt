-- ===== src/Config/Types.antt =====
-- proxy/config/config.go, model_config.go, filters.go, peer.go: the data.
use llama_swap.Base.{ℕ, List, Option, Bool, true, false}
use llama_swap.Base.Text.{Text, codes}
use llama_swap.Base.Dict.{Dict}

-- A value of YAML under Go's type `any`. A scalar that is no text (an int, a float or a bool) is
-- kept as `%v` prints it.
mutual
  pub data Value : Type 0 where
    str : Text → Value
    scalar : Text → Value
    null : Value
    array : Items → Value
    mapping : Fields → Value

  pub data Items : Type 0 where
    nil : Items
    cons : Value → Items → Items

  pub data Fields : Type 0 where
    end : Fields
    field : Text → Value → Fields → Fields

pub record MacroEntry : Type 0 where
  pub name : Text
  pub value : Value

abbrev pub MacroList : Type 0
MacroList = List MacroEntry

pub record GroupConfig : Type 0 where
  pub swap : Bool
  pub exclusive : Bool
  pub persistent : Bool
  pub members : List Text

pub record Filters : Type 0 where
  pub strip_params : Text
  pub set_params : Dict Value

pub record ModelConfig : Type 0 where
  pub cmd : Text
  pub cmd_stop : Text
  pub proxy : Text
  pub aliases : List Text
  pub check_endpoint : Text
  pub unload_after : ℕ
  pub use_model_name : Text
  pub concurrency_limit : ℕ
  pub filters : Filters
  pub macros : MacroList
  pub metadata : Fields
  pub send_loading_state : Option Bool

pub record PeerConfig : Type 0 where
  pub proxy : Text
  pub api_key : Text
  pub models : List Text
  pub filters : Filters

pub record Config : Type 0 where
  pub health_check_timeout : ℕ
  pub log_to_stdout : Text
  pub models : Dict ModelConfig
  pub groups : Dict GroupConfig
  pub macros : MacroList
  pub aliases : Dict Text
  pub start_port : ℕ
  pub preload : List Text
  pub send_loading_state : Bool
  pub required_api_keys : List Text
  pub peers : Dict PeerConfig
  pub allowed_origins : List Text

abbrev pub default_group_id : Text
default_group_id = codes "(default)"

-- What `LoadConfigFromReader` refuses, beside what the decoder and the regular expressions do.
pub data ConfigError : Type 0 where
  health_check_timeout_too_small start_port_too_small bad_log_to_stdout : ConfigError
  duplicate_alias : Text → Text → ConfigError
  macro_name_too_long macro_name_invalid macro_value_too_long macro_self_reference
        macro_invalid_type macro_reserved :
      Text → ConfigError
  in_model : Text → ConfigError → ConfigError
  port_not_in_cmd : Text → ConfigError
  unknown_macro : Text → Text → ConfigError
  unset_environment : Text → Text → ConfigError
  unsafe_environment : Text → ConfigError
  invalid_proxy_url : Text → ConfigError
  duplicate_member : Text → Text → ConfigError
  member_of_two_groups : Text → Text → Text → ConfigError
  empty_api_key api_key_with_space : ConfigError
  empty_command : ConfigError

-- A value, or why the configuration is refused.
pub data Result {ℓ} (A : Type ℓ) : Type ℓ where
  err : ConfigError → Result A
  ok : A → Result A

-- The chains of checks that `if err != nil { return }` makes in the source.
infixl 5 ◌>>=◌ ◌>>◌
abbrev pub ◌>>=◌ {ℓ κ} : {A : Type ℓ} {B : Type κ} → Result A → (A → Result B) → Result B
err why >>= next = err why
ok a >>= next = next a

abbrev pub ◌>>◌ {κ} : {B : Type κ} → Result (Unit {0}) → Result B → Result B
check >> rest = check >>= λ done. rest

-- A check and the error of its failure.
abbrev pub guard : Bool → ConfigError → Result (Unit {0})
guard false why = err why
guard true why = ok tt
