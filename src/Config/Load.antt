-- ===== src/Config/Load.antt =====
-- proxy/config/config.go: `LoadConfigFromReader` once the decoder has filled the configuration.
-- `substituteEnvMacros` and the decoder run before it.
use llama_swap.Base.{List, [], ◌∷◌, Bool, false, not, ltb}
use llama_swap.Base.Text.{Text, codes, text_eq, contains, contains_text, replace_all}
use llama_swap.Base.Dict.{Dict, keys}
use llama_swap.Base.Sort.{sort_texts}
use llama_swap.Config.Types.{
  Value, PeerConfig, MacroEntry, MacroList, Config, health_check_timeout_too_small,
  start_port_too_small, bad_log_to_stdout, empty_api_key, api_key_with_space, Result, ok, ◌>>=◌,
  ◌>>◌, guard,
}
use llama_swap.Config.Names.{populate_aliases, clean_preload}
use llama_swap.Config.Groups.{add_default_group_to_config, validate_groups}
use llama_swap.Config.Macros.{slug, macro_text, validate_macros, substitute_value, find_macros}
use llama_swap.Config.Models.{process_models, check_left, check_value}

abbrev pub log_outputs : List Text
log_outputs = codes "proxy" ∷ codes "upstream" ∷ codes "both" ∷ codes "none" ∷ []

unfoldable pub check_api_keys : List Text → Result (Unit {0})
check_api_keys [] = ok tt
check_api_keys (key ∷ keys) = do
  guard (not (text_eq key [])) empty_api_key
  guard (not (contains_text key (codes " "))) api_key_with_space
  check_api_keys keys

-- One global macro put into a peer.
unfoldable pub substitute_params : MacroEntry → Dict Value → Dict Value
substitute_params e [] = []
substitute_params e ((k, v) ∷ m) = (k, substitute_value e.name e.value v) ∷ substitute_params e m

unfoldable pub substitute_peer_entry : MacroEntry → PeerConfig → PeerConfig
substitute_peer_entry e p =
    let put : Text → Text = λ s. replace_all s (slug e.name) (macro_text e.value) in
    record p {
      api_key = put p.api_key;
      filters = record {
        strip_params = put p.filters.strip_params;
        set_params = substitute_params e p.filters.set_params;
      };
    }

unfoldable pub substitute_peer : MacroList → PeerConfig → PeerConfig
substitute_peer [] p = p
substitute_peer (e ∷ es) p = substitute_peer_entry e (substitute_peer es p)

unfoldable pub check_params : Text → Dict Value → Result (Unit {0})
check_params peer [] = ok tt
check_params peer ((k, v) ∷ m) = check_value peer v >>= λ _. check_params peer m

unfoldable pub process_peer : MacroList → Text → PeerConfig → Result PeerConfig
process_peer macros name peer = do
  let p = substitute_peer macros peer
  check_left name false (find_macros p.api_key)
  check_left name false (find_macros p.filters.strip_params)
  check_params name p.filters.set_params
  ok p

unfoldable pub process_peers : MacroList → Dict PeerConfig → Result (Dict PeerConfig)
process_peers macros [] = ok []
process_peers macros ((name, peer) ∷ peers) = do
  p ← process_peer macros name peer
  rest ← process_peers macros peers
  ok ((name, p) ∷ rest)

-- The whole of it, after the decoder.
unfoldable pub load_config : (Text → Bool) → Config → Result Config
load_config url_ok c = do
  guard (not (ltb c.health_check_timeout 15)) health_check_timeout_too_small
  guard (not (ltb c.start_port 1)) start_port_too_small
  guard (contains log_outputs c.log_to_stdout) bad_log_to_stdout
  aliases ← populate_aliases c.models []
  validate_macros c.macros
  r ←
      process_models
        (record { macros = c.macros; send_loading_state = c.send_loading_state; url_ok = url_ok })
        (sort_texts (keys c.models)) c.start_port c.models
  let d = add_default_group_to_config (record c { aliases = aliases; models = r.0 })
  usage ← validate_groups d.groups []
  check_api_keys d.required_api_keys
  peers ← process_peers d.macros d.peers
  ok (record d { preload = clean_preload d d.preload; peers = peers })
