-- ===== src/Manager/Routes.antt =====
-- proxy/proxymanager.go: `findModelInPath`, and `resolveModelTarget` with the handlers of the routes
-- `/upstream/*` and `/v1/audio/voices` up to the handler that they choose.
use llama_swap.Base.{
  ℕ, List, [], ◌∷◌, ◌++◌, Option, none, some, Bool, false, if◌then◌else◌, ◌||◌, ◌&&◌, not,
}
use llama_swap.Base.Text.{Text, codes, text_eq, split, join, trim_space, has_suffix}
use llama_swap.Base.Dict.{Dict, lookup}
use llama_swap.Config.Types.{ModelConfig, Config}
use llama_swap.Config.Names.{real_model_name}
use llama_swap.Group.State.{ProcessGroup, StopEnv}
use llama_swap.Manager.Groups.{Swap, no_group, waits, swapped, swap_process_group}
use llama_swap.Manager.Peers.{PeerProxy, has_peer_model}

-- The name under which a model was found, its real name, and what is left of the path.
pub record Found : Type 0 where
  pub search_name : Text
  pub real_name : Text
  pub remaining : Text

abbrev pub slash : Text
slash = codes "/"

abbrev pub extended : Text → Text → Text
extended search part = if text_eq search [] then part else search ++ (slash ++ part)

abbrev pub found_or : Text → List Text → Option Text → Option Found → Option Found
found_or name parts none rest = rest
found_or name parts (some real) rest =
    some (record { search_name = name; real_name = real; remaining = slash ++ join slash parts })

-- The loop over the parts of the path.
unfoldable pub find_from : Config → Text → List Text → Option Found
find_from c search [] = none
find_from c search (part ∷ parts) =
    let skipped = find_from c search parts in
    let rest = find_from c (extended search part) parts in
    if text_eq part []
    then skipped
    else found_or (extended search part) parts (real_model_name c (extended search part)) rest

unfoldable pub find_model_in_path : Config → Text → Option Found
find_model_in_path c path = find_from c [] (split b'/' (trim_space path))

-- The manager, as far as a request is routed by it.
pub record Manager : Type 0 where
  pub config : Config
  pub groups : Dict ProcessGroup
  pub peers : Option PeerProxy

-- `resolvedModelTarget`: the handler is that of the group with this id, or that of the peers.
pub data Target : Type 0 where
  local_process : Text → Text → Text → Target
  peer : Text → Target

-- `resolveModelTarget`: the groups after the swap, with the target, nil, or the error of the swap.
pub data Resolved : Type 0 where
  no_process_group never_returns no_target : Resolved
  resolved : Target → Dict ProcessGroup → Resolved

abbrev pub model_name : Option ModelConfig → Text
model_name none = []
model_name (some m) = m.use_model_name

abbrev pub local_target : Config → Text → Swap → Resolved
local_target c model no_group = no_process_group
local_target c model waits = never_returns
local_target c model (swapped id groups) =
    resolved (local_process model (model_name (lookup model c.models)) id) groups

abbrev pub peer_has : Option PeerProxy → Text → Bool
peer_has none model = false
peer_has (some p) model = has_peer_model p model

abbrev pub resolve_from : Manager → (Text → Text → StopEnv) → Text → Option Text → Resolved
resolve_from pm env requested (some model) =
    local_target pm.config model (swap_process_group pm.groups env model)
resolve_from pm env requested none =
    if peer_has pm.peers requested then resolved (peer requested) pm.groups else no_target

unfoldable pub resolve_model_target : Manager → (Text → Text → StopEnv) → Text → Resolved
resolve_model_target pm env requested =
    resolve_from pm env requested (real_model_name pm.config requested)

-- `proxyGETModelHandler`, up to the call of the handler: the status of an error, or the target.
pub data Routed : Type 0 where
  fails : ℕ → Routed
  blocks : Routed
  goes_to : Target → Dict ProcessGroup → Routed

abbrev pub routed : Resolved → Routed
routed no_process_group = fails 500
routed never_returns = blocks
routed no_target = fails 400
routed (resolved target groups) = goes_to target groups

unfoldable pub get_model_handler : Manager → (Text → Text → StopEnv) → Text → Routed
get_model_handler pm env requested =
    if text_eq requested [] then fails 400 else routed (resolve_model_target pm env requested)

-- `proxyToUpstream`, up to the call of the handler: an error, the redirection to the canonical path
-- with its status, or the group and the path that is sent upstream.
pub data Upstream : Type 0 where
  model_missing swap_failed swap_blocks : Upstream
  redirects : ℕ → Text → Upstream
  sends : Text → Text → Text → Dict ProcessGroup → Upstream

abbrev pub with_query : Text → Text → Text
with_query path query = if text_eq query [] then path else path ++ (codes "?" ++ query)

abbrev pub redirect_status : Text → ℕ
redirect_status method =
    if text_eq method (codes "GET") || text_eq method (codes "HEAD") then 301 else 308

abbrev pub sent_to : Found → Swap → Upstream
sent_to f no_group = swap_failed
sent_to f waits = swap_blocks
sent_to f (swapped id groups) = sends id f.real_name f.remaining groups

abbrev pub upstream_of :
    Manager → (Text → Text → StopEnv) → Text → Text → Text → Option Found → Upstream
upstream_of pm env method query path none = model_missing
upstream_of pm env method query path (some f) =
    if text_eq f.remaining slash && not (has_suffix path slash)
    then redirects (redirect_status method)
        (with_query (codes "/upstream/" ++ (f.search_name ++ slash)) query)
    else sent_to f (swap_process_group pm.groups env f.real_name)

unfoldable pub proxy_to_upstream : Manager → (Text → Text → StopEnv) → Text → Text → Text → Upstream
proxy_to_upstream pm env method query path =
    upstream_of pm env method query path (find_model_in_path pm.config path)
