-- ===== src/Tests/Managers.antt =====
-- proxy/proxymanager.go and its helpers on concrete inputs.
use llama_swap.Base.{
  ◌++◌, if◌then◌else◌, ℕ, zero, suc, inr, ◌≡◌, refl, List, [], ◌∷◌, Option, none, some, true, false,
  arith,
}
use llama_swap.Base.Text.{Text, codes, text_eq, contains, contains_text, has_prefix, join}
use llama_swap.Base.Dict.{Dict, lookup, keys}
use llama_swap.Base.Sort.{sort_texts}
use llama_swap.Config.Types.{PeerConfig, ok}
use llama_swap.Config.Load.{check_api_keys}
use llama_swap.Config.Types.{Config}
use llama_swap.Process.State.{ready, Process}
use llama_swap.Process.Calm.{IsReady}
use llama_swap.Group.State.{ProcessGroup, settings_of, has_member}
use llama_swap.Group.Requests.{calm_stop}
use llama_swap.Manager.Groups.{find_group_by_model_name, swap_process_group}
use llama_swap.Manager.Exclusive.{AllGroups, QuietGroup, SwapEnd, swap_process_group-SwapEnd}
use llama_swap.Manager.Access.{
  Headers, refused, passed_on, provided_key, basic_key, bearer_key, api_key_auth, bearer,
  api_key_auth-bearer,
}
use llama_swap.Manager.Peers.{
  first_with, peer_request, new_peer_proxy, get_peer_filters, route_to, filters_in, no_filters,
  peer_request_first,
}
use llama_swap.Manager.Cors.{
  names_of, sanitize_access_control_request_header_values, sanitize_names,
}
use llama_swap.Manager.RateLimit.{Limiters, Clients, allow, allow_all, Others, allow-own_limiter}

abbrev decode_none : Text → Option Text
decode_none s = none

is_key : text_eq (codes "k1") [] ≡ false
unfolding text_eq
is_key = refl

api_key_auth-bearer_example :
    api_key_auth
      (codes "k1" ∷ [])
      decode_none
      (record { authorization = bearer ++ codes "k1"; x_api_key = codes "other" })
    ≡ (if contains (codes "k1" ∷ []) (codes "k1")
        then passed_on (some (codes "k1")) (record { authorization = []; x_api_key = [] })
        else refused)
api_key_auth-bearer_example =
    api_key_auth-bearer (codes "k1") [] decode_none (codes "k1") (codes "other") is_key

abbrev no_headers : Headers
no_headers = record { authorization = []; x_api_key = [] }

keys_checked : check_api_keys (codes "k1" ∷ []) ≡ ok tt
unfolding check_api_keys text_eq contains_text has_prefix
keys_checked = refl

no_key : provided_key decode_none no_headers ≡ []
unfolding provided_key basic_key bearer_key has_prefix text_eq
no_key = refl

abbrev peers : Dict PeerConfig
peers =
    (
      codes "z",
      record {
        proxy = codes "http://z";
        api_key = [];
        models = codes "m" ∷ [];
        filters = no_filters;
      },
    )
    ∷ (
      codes "p",
      record {
        proxy = codes "http://p";
        api_key = codes "s";
        models = codes "m" ∷ codes "n" ∷ [];
        filters = no_filters;
      },
    )
    ∷ []

peer_request_first_example :
    (peer_request (new_peer_proxy peers) (codes "m")
      ≡ route_to peers (first_with peers (codes "m") (sort_texts (keys peers))))
    × (get_peer_filters (new_peer_proxy peers) (codes "m")
        ≡ filters_in peers (first_with peers (codes "m") (sort_texts (keys peers))))
peer_request_first_example = peer_request_first peers (codes "m")

abbrev asked : Text
asked = codes "X-A, bad header ,,b_1"

sanitize_names_example :
    (names_of (sanitize_access_control_request_header_values asked) ≡ names_of asked)
    × (sanitize_access_control_request_header_values asked ≡ join (codes ", ") (names_of asked))
sanitize_names_example = sanitize_names asked

-- A limiter that counts down.
abbrev tokens : Limiters ℕ
tokens = record {
  new_limiter = 2;
  allow_at = λ l now. elim l [ zero ↦ (false, 0) | suc k ↦ (true, k) ];
}

abbrev clients : Clients {L = ℕ} tokens 600
clients = (codes "1.1.1.1", record { limiter = 1; last_seen = 100 }) ∷ []

abbrev arrivals : List (Text × ℕ)
arrivals = (codes "2.2.2.2", 150) ∷ (codes "3.3.3.3", 400) ∷ []

is_known : lookup (codes "1.1.1.1") clients ≡ some (record { limiter = 1; last_seen = 100 })
unfolding lookup text_eq
is_known = refl

are-Others : Others tokens 600 (codes "1.1.1.1") 700 arrivals
unfolding text_eq
are-Others = (refl, ground arith, (refl, ground arith, tt))

allow-own_limiter_example :
    ((allow tokens 600 (codes "1.1.1.1") 500 (allow_all tokens 600 arrivals clients)).0 ≡ true)
    × (lookup
          (codes "1.1.1.1")
          (allow tokens 600 (codes "1.1.1.1") 500 (allow_all tokens 600 arrivals clients)).1
        ≡ some (record { limiter = 0; last_seen = 500 }))
allow-own_limiter_example =
    allow-own_limiter tokens 600 (codes "1.1.1.1") 500 arrivals clients
      (record { limiter = 1; last_seen = 100 }) is_known are-Others (ground arith)

-- A ready process without requests, alone in a group that is not persistent.
abbrev pub idle_process : Process
idle_process = record {
  settings = settings_of none;
  health_check_timeout = 20;
  state = ready;
  wait_starting = 0;
  has_upstream = true;
  chan_open = true;
  running = true;
  ttl_running = false;
  failed_start_count = 0;
  in_flight = 0;
  slots = 0;
  limit = 10;
  last_request_handled = 0;
  emitted = [];
}

abbrev pub config : Config
config = record {
  health_check_timeout = 20;
  log_to_stdout = codes "proxy";
  models = [];
  groups =
      (
        codes "g",
        record { swap = true; exclusive = true; persistent = false; members = codes "a" ∷ [] },
      )
      ∷ (
        codes "h",
        record { swap = true; exclusive = true; persistent = false; members = codes "b" ∷ [] },
      )
      ∷ [];
  macros = [];
  aliases = [];
  start_port = 5800;
  preload = [];
  send_loading_state = false;
  required_api_keys = [];
  peers = [];
  allowed_origins = [];
}

abbrev pub group_of : Text → Text → ProcessGroup
group_of id model = record {
  config = config;
  id = id;
  swap = true;
  exclusive = true;
  persistent = false;
  processes = (model, idle_process) ∷ [];
  last_used_process = model;
}

abbrev pub two_groups : Dict ProcessGroup
two_groups =
    (codes "g", group_of (codes "g") (codes "a"))
    ∷ (codes "h", group_of (codes "h") (codes "b"))
    ∷ []

is_found : find_group_by_model_name two_groups (codes "b") ≡ some (group_of (codes "h") (codes "b"))
unfolding find_group_by_model_name has_member lookup contains text_eq
is_found = refl

idle_process-IsReady : IsReady idle_process
idle_process-IsReady = record {
  runs = record { upstream = refl; open_chan = refl; live = refl };
  at_ready = refl;
}

all_quiet : AllGroups QuietGroup two_groups
all_quiet = (((inr idle_process-IsReady, refl), tt), (((inr idle_process-IsReady, refl), tt), tt))

swap_process_group-SwapEnd_example :
    SwapEnd
      (group_of (codes "h") (codes "b"))
      two_groups
      (swap_process_group two_groups (λ id name. calm_stop) (codes "b"))
swap_process_group-SwapEnd_example =
    swap_process_group-SwapEnd two_groups (codes "b") (group_of (codes "h") (codes "b")) is_found
      all_quiet
