-- ===== src/Manager/Peers.antt =====
-- proxy/peerproxy.go: which peer serves a model.
use llama_swap.Base.{
  ◌≡◌, refl, sym, ◌∙◌, inl, inr, List, [], ◌∷◌, Option, none, some, Bool, true, false,
  if◌then◌else◌, ◌||◌, Bool-cases,
}
use llama_swap.Base.Text.{Text, text_eq, text_eq_iff, text_eq_refl, contains}
use llama_swap.Base.Dict.{Dict, lookup, insert, keys, lookup-insert}
use llama_swap.Base.Sort.{sort_texts}
use llama_swap.Config.Types.{PeerConfig, Filters}

-- `peerProxyMember`; the reverse proxy is the one made for the peer.
pub record PeerMember : Type 0 where
  pub peer_id : Text
  pub api_key : Text

abbrev pub keep_first : Text → PeerMember → Dict PeerMember → Option PeerMember → Dict PeerMember
keep_first model m found (some other) = found
keep_first model m found none = insert model m found

-- The models of one peer.
unfoldable pub map_models : PeerMember → List Text → Dict PeerMember → Dict PeerMember
map_models m [] found = found
map_models m (model ∷ models) found =
    map_models m models (keep_first model m found (lookup model found))

abbrev pub no_filters : Filters
no_filters = record { strip_params = []; set_params = [] }

abbrev pub no_peer : PeerConfig
no_peer = record { proxy = []; api_key = []; models = []; filters = no_filters }

abbrev pub or_no_peer : Option PeerConfig → PeerConfig
or_no_peer none = no_peer
or_no_peer (some p) = p

-- `peers[peerID]`.
unfoldable pub peer_at : Dict PeerConfig → Text → PeerConfig
peer_at peers id = or_no_peer (lookup id peers)

unfoldable pub map_peers : Dict PeerConfig → List Text → Dict PeerMember → Dict PeerMember
map_peers peers [] found = found
map_peers peers (id ∷ ids) found =
    let peer = peer_at peers id in
    map_peers peers ids
      (map_models (record { peer_id = id; api_key = peer.api_key }) peer.models found)

pub record PeerProxy : Type 0 where
  pub peers : Dict PeerConfig
  pub proxy_map : Dict PeerMember

unfoldable pub new_peer_proxy : Dict PeerConfig → PeerProxy
new_peer_proxy peers = record {
  peers = peers;
  proxy_map = map_peers peers (sort_texts (keys peers)) [];
}

abbrev pub is_some {ℓ} : {A : Type ℓ} → Option A → Bool
is_some none = false
is_some (some a) = true

unfoldable pub has_peer_model : PeerProxy → Text → Bool
has_peer_model p model = is_some (lookup model p.proxy_map)

abbrev pub filters_of : Option PeerConfig → Filters
filters_of none = no_filters
filters_of (some peer) = peer.filters

abbrev pub filters_at : PeerProxy → Option PeerMember → Filters
filters_at p none = no_filters
filters_at p (some m) = filters_of (lookup m.peer_id p.peers)

unfoldable pub get_peer_filters : PeerProxy → Text → Filters
get_peer_filters p model = filters_at p (lookup model p.proxy_map)

-- `ProxyRequest`: none is the error, else the peer that the request goes to, and the key that is put
-- into its headers, where the peer has one.
abbrev pub injected : Text → Option Text
injected key = if text_eq key [] then none else some key

abbrev pub route_of : Option PeerMember → Option (Text × Option Text)
route_of none = none
route_of (some m) = some (m.peer_id, injected m.api_key)

unfoldable pub peer_request : PeerProxy → Text → Option (Text × Option Text)
peer_request p model = route_of (lookup model p.proxy_map)

-- The first of some peers that lists a model.
unfoldable pub first_with : Dict PeerConfig → Text → List Text → Option Text
first_with peers model [] = none
first_with peers model (id ∷ ids) =
    let rest = first_with peers model ids in
    if contains (peer_at peers id).models model then some id else rest

abbrev member_of : Dict PeerConfig → Text → PeerMember
member_of peers id = record { peer_id = id; api_key = (peer_at peers id).api_key }

abbrev pub or_else : Option PeerMember → Option PeerMember → Option PeerMember
or_else (some a) b = some a
or_else none b = b

abbrev pub if_member : Bool → PeerMember → Option PeerMember
if_member true m = some m
if_member false m = none

or_else-none : (a : Option PeerMember) → or_else a none ≡ a
or_else-none none = refl
or_else-none (some a) = refl

lookup-keep_first :
    (model j : Text) (m : PeerMember) (found : Dict PeerMember)
    → lookup j (keep_first model m found (lookup model found))
      ≡ or_else (lookup j found) (if_member (text_eq model j) m)
lookup-keep_first model j m found = elim (Bool-cases (text_eq model j)) [
  | inr h ↦ rw (h, or_else-none (lookup j found)) (other (lookup model found) h)
  | inl h ↦ rw (h, sym ((text_eq_iff model j).0 h)) (same (lookup model found) refl)
]
  where
    other :
        (o : Option PeerMember)
        → text_eq model j ≡ false
        → lookup j (keep_first model m found o) ≡ lookup j found
    other none h = rw (lookup-insert model j m found, h) refl
    other (some x) h = refl

    same :
        (o : Option PeerMember)
        → lookup model found ≡ o
        → lookup model (keep_first model m found o) ≡ or_else (lookup model found) (some m)
    same none e = rw (lookup-insert model model m found, text_eq_refl model, e) refl
    same (some x) e = rw e refl

or_else_members :
    (a : Option PeerMember) (b c : Bool) (m : PeerMember)
    → or_else (or_else a (if_member b m)) (if_member c m) ≡ or_else a (if_member (b || c) m)
or_else_members (some a) b c m = refl
or_else_members none true c m = refl
or_else_members none false c m = refl

lookup-map_models :
    (m : PeerMember) (models : List Text) (found : Dict PeerMember) (j : Text)
    → lookup j (map_models m models found)
      ≡ or_else (lookup j found) (if_member (contains models j) m)
unfolding map_models contains
lookup-map_models m [] found j = sym (or_else-none (lookup j found))
lookup-map_models m (model ∷ models) found j =
    lookup-map_models m models (keep_first model m found (lookup model found)) j
    ∙ rw (lookup-keep_first model j m found)
        (or_else_members (lookup j found) (text_eq model j) (contains models j) m)

-- The member for the first of some peers that lists a model.
abbrev member_for : Dict PeerConfig → Option Text → Option PeerMember
member_for peers none = none
member_for peers (some id) = some (member_of peers id)

or_else_first :
    (peers : Dict PeerConfig) (a : Option PeerMember) (b : Bool) (id : Text) (rest : Option Text)
    → or_else (or_else a (if_member b (member_of peers id))) (member_for peers rest)
      ≡ or_else a (member_for peers (if b then some id else rest))
or_else_first peers (some a) b id rest = refl
or_else_first peers none true id rest = refl
or_else_first peers none false id rest = refl

lookup-map_peers :
    (peers : Dict PeerConfig) (ids : List Text) (found : Dict PeerMember) (j : Text)
    → lookup j (map_peers peers ids found)
      ≡ or_else (lookup j found) (member_for peers (first_with peers j ids))
unfolding map_peers first_with
lookup-map_peers peers [] found j = sym (or_else-none (lookup j found))
lookup-map_peers peers (id ∷ ids) found j =
    lookup-map_peers peers ids (map_models (member_of peers id) (peer_at peers id).models found) j
    ∙ rw (lookup-map_models (member_of peers id) (peer_at peers id).models found j) (
        or_else_first peers (lookup j found) (contains (peer_at peers id).models j) id
          (first_with peers j ids))

abbrev pub route_to : Dict PeerConfig → Option Text → Option (Text × Option Text)
route_to peers none = none
route_to peers (some id) = some (id, injected (peer_at peers id).api_key)

route_for :
    (peers : Dict PeerConfig) (o : Option Text) → route_of (member_for peers o) ≡ route_to peers o
route_for peers none = refl
route_for peers (some id) = refl

abbrev pub filters_in : Dict PeerConfig → Option Text → Filters
filters_in peers none = no_filters
filters_in peers (some id) = (peer_at peers id).filters

filters_for :
    (peers : Dict PeerConfig) (map : Dict PeerMember) (o : Option Text)
    → filters_at (record { peers = peers; proxy_map = map }) (member_for peers o)
      ≡ filters_in peers o
unfolding peer_at
filters_for peers map none = refl
filters_for peers map (some id) = go (lookup id peers)
  where
    go : (o : Option PeerConfig) → filters_of o ≡ (or_no_peer o).filters
    go none = refl
    go (some p) = refl

-- A model that several peers list is served by the first of them in the order of their names, with
-- that peer's key put into the headers, where it has one, and that peer's filters; a model that no
-- peer lists gets an error and empty filters.
pub peer_request_first :
    (peers : Dict PeerConfig) (model : Text)
    → let first = first_with peers model (sort_texts (keys peers)) in
      (peer_request (new_peer_proxy peers) model ≡ route_to peers first)
      × (get_peer_filters (new_peer_proxy peers) model ≡ filters_in peers first)
unfolding peer_request new_peer_proxy get_peer_filters lookup
peer_request_first peers model =
    let ids = sort_texts (keys peers) in
    let e = lookup-map_peers peers ids [] model in
    (
      rw e (route_for peers (first_with peers model ids)),
      rw e (filters_for peers (map_peers peers ids []) (first_with peers model ids)),
    )
