-- ===== src/Config/Names.antt =====
-- proxy/config/config.go: aliases, `RealModelName`, `FindConfig`, and the preload list.
use llama_swap.Base.{List, [], ◌∷◌, Option, none, some, if◌then◌else◌}
use llama_swap.Base.Text.{Text, text_eq, trim_space}
use llama_swap.Base.Dict.{Dict, lookup, insert}
use llama_swap.Config.Types.{ModelConfig, Config, duplicate_alias, Result, ok, err, ◌>>=◌}

-- One alias; the option is what the map has for it.
abbrev pub if_fresh : Text → Text → Dict Text → Option Text → Result (Dict Text)
if_fresh model a found (some _) = err (duplicate_alias a model)
if_fresh model a found none = ok (insert a model found)

unfoldable pub add_alias : Text → Text → Dict Text → Result (Dict Text)
add_alias model a found = if_fresh model a found (lookup a found)

-- The inner loop: the aliases of one model.
unfoldable pub add_aliases : Text → List Text → Dict Text → Result (Dict Text)
add_aliases model [] found = ok found
add_aliases model (a ∷ names) found =
    add_alias model a found >>= λ more. add_aliases model names more

-- The outer loop.
unfoldable pub populate_aliases : Dict ModelConfig → Dict Text → Result (Dict Text)
populate_aliases [] found = ok found
populate_aliases ((model, c) ∷ models) found =
    add_aliases model c.aliases found >>= λ more. populate_aliases models more

-- `RealModelName`; `none` is the pair of "" and false.
abbrev pub model_or_alias : Text → Option ModelConfig → Option Text → Option Text
model_or_alias search (some m) a = some search
model_or_alias search none a = a

unfoldable pub real_model_name : Config → Text → Option Text
real_model_name c search = model_or_alias search (lookup search c.models) (lookup search c.aliases)

-- `FindConfig`: the configuration, none where the name it was found under has none, and that name.
abbrev pub config_of : Config → Option Text → Option (Option ModelConfig × Text)
config_of c none = none
config_of c (some name) = some (lookup name c.models, name)

unfoldable pub find_config : Config → Text → Option (Option ModelConfig × Text)
find_config c name = config_of c (real_model_name c name)

-- The cleaning of `hooks.on_startup.preload`.
abbrev pub keep_found : Option Text → List Text → List Text
keep_found none rest = rest
keep_found (some real) rest = real ∷ rest

unfoldable pub clean_preload : Config → List Text → List Text
clean_preload c [] = []
clean_preload c (id ∷ ids) =
    let rest = clean_preload c ids in
    let name = trim_space id in
    if text_eq name [] then rest else keep_found (real_model_name c name) rest
