-- ===== src/Benchy/Args.antt =====
-- proxy/benchy.go: `buildBenchyArgs`.
use llama_swap.Base.{List, [], ◌∷◌, ◌++◌, Option, none, some, Bool, true, false, if◌then◌else◌, map}
use llama_swap.Base.Integer.{ℤ, itoa}
use llama_swap.Base.Text.{Text, codes, text_eq}
use llama_swap.Benchy.Jobs.{RunOptions}

-- An option with its value, where there is one.
abbrev pub text_option : Text → Text → List Text
text_option name value = if text_eq value [] then [] else name ∷ value ∷ []

abbrev pub flag : Text → Bool → List Text
flag name b = if b then name ∷ [] else []

abbrev pub number_option : Text → List ℤ → List Text
number_option name [] = []
number_option name (n ∷ ns) = name ∷ map itoa (n ∷ ns)

abbrev pub adapt_option : Option Bool → List Text
adapt_option none = []
adapt_option (some true) = codes "--adapt-prompt" ∷ []
adapt_option (some false) = codes "--no-adapt-prompt" ∷ []

abbrev pub plugin_option : List Text → List Text
plugin_option [] = []
plugin_option (p ∷ ps) = codes "--intelligence-plugins" ∷ p ∷ ps

abbrev pub max_option : Option ℤ → List Text
max_option none = []
max_option (some n) = codes "--max-concurrent" ∷ itoa n ∷ []

unfoldable pub intelligence_args : RunOptions → List Text
intelligence_args o =
    if o.enable_intelligence
    then codes "--enable-intelligence"
      ∷ (text_option (codes "--output-dir") o.output_dir
          ++ (plugin_option o.intelligence_plugins
              ++ (flag (codes "--allow-code-exec") o.allow_code_exec
                  ++ (text_option (codes "--dataset-cache-dir") o.dataset_cache_dir
                      ++ max_option o.max_concurrent))))
    else []

unfoldable pub build_benchy_args : Text → Text → Text → Text → Text → RunOptions → List Text
unfolding intelligence_args itoa
build_benchy_args base_url display served tokenizer api_key o =
    (codes "--base-url" ∷ base_url ∷ [])
    ++ ((codes "--model" ∷ display ∷ [])
        ++ ((codes "--served-model-name" ∷ served ∷ [])
            ++ ((codes "--tokenizer" ∷ tokenizer ∷ [])
                ++ ((codes "--runs" ∷ itoa o.runs ∷ [])
                    ++ (text_option (codes "--api-key") api_key
                        ++ ((codes "--pp" ∷ map itoa o.pp)
                            ++ ((codes "--tg" ∷ map itoa o.tg)
                                ++ (number_option (codes "--depth") o.depth
                                    ++ (number_option (codes "--concurrency") o.concurrency
                                        ++ (text_option (codes "--latency-mode") o.latency_mode
                                            ++ (flag (codes "--no-cache") o.no_cache
                                                ++ (flag (codes "--no-warmup") o.no_warmup
                                                    ++ (adapt_option o.adapt_prompt
                                                        ++ (flag (codes "--enable-prefix-caching")
                                                            o.enable_prefix_caching
                                                            ++ intelligence_args o))))))))))))))
