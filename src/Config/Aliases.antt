-- ===== src/Config/Aliases.antt =====
-- proxy/config/config.go: what the map of aliases holds once it is filled.
use llama_swap.Base.{
  ◌≡◌, ◌↔◌, refl, sym, subst, ◌⊎◌, inl, inr, List, [], ◌∷◌, none, some, true, arith, Option-cases,
}
use llama_swap.Base.Text.{Text, text_eq, text_eq_iff, contains}
use llama_swap.Base.Dict.{Dict, lookup, insert, lookup-insert}
use llama_swap.Config.Types.{ModelConfig, Result, ok, err, ◌>>=◌}
use llama_swap.Config.Names.{if_fresh, add_alias, add_aliases, populate_aliases}

pub bind_cases :
    (m : Result (Dict Text)) (f : Dict Text → Result (Dict Text)) {d : Dict Text}
    → (m >>= f) ≡ ok d
    → (c : Dict Text) × (m ≡ ok c) × (f c ≡ ok d)
bind_cases (ok c) f h = (c, refl, h)
bind_cases (err e) f h = cc

pub ok-injective : {c d : Dict Text} → ok c ≡ ok d → c ≡ d
ok-injective h = cc

-- A map that has what another one has.
abbrev Extends : Dict Text → Dict Text → Type 0
Extends found more = (a m : Text) → lookup a found ≡ some m → lookup a more ≡ some m

add_alias_lem :
    (model a : Text) (found more : Dict Text)
    → add_alias model a found ≡ ok more
    → (lookup a found ≡ none) × (more ≡ insert a model found)
unfolding add_alias
add_alias_lem model a found more h = elim (Option-cases (lookup a found)) [
  | inl e ↦ (e, sym (ok-injective (rw (e, if_fresh) at h)))
  | inr (m, e) ↦ absurd (let k = rw e at h in cc)
]

add_alias-Extends :
    (model a : Text) (found more : Dict Text)
    → add_alias model a found ≡ ok more
    → Extends found more
add_alias-Extends model a found more h b m k =
    let (fresh, e) = add_alias_lem model a found more h in
    rw e (ground (arith, lookup-insert a b model found, text_eq_iff a b))

add_aliases-Extends :
    (model : Text) (names : List Text) (found more : Dict Text)
    → add_aliases model names found ≡ ok more
    → Extends found more
unfolding add_aliases
add_aliases-Extends model [] found more h b m k =
    subst (λ (d : Dict Text). lookup b d ≡ some m) (ok-injective h) k
add_aliases-Extends model (a ∷ names) found more h b m k =
    let (c, e, r) = bind_cases (add_alias model a found) (λ d. add_aliases model names d) h in
    add_aliases-Extends model names c more r b m (add_alias-Extends model a found c e b m k)

-- What one alias adds.
add_alias_iff :
    (model a : Text) (found more : Dict Text) (b m : Text)
    → add_alias model a found ≡ ok more
    → (lookup b more ≡ some m) ↔ ((lookup b found ≡ some m) ⊎ ((model ≡ m) × (text_eq a b ≡ true)))
add_alias_iff model a found more b m h =
    let (fresh, e) = add_alias_lem model a found more h in
    (
      λ k. (let k' = rw e at k in ground (arith, lookup-insert a b model found, text_eq_iff a b)),
      λ d. rw e (ground (arith, lookup-insert a b model found, text_eq_iff a b)),
    )

-- What the aliases of one model add.
add_aliases_iff :
    (model : Text) (names : List Text) (found more : Dict Text) (b m : Text)
    → add_aliases model names found ≡ ok more
    → (lookup b more ≡ some m)
      ↔ ((lookup b found ≡ some m) ⊎ ((model ≡ m) × (contains names b ≡ true)))
unfolding add_aliases contains
add_aliases_iff model [] found more b m h =
    subst
      (λ (d : Dict Text).
        (lookup b d ≡ some m)
        ↔ ((lookup b found ≡ some m) ⊎ ((model ≡ m) × (contains [] b ≡ true))))
      (ok-injective h) (ground arith)
add_aliases_iff model (a ∷ names) found more b m h =
    let (c, e, r) = bind_cases (add_alias model a found) (λ d. add_aliases model names d) h in
    ground (arith, add_alias_iff model a found c b m e, add_aliases_iff model names c more b m r)

-- The model `m` stands among `models` with the alias `a`.
abbrev pub Declares : Dict ModelConfig → Text → Text → Type 0
Declares [] a m = ⊥
Declares ((model, c) ∷ models) a m =
    ((model ≡ m) × (contains c.aliases a ≡ true)) ⊎ Declares models a m

populate_aliases_from :
    (models : Dict ModelConfig) (found more : Dict Text) (a m : Text)
    → populate_aliases models found ≡ ok more
    → (lookup a more ≡ some m) ↔ ((lookup a found ≡ some m) ⊎ Declares models a m)
unfolding populate_aliases
populate_aliases_from [] found more a m h =
    subst (λ (d : Dict Text). (lookup a d ≡ some m) ↔ ((lookup a found ≡ some m) ⊎ ⊥))
      (ok-injective h) (ground arith)
populate_aliases_from ((model, c) ∷ models) found more a m h =
    let (d, e, r) =
      bind_cases (add_aliases model c.aliases found) (λ x. populate_aliases models x) h in
    ground (
      arith,
      add_aliases_iff model c.aliases found d a m e,
      populate_aliases_from models d more a m r,
    )

-- When the filling of the alias map succeeds, the map sends an alias to a model exactly if that
-- model declares it, in whatever order the models are visited; so no two models share an alias.
pub populate_aliases_iff :
    (models : Dict ModelConfig) (found : Dict Text) (a m : Text)
    → populate_aliases models [] ≡ ok found
    → (lookup a found ≡ some m) ↔ Declares models a m
unfolding lookup
populate_aliases_iff models found a m h =
    ground (arith, populate_aliases_from models [] found a m h)
