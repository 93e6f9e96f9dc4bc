-- ===== src/Manager/Paths.antt =====
-- proxy/proxymanager.go: which model a path names.
use llama_swap.Base.{
  ◌≡◌, refl, sym, ◌∙◌, ap, subst, inl, inr, List, [], ◌∷◌, ◌++◌, append_assoc, none, some, Bool,
  true, false, ◌&&◌, not, arith, Bool-cases, Option-cases, all, filterb,
}
use llama_swap.Base.Text.{Text, text_eq, split, join, trim_space}
use llama_swap.Config.Types.{Config}
use llama_swap.Config.Names.{real_model_name}
use llama_swap.Manager.Routes.{Found, slash, extended, find_from, find_model_in_path}

abbrev pub is_part : Text → Bool
is_part p = not (text_eq p [])

abbrev pub is_model : Config → Text → Bool
is_model c name = elim (real_model_name c name) [ none ↦ false | some real ↦ true ]

-- None of the names that some parts build up, one after the other, is a model.
abbrev pub misses : Config → List Text → List Text → Bool
misses c before [] = true
misses c before (p ∷ ps) =
    let rest = misses c (before ++ (p ∷ [])) ps in
    not (is_model c (join slash (before ++ (p ∷ [])))) && rest

-- How a path is cut: the parts passed over, the one that ends the name, and those that are left.
pub record Cut (c : Config) (before parts : List Text) (f : Found) : Type 0 where
  pub early : List Text
  pub last : Text
  pub left : List Text
  pub whole : early ++ (last ∷ left) ≡ parts
  pub named : f.search_name ≡ join slash (before ++ (filterb is_part early ++ (last ∷ [])))
  pub remains : f.remaining ≡ slash ++ join slash left
  pub is_real : real_model_name c f.search_name ≡ some f.real_name
  pub first : misses c before (filterb is_part early) ≡ true

extend_part : (b p : Text) → is_part b ≡ true → extended b p ≡ b ++ (slash ++ p)
extend_part b p h = ground arith

not_empty : (b t : Text) → is_part b ≡ true → is_part (b ++ t) ≡ true
unfolding text_eq
not_empty [] t h = cc
not_empty (x ∷ b) t h = refl

extended-join :
    (before : List Text) (p : Text)
    → all is_part before ≡ true
    → extended (join slash before) p ≡ join slash (before ++ (p ∷ []))
unfolding join text_eq
extended-join [] p h = refl
extended-join (b ∷ []) p h = let k : is_part b ≡ true = ground arith in extend_part b p k
extended-join (b ∷ (d ∷ ds)) p h =
    let k : is_part b ≡ true = ground arith in
    let l : all is_part (d ∷ ds) ≡ true = ground arith in
    let m : is_part d ≡ true = ground arith in
    let more = join slash (d ∷ ds) in
    let deeper : more ++ (slash ++ p) ≡ join slash ((d ∷ ds) ++ (p ∷ [])) =
      sym (extend_part more p (join_part d ds m)) ∙ extended-join (d ∷ ds) p l in
    extend_part (b ++ (slash ++ more)) p (not_empty b (slash ++ more) k)
    ∙ append_assoc b (slash ++ more) (slash ++ p)
    ∙ ap (λ (t : Text). b ++ (slash ++ t)) deeper
  where
    join_part :
        (d : Text) (ds : List Text) → is_part d ≡ true → is_part (join slash (d ∷ ds)) ≡ true
    join_part d [] h = h
    join_part d (e ∷ es) h = not_empty d (slash ++ join slash (e ∷ es)) h

all-snoc :
    (before : List Text) (p : Text)
    → all is_part before ≡ true
    → is_part p ≡ true
    → all is_part (before ++ (p ∷ [])) ≡ true
all-snoc [] p h k = ground arith
all-snoc (b ∷ bs) p h k = let r = all-snoc bs p in ground (arith, r)

-- A part that is passed over.
later-Cut :
    (c : Config) (before parts : List Text) (p : Text) (f : Found)
    → is_part p ≡ true
    → is_model c (join slash (before ++ (p ∷ []))) ≡ false
    → Cut c (before ++ (p ∷ [])) parts f
    → Cut c before (p ∷ parts) f
later-Cut c before parts p f h n k = record {
  early = p ∷ k.early;
  last = k.last;
  left = k.left;
  whole = ap (◌∷◌ p) k.whole;
  named =
      k.named
      ∙ rw h (
          ap (join slash)
            (append_assoc before (p ∷ []) (filterb is_part k.early ++ (k.last ∷ []))));
  remains = k.remains;
  is_real = k.is_real;
  first = rw (h, n) k.first;
}

empty-Cut :
    (c : Config) (before parts : List Text) (p : Text) (f : Found)
    → is_part p ≡ false
    → Cut c before parts f
    → Cut c before (p ∷ parts) f
empty-Cut c before parts p f h k = record {
  early = p ∷ k.early;
  last = k.last;
  left = k.left;
  whole = ap (◌∷◌ p) k.whole;
  named = rw h k.named;
  remains = k.remains;
  is_real = k.is_real;
  first = rw h k.first;
}

some_found : {f g : Found} → some f ≡ some g → f ≡ g
some_found e = cc

find_from-Cut :
    (c : Config) (before parts : List Text) (f : Found)
    → all is_part before ≡ true
    → find_from c (join slash before) parts ≡ some f
    → Cut c before parts f
unfolding find_from
find_from-Cut c before [] f b e = cc
find_from-Cut c before (p ∷ parts) f b e =
    let x = extended-join before p b in
    elim (Bool-cases (text_eq p [])) [
      | inl h ↦
          empty-Cut c before parts p f (ground arith) (find_from-Cut c before parts f b (rw h at e))
      | inr h ↦ elim (Option-cases (real_model_name c (join slash (before ++ (p ∷ []))))) [
        | inl n ↦ later-Cut c before parts p f (ground arith) (rw (n, is_model) refl) (
            find_from-Cut c (before ++ (p ∷ [])) parts f (all-snoc before p b (ground arith))
              (rw (h, x, n) at e))
        | inr (real, n) ↦
            subst (λ (g : Found). Cut c before (p ∷ parts) g) (some_found (rw (h, x, n) at e))
              (record {
                early = [];
                last = p;
                left = parts;
                whole = refl;
                named = refl;
                remains = refl;
                is_real = n;
                first = refl;
              })
      ]
    ]

-- When `findModelInPath` finds a model, it cut the path at a slash: the name it searched for is made
-- of the parts before the cut, without the empty ones, and is a model or an alias with the real
-- name that it returns; no shorter such name is one; and the parts after the cut are what remains.
pub find_model_in_path-Cut :
    (c : Config) (path : Text) (f : Found)
    → find_model_in_path c path ≡ some f
    → Cut c [] (split b'/' (trim_space path)) f
unfolding find_model_in_path join
find_model_in_path-Cut c path f e = find_from-Cut c [] (split b'/' (trim_space path)) f refl e
