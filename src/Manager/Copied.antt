-- ===== src/Manager/Copied.antt =====
-- proxy/proxymanager.go: what stands in the form that `proxyOAIPostFormHandler` makes.
use llama_swap.Base.{
  ◌≡◌, refl, sym, ap, ◌∙◌, ◌⊎◌, inl, inr, List, [], ◌∷◌, ◌++◌, append_assoc, append-nil, Option,
  none, some, Bool, true, false, if◌then◌else◌, arith, length, replicate, Bool-cases,
}
use llama_swap.Base.Text.{Text, codes, text_eq, text_eq_iff}
use llama_swap.Base.Dict.{Dict}
use llama_swap.Group.State.{ProcessGroup}
use llama_swap.Manager.Routes.{
  Manager, Target, Resolved, no_process_group, never_returns, no_target, resolved,
  resolve_model_target,
}
use llama_swap.Manager.Bodies.{use_name_of}
use llama_swap.Manager.Inference.{Outside, Answer, blocks, answer, unless_served}
use llama_swap.Manager.Forms.{
  file_with, FormFile, Form, Part, file, FormRequest, upstream_name, copy_values, copy_fields,
  with_file, copy_each, copy_files, after_fields, rebuilt, form_sent, encoded, form_resolved,
  form_parsed, proxy_oai_post_form_handler, values_of, files_of, all_at, named_values,
}

replicate-append :
    (name : Text) (vs ws : List Text)
    → replicate (length (vs ++ ws)) name ≡ replicate (length vs) name ++ replicate (length ws) name
replicate-append name [] ws = refl
replicate-append name (v ∷ vs) ws = ap (◌∷◌ name) (replicate-append name vs ws)

named_values-append :
    (name n : Text) (vs ws : List Text)
    → named_values name n (vs ++ ws) ≡ named_values name n vs ++ named_values name n ws
named_values-append name n vs ws = elim (Bool-cases (text_eq n (codes "model"))) [
  | inl e ↦ rw e (replicate-append name vs ws)
  | inr e ↦ rw e refl
]

module _ (name n : Text) where
  values_of-copy_values :
      (key : Text) (vs : List Text) (rest : List Part)
      → values_of n (copy_values name key vs rest)
        ≡ (if text_eq key n then named_values name n vs ++ values_of n rest else values_of n rest)
  unfolding copy_values
  values_of-copy_values key [] rest = ground arith
  values_of-copy_values key (v ∷ vs) rest =
      ground (arith, text_eq_iff key n, values_of-copy_values key vs rest)

  files_of-copy_values :
      (key : Text) (vs : List Text) (rest : List Part)
      → files_of n (copy_values name key vs rest) ≡ files_of n rest
  unfolding copy_values
  files_of-copy_values key [] rest = refl
  files_of-copy_values key (v ∷ vs) rest = files_of-copy_values key vs rest

  parts_of-copy_fields :
      (m : Dict (List Text)) (rest : List Part)
      → (values_of n (copy_fields name m rest)
          ≡ named_values name n (all_at n m) ++ values_of n rest)
        × (files_of n (copy_fields name m rest) ≡ files_of n rest)
  unfolding copy_fields
  parts_of-copy_fields [] rest = (ground arith, refl)
  parts_of-copy_fields ((key, vs) ∷ m) rest =
      let (values, files) = parts_of-copy_fields m rest in
      let later = copy_fields name m rest in
      (
        values_of-copy_values key vs later ∙ elim (Bool-cases (text_eq key n)) [
          | inl here ↦
              rw (here, values, named_values-append name n vs (all_at n m))
                (sym (
                  append_assoc (named_values name n vs) (named_values name n (all_at n m))
                    (values_of n rest)))
          | inr other ↦ rw other values
        ],
        files_of-copy_values key vs later ∙ files,
      )

with_file_inv :
    (key name : Text) (c : Option Text) (rest : Option (List Part)) {parts : List Part}
    → with_file key name c rest ≡ some parts
    → (content : Text) × (ps : List Part) × (c ≡ some content)
      × (rest ≡ some ps)
      × (parts ≡ file key name content ∷ ps)
with_file_inv key name none rest e = cc
with_file_inv key name (some content) none e = cc
with_file_inv key name (some content) (some ps) e = (content, ps, refl, refl, cc)

put_file :
    (here : Bool) (fs rest : List FormFile) {x y : FormFile} {xs : List FormFile}
    → x ≡ y
    → xs ≡ (if here then fs ++ rest else rest)
    → (if here then x ∷ xs else xs) ≡ (if here then y ∷ (fs ++ rest) else rest)
put_file true fs rest h e = rw (h, e) refl
put_file false fs rest h e = e

abbrev files_in : Text → Option (List Part) → List FormFile
files_in n none = []
files_in n (some ps) = files_of n ps

abbrev values_in : Text → Option (List Part) → List Text
values_in n none = []
values_in n (some ps) = values_of n ps

module _ (n : Text) where
  copy_each_lem :
      (key : Text) (fs : List FormFile) (rest : Option (List Part)) {parts : List Part}
      → copy_each key fs rest ≡ some parts
      → (ps : List Part) × (rest ≡ some ps)
        × (files_of n parts ≡ (if text_eq key n then fs ++ files_of n ps else files_of n ps))
        × (values_of n parts ≡ values_of n ps)
  unfolding copy_each
  copy_each_lem key [] rest {parts} e = (parts, e, ground arith, refl)
  copy_each_lem key (f ∷ fs) rest {parts} e =
      let (content, later, has, left, same) =
        with_file_inv key f.filename f.content (copy_each key fs rest) e in
      let (ps, whole, files, values) = copy_each_lem key fs rest left in
      let kept = ap (file_with f.filename) has in
      (
        ps,
        whole,
        ap (files_of n) same ∙ put_file (text_eq key n) fs (files_of n ps) (sym kept) files,
        ap (values_of n) same ∙ values,
      )

  copy_files_lem :
      (m : Dict (List FormFile)) {parts : List Part}
      → copy_files m ≡ some parts
      → (files_of n parts ≡ all_at n m) × (values_of n parts ≡ [])
  unfolding copy_files
  copy_files_lem [] {parts} e = (ap (files_in n) (sym e), ap (values_in n) (sym e))
  copy_files_lem ((key, fs) ∷ m) e =
      let (ps, rest, files, values) = copy_each_lem key fs (copy_files m) e in
      let (more, none_more) = copy_files_lem m rest in (files ∙ rw more refl, values ∙ none_more)

-- The parts hold the files of a form and its values, with a name put for each value of `model`.
abbrev pub IsCopied : Text → Form → List Part → Type 0
IsCopied name form parts =
    (n : Text)
    → (values_of n parts ≡ named_values name n (all_at n form.values))
      × (files_of n parts ≡ all_at n form.files)

rebuilt-IsCopied :
    (name : Text) (form : Form) (x : Option (List Part)) {parts : List Part}
    → copy_files form.files ≡ x
    → after_fields name form.values x ≡ some parts
    → IsCopied name form parts
rebuilt-IsCopied name form (some ps) {parts} h e n =
    let copied = copy_fields name form.values ps in
    let same = ap (λ o. values_in n o) (sym e) in
    let same_files = ap (λ o. files_in n o) (sym e) in
    let (values, files) = parts_of-copy_fields name n form.values ps in
    let (all_files, no_values) = copy_files_lem n form.files h in
    (
      same ∙ values ∙ rw no_values (append-nil (named_values name n (all_at n form.values))),
      same_files ∙ files ∙ all_files,
    )
rebuilt-IsCopied name form none h e n = cc

module _ {M : Type 0} (pm : Manager) (o : Outside) (r : FormRequest) (m : M) where
  -- The upstream's name for the model, or else the requested one.
  abbrev pub sent_name : Target → Text
  sent_name target = if text_eq (use_name_of target) [] then r.model_value else use_name_of target

  abbrev pub FormEnd : Answer M → Type 0
  FormEnd blocks = resolve_model_target pm o.swap_env r.model_value ≡ never_returns
  FormEnd (answer status none groups n) =
      (n ≡ m) × ((status ≡ some 400) × (groups ≡ pm.groups) ⊎ (status ≡ some 500))
  FormEnd (answer status (some f) groups n) =
      (n ≡ m)
      × ((form : Form) × (target : Target) × (parts : List Part) × (r.parsed ≡ some form)
          × (resolve_model_target pm o.swap_env r.model_value ≡ resolved target groups)
          × IsCopied (sent_name target) form parts
          × (r.encode parts ≡ some f.body)
          × (status ≡ unless_served (o.next target f)))

  sent_lem :
      (form : Form) (target : Target) (groups : Dict ProcessGroup) (x : Option (List Part))
      → r.parsed ≡ some form
      → resolve_model_target pm o.swap_env r.model_value ≡ resolved target groups
      → rebuilt (upstream_name (use_name_of target) r.model_value) form ≡ x
      → FormEnd (form_sent pm o r m target groups (encoded pm o r m x))
  unfolding rebuilt
  sent_lem form target groups none p e h = (refl, inr refl)
  sent_lem form target groups (some parts) p e h = go (r.encode parts) refl
    where
      go : (b : Option Text) → r.encode parts ≡ b → FormEnd (form_sent pm o r m target groups b)
      go none k = (refl, inr refl)
      go (some sent) k = (
        refl,
        (
          form,
          target,
          parts,
          p,
          e,
          rebuilt-IsCopied _ form (copy_files form.files) refl h,
          k,
          refl,
        ),
      )

  resolved_lem :
      (form : Form) (x : Resolved)
      → r.parsed ≡ some form
      → resolve_model_target pm o.swap_env r.model_value ≡ x
      → FormEnd (form_resolved pm o r m form x)
  resolved_lem form no_process_group p e = (refl, inr refl)
  resolved_lem form never_returns p e = e
  resolved_lem form no_target p e = (refl, inl (refl, refl))
  resolved_lem form (resolved target groups) p e =
      sent_lem form target groups (rebuilt (upstream_name (use_name_of target) r.model_value) form)
        p e refl

  -- A form that is sent on holds the files and the values of the request under their names, with the
  -- upstream's name, or else the requested one, for each value of `model`, and goes to the target of
  -- that model; without one the answer is 400 and nothing changed, or 500. The monitor is left alone,
  -- and the handler waits only if the swap does.
  pub proxy_oai_post_form_handler-FormEnd : FormEnd (proxy_oai_post_form_handler pm o r m)
  unfolding proxy_oai_post_form_handler
  proxy_oai_post_form_handler-FormEnd = go r.parsed refl
    where
      go : (x : Option Form) → r.parsed ≡ x → FormEnd (form_parsed pm o r m x)
      go none p = (refl, inl (refl, refl))
      go (some form) p = elim (Bool-cases (text_eq r.model_value [])) [
        | inl empty ↦ rw empty (refl, inl (refl, refl))
        | inr named ↦ rw named (resolved_lem form _ p refl)
      ]
