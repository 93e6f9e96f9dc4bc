-- ===== src/Manager/Forms.antt =====
-- proxy/proxymanager.go: `proxyOAIPostFormHandler`.
use llama_swap.Base.{
  List, [], ◌∷◌, ◌++◌, Option, none, some, false, if◌then◌else◌, length, replicate,
}
use llama_swap.Base.Text.{Text, codes, text_eq}
use llama_swap.Base.Dict.{Dict, insert}
use llama_swap.Metrics.Headers.{Header}
use llama_swap.Group.State.{ProcessGroup}
use llama_swap.Manager.Routes.{
  Manager, Target, Resolved, no_process_group, never_returns, no_target, resolved,
  resolve_model_target,
}
use llama_swap.Manager.Bodies.{use_name_of}
use llama_swap.Manager.Inference.{
  Forwarded, Outside, Answer, blocks, answer, model_of, content_length, unless_served,
}

-- A file of the request; its content is none if it cannot be opened or copied.
pub record FormFile : Type 0 where
  pub filename : Text
  pub content : Option Text

pub record Form : Type 0 where
  pub values : Dict (List Text)
  pub files : Dict (List FormFile)

-- A part of the new form.
pub data Part : Type 0 where
  field : Text → Text → Part
  file : Text → Text → Text → Part

-- The request: the parsed form, where it can be parsed, and what `FormValue` gives for `model`; and
-- the package multipart: the new body, where nothing fails, with its content type.
pub record FormRequest : Type 0 where
  pub path : Text
  pub headers : Header
  pub parsed : Option Form
  pub model_value : Text
  pub encode : List Part → Option Text
  pub content_type : Text

abbrev pub upstream_name : Text → Text → Text
upstream_name use_name requested = if text_eq use_name [] then requested else use_name

unfoldable pub copy_values : Text → Text → List Text → List Part → List Part
copy_values name key [] rest = rest
copy_values name key (v ∷ vs) rest =
    field key (if text_eq key (codes "model") then name else v) ∷ copy_values name key vs rest

unfoldable pub copy_fields : Text → Dict (List Text) → List Part → List Part
unfolding copy_values
copy_fields name [] rest = rest
copy_fields name ((key, vs) ∷ m) rest = copy_values name key vs (copy_fields name m rest)

abbrev pub with_file : Text → Text → Option Text → Option (List Part) → Option (List Part)
with_file key name none rest = none
with_file key name (some content) none = none
with_file key name (some content) (some rest) = some (file key name content ∷ rest)

unfoldable pub copy_each : Text → List FormFile → Option (List Part) → Option (List Part)
copy_each key [] rest = rest
copy_each key (f ∷ fs) rest = with_file key f.filename f.content (copy_each key fs rest)

unfoldable pub copy_files : Dict (List FormFile) → Option (List Part)
unfolding copy_each
copy_files [] = some []
copy_files ((key, fs) ∷ m) = copy_each key fs (copy_files m)

abbrev pub after_fields : Text → Dict (List Text) → Option (List Part) → Option (List Part)
after_fields name values none = none
after_fields name values (some parts) = some (copy_fields name values parts)

unfoldable pub rebuilt : Text → Form → Option (List Part)
unfolding copy_fields copy_files
rebuilt name form = after_fields name form.values (copy_files form.files)

abbrev pub form_request : FormRequest → Target → Text → Forwarded
form_request r target sent = record {
  model = model_of target;
  path = r.path;
  headers =
      insert (codes "Content-Length") (content_length sent ∷ [])
        (insert (codes "Content-Type") (r.content_type ∷ []) r.headers);
  body = sent;
  streaming = false;
}

module _ {M : Type 0} (pm : Manager) (o : Outside) (r : FormRequest) (m : M) where
  abbrev pub form_sent : Target → Dict ProcessGroup → Option Text → Answer M
  form_sent target groups none = answer (some 500) none groups m
  form_sent target groups (some sent) =
      let f = form_request r target sent in
      answer (unless_served (o.next target f)) (some f) groups m

  abbrev pub encoded : Option (List Part) → Option Text
  encoded none = none
  encoded (some parts) = r.encode parts

  abbrev pub form_resolved : Form → Resolved → Answer M
  form_resolved form no_process_group = answer (some 500) none pm.groups m
  form_resolved form never_returns = blocks
  form_resolved form no_target = answer (some 400) none pm.groups m
  form_resolved form (resolved target groups) =
      form_sent target groups
        (encoded (rebuilt (upstream_name (use_name_of target) r.model_value) form))

  abbrev pub form_parsed : Option Form → Answer M
  form_parsed none = answer (some 400) none pm.groups m
  form_parsed (some form) =
      if text_eq r.model_value []
      then answer (some 400) none pm.groups m
      else form_resolved form (resolve_model_target pm o.swap_env r.model_value)

  unfoldable pub proxy_oai_post_form_handler : Answer M
  unfolding rebuilt resolve_model_target
  proxy_oai_post_form_handler = form_parsed r.parsed

-- The values and the files that a list of parts has under a name, and those of the request.
abbrev pub values_of : Text → List Part → List Text
values_of n [] = []
values_of n (field key v ∷ ps) = if text_eq key n then v ∷ values_of n ps else values_of n ps
values_of n (file key name content ∷ ps) = values_of n ps

abbrev pub file_with : Text → Option Text → FormFile
file_with name content = record { filename = name; content = content }

abbrev pub files_of : Text → List Part → List FormFile
files_of n [] = []
files_of n (field key v ∷ ps) = files_of n ps
files_of n (file key name content ∷ ps) =
    if text_eq key n then file_with name (some content) ∷ files_of n ps else files_of n ps

abbrev pub all_at {ℓ} : {A : Type ℓ} → Text → Dict (List A) → List A
all_at n [] = []
all_at n ((key, xs) ∷ m) = if text_eq key n then xs ++ all_at n m else all_at n m

abbrev pub named_values : Text → Text → List Text → List Text
named_values name n vs = if text_eq n (codes "model") then replicate (length vs) name else vs
