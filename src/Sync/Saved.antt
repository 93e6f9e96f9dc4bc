-- ===== src/Sync/Saved.antt =====
-- proxy/config_editor_api.go: what a save leaves behind.
use llama_swap.Base.{
  ◌≡◌, ◌≢◌, refl, inl, inr, sym, subst, ◌∙◌, Option, none, some, Bool, true, false, ◌+◌, Bool-cases,
}
use llama_swap.Base.Text.{Text, text_eq_ne, text_eq_refl}
use llama_swap.Base.Dict.{Dict, lookup, insert, delete, lookup-insert}
use llama_swap.Config.Types.{Config}
use llama_swap.Group.State.{ProcessGroup}
use llama_swap.Sync.Runtime.{apply_config_and_sync_process_groups}
use llama_swap.Sync.Editor.{
  Editor, EditorEnv, Reply, bad_request, internal_server_error, status_ok, never, tmp_path,
  rename_to, written, write_config_raw_file, after_apply, after_write, save_loaded, save_parsed,
  api_save_config_editor,
}

-- The files but the temporary one.
abbrev pub SameFiles : Option Text → Dict Text → Dict Text → Type 0
SameFiles none before after = before ≡ after
SameFiles (some path) before after =
    (other : Text) → other ≢ tmp_path path → lookup other after ≡ lookup other before

-- A save that is answered with success.
pub record Saved (env : EditorEnv) (e after : Editor) (content : Option Text) : Type 0 where
  pub raw : Text
  pub parsed : Config
  pub path : Text
  pub ended : Dict ProcessGroup
  pub sent : content ≡ some raw
  pub loads : env.load raw ≡ some parsed
  pub checked : env.shell_ok (env.normalize parsed) ≡ true
  pub at_path : env.config_path ≡ some path
  pub on_disk : lookup path after.files ≡ some raw
  pub in_use : after.config ≡ env.normalize parsed
  pub synced :
      apply_config_and_sync_process_groups e.groups (env.normalize parsed) env.others
      ≡ some (after.groups, ended)
  pub notified : after.events ≡ e.events + 1

-- A save that is answered with a failure of a file operation.
pub record NotSaved (env : EditorEnv) (e after : Editor) : Type 0 where
  pub same_config : after.config ≡ e.config
  pub same_groups : after.groups ≡ e.groups
  pub same_events : after.events ≡ e.events
  pub same_files : SameFiles env.config_path e.files after.files

abbrev pub SaveEnd : EditorEnv → Editor → Option Text → Reply → Editor → Type 0
SaveEnd env e content bad_request after = after ≡ e
SaveEnd env e content internal_server_error after = NotSaved env e after
SaveEnd env e content status_ok after = Saved env e after content
SaveEnd env e content never after =
    (c : Config) × (apply_config_and_sync_process_groups e.groups c env.others ≡ none)

insert_tmp :
    (path raw : Text) (files : Dict Text) (other : Text)
    → other ≢ tmp_path path
    → lookup other (insert (tmp_path path) raw files) ≡ lookup other files
insert_tmp path raw files other ne =
    lookup-insert (tmp_path path) other raw files
    ∙ rw (text_eq_ne (tmp_path path) other (λ q. ne (sym q))) refl

module _ (env : EditorEnv) (e : Editor) (raw : Text) (parsed : Config) (path : Text)
    (loads : env.load raw ≡ some parsed) (checked : env.shell_ok (env.normalize parsed) ≡ true)
    (at_path : env.config_path ≡ some path) where
  not_saved :
      (files : Dict Text)
      → ((other : Text) → other ≢ tmp_path path → lookup other files ≡ lookup other e.files)
      → NotSaved env e (record e { files = files })
  not_saved files same = record {
    same_config = refl;
    same_groups = refl;
    same_events = refl;
    same_files = subst (λ (p : Option Text). SameFiles p e.files files) (sym at_path) same;
  }

  after_apply_lem :
      (files : Dict Text) (r : Option (Dict ProcessGroup × Dict ProcessGroup))
      → lookup path files ≡ some raw
      → apply_config_and_sync_process_groups e.groups (env.normalize parsed) env.others ≡ r
      → SaveEnd env e
          (some raw)
          (after_apply (record e { files = files }) (env.normalize parsed) r).0
          (after_apply (record e { files = files }) (env.normalize parsed) r).1
  after_apply_lem files none put s = (env.normalize parsed, s)
  after_apply_lem files (some (groups, ended)) put s = record {
    raw = raw;
    parsed = parsed;
    path = path;
    ended = ended;
    sent = refl;
    loads = loads;
    checked = checked;
    at_path = at_path;
    on_disk = put;
    in_use = refl;
    synced = s;
    notified = refl;
  }

  after_rename_lem :
      (ok : Bool)
      → (let r = rename_to ok path raw (insert (tmp_path path) raw e.files) in
          SaveEnd env e
            (some raw)
            (after_write env e (env.normalize parsed) r).0
            (after_write env e (env.normalize parsed) r).1)
  after_rename_lem false =
      not_saved (insert (tmp_path path) raw e.files) (insert_tmp path raw e.files)
  after_rename_lem true =
      after_apply_lem
        (insert path raw (delete (tmp_path path) (insert (tmp_path path) raw e.files)))
        (apply_config_and_sync_process_groups e.groups (env.normalize parsed) env.others)
        (lookup-insert path path raw (delete (tmp_path path) (insert (tmp_path path) raw e.files))
          ∙ rw (text_eq_refl path) refl)
        refl

  after_write_lem :
      (f : Option Text)
      → SaveEnd env e
          (some raw)
          (after_write env e (env.normalize parsed) (written env f path raw e.files)).0
          (after_write env e (env.normalize parsed) (written env f path raw e.files)).1
  after_write_lem none = after_rename_lem env.rename_ok
  after_write_lem (some partial) =
      not_saved (insert (tmp_path path) partial e.files) (insert_tmp path partial e.files)

save_loaded_lem :
    (env : EditorEnv) (e : Editor) (raw : Text) (parsed : Config) (found : Option Text)
    → env.load raw ≡ some parsed
    → env.shell_ok (env.normalize parsed) ≡ true
    → env.config_path ≡ found
    → SaveEnd env e
        (some raw)
        (save_loaded env e raw (env.normalize parsed) found).0
        (save_loaded env e raw (env.normalize parsed) found).1
unfolding write_config_raw_file
save_loaded_lem env e raw parsed none l k p = refl
save_loaded_lem env e raw parsed (some path) l k p =
    after_write_lem env e raw parsed path l k p env.write_fails

save_parsed_lem :
    (env : EditorEnv) (e : Editor) (raw : Text) (found : Option Config)
    → env.load raw ≡ found
    → SaveEnd env e (some raw) (save_parsed env e raw found).0 (save_parsed env e raw found).1
save_parsed_lem env e raw none l = refl
save_parsed_lem env e raw (some parsed) l =
    elim (Bool-cases (env.shell_ok (env.normalize parsed))) [
      | inl passed ↦ rw passed (save_loaded_lem env e raw parsed env.config_path l passed refl)
      | inr failed ↦ rw failed refl
    ]

-- A save by the configuration editor, by its answer. A bad request changes nothing. A failed file
-- operation leaves the configuration, the groups, the events and all files but the temporary one as
-- they were. A success has loaded and checked the text, the file holds exactly that text, the
-- configuration in use is the one loaded from it, the groups are what its application makes of the
-- groups before, and one event was emitted. Otherwise a shutdown of the application does not return.
pub api_save_config_editor-SaveEnd :
    (env : EditorEnv) (e : Editor) (content : Option Text)
    → SaveEnd env e content
        (api_save_config_editor env e content).0
        (api_save_config_editor env e content).1
unfolding api_save_config_editor
api_save_config_editor-SaveEnd env e none = refl
api_save_config_editor-SaveEnd env e (some raw) = save_parsed_lem env e raw (env.load raw) refl
