-- ===== src/Sync/Editor.antt =====
-- proxy/config_editor_api.go: `apiSaveConfigEditor` and `writeConfigRawFile`.
use llama_swap.Base.{List, ◌++◌, Option, none, some, Bool, true, false, if◌then◌else◌, ℕ, ◌+◌}
use llama_swap.Base.Text.{Text, codes}
use llama_swap.Base.Dict.{Dict, insert, delete}
use llama_swap.Config.Types.{Config}
use llama_swap.Process.Stop.{Act}
use llama_swap.Group.State.{ProcessGroup}
use llama_swap.Sync.Runtime.{apply_config_and_sync_process_groups}

-- The files by path, the manager's configuration and groups, and the events emitted.
pub record Editor : Type 0 where
  pub files : Dict Text
  pub config : Config
  pub groups : Dict ProcessGroup
  pub events : ℕ

-- What the handler gets from elsewhere: the decoder and `LoadConfigFromReader`, the rewriting and the
-- shell check of the commands, the path, and whether the two file operations succeed. A write that
-- fails may leave some text in the file.
pub record EditorEnv : Type 0 where
  pub load : Text → Option Config
  pub normalize : Config → Config
  pub shell_ok : Config → Bool
  pub config_path : Option Text
  pub write_fails : Option Text
  pub rename_ok : Bool
  pub others : Text → Text → List Act

-- `never` says that a `Shutdown` of the sync does not return.
pub data Reply : Type 0 where
  bad_request internal_server_error status_ok never : Reply

abbrev pub tmp_path : Text → Text
tmp_path path = path ++ codes ".tmp"

-- `os.WriteFile` of the temporary file, then `os.Rename`.
abbrev pub rename_to : Bool → Text → Text → Dict Text → Dict Text × Bool
rename_to true path raw files = (insert path raw (delete (tmp_path path) files), true)
rename_to false path raw files = (files, false)

abbrev pub written : EditorEnv → Option Text → Text → Text → Dict Text → Dict Text × Bool
written env (some partial) path raw files = (insert (tmp_path path) partial files, false)
written env none path raw files =
    rename_to env.rename_ok path raw (insert (tmp_path path) raw files)

unfoldable pub write_config_raw_file : EditorEnv → Text → Text → Dict Text → Dict Text × Bool
write_config_raw_file env path raw files = written env env.write_fails path raw files

abbrev pub after_apply :
    Editor → Config → Option (Dict ProcessGroup × Dict ProcessGroup) → Reply × Editor
after_apply e c none = (never, record e { config = c })
after_apply e c (some (groups, ended)) =
    (status_ok, record e { config = c; groups = groups; events = e.events + 1 })

abbrev pub after_write : EditorEnv → Editor → Config → Dict Text × Bool → Reply × Editor
after_write env e c (files, false) = (internal_server_error, record e { files = files })
after_write env e c (files, true) =
    after_apply (record e { files = files }) c
      (apply_config_and_sync_process_groups e.groups c env.others)

abbrev pub save_loaded : EditorEnv → Editor → Text → Config → Option Text → Reply × Editor
save_loaded env e content c none = (bad_request, e)
save_loaded env e content c (some path) =
    after_write env e c (write_config_raw_file env path content e.files)

abbrev pub save_parsed : EditorEnv → Editor → Text → Option Config → Reply × Editor
save_parsed env e content none = (bad_request, e)
save_parsed env e content (some parsed) =
    let c = env.normalize parsed in
    if env.shell_ok c then save_loaded env e content c env.config_path else (bad_request, e)

-- The option is the content of the request, none where the body is no JSON.
unfoldable pub api_save_config_editor : EditorEnv → Editor → Option Text → Reply × Editor
api_save_config_editor env e none = (bad_request, e)
api_save_config_editor env e (some content) = save_parsed env e content (env.load content)
