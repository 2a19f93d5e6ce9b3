-- ===== src/Conf.antt =====
-- src/conf.c, the server's configuration. `global_conf` is the state, `none` for NULL.
pub mod Load
mod Examples
use Prim.Native.String.{String}
use dungeon.Base.{
  zero, suc, ◌≡◌, Bool, true, false, Option, none, some, List, [], ◌∷◌, ℤ, pos, negsuc, minus_one,
  ltb_ℤ, ◌==◌, Run, ok, fault, ◌>>=◌, ◌>>◌, if◌then◌else◌,
}
use dungeon.Json.{
  Cjson, Kind, json_false, json_true, json_null, json_number, json_string, json_array, json_object,
  Entry, boolean, number, text, readable,
}

-- The constants of conf.h, and the paths that the build passes in.
abbrev pub default_daemon : ℤ
default_daemon = pos 1

abbrev pub default_concurrent_max : ℤ
default_concurrent_max = pos 20000

abbrev pub default_monitor_port : ℤ
default_monitor_port = pos 19990

abbrev pub install_prefix : String
install_prefix = "/usr/local/dungeon"

abbrev pub default_modpath : String
default_modpath = "/usr/local/dungeon/rooms"

abbrev pub is_number : Kind → Bool
is_number json_number = true
is_number _ = false

abbrev pub is_string : Kind → Bool
is_string json_string = true
is_string _ = false

abbrev pub is_array : Kind → Bool
is_array json_array = true
is_array _ = false

abbrev pub is_true : Kind → Bool
is_true json_true = true
is_true _ = false

-- DEFAULT_WORKERS is the number 0, which the code passes where a text is wanted: NULL.
abbrev pub default_entries : List (String × Entry)
default_entries =
    ("Debug", boolean true)
    ∷ ("MonitorPort", number default_monitor_port)
    ∷ ("ConcurrentMax", number default_concurrent_max)
    ∷ ("WorkingDir", text (some install_prefix))
    ∷ ("ModuleDir", text (some default_modpath))
    ∷ ("Workers", text none)
    ∷ []

module _ (c : Cjson) where
  open c use {Json, kind, valueint, valuestring, object_item, create}

  abbrev pub State : Type 0
  State = Option Json

  unfoldable pub conf_create_default_config : Run Json
  unfolding readable
  conf_create_default_config = readable default_entries >> ok (create default_entries)

  unfoldable pub conf_get_concurrent_max_internal : Json → ℤ
  conf_get_concurrent_max_internal conf = elim (object_item conf "ConcurrentMax") [
    | some tmp ↦ if is_number (kind tmp) then valueint tmp else minus_one
    | none ↦ default_concurrent_max
  ]

  unfoldable pub conf_get_log_level_internal : Json → ℤ
  conf_get_log_level_internal conf = elim (object_item conf "LogLevel") [
    | some tmp ↦ if is_number (kind tmp) then valueint tmp else minus_one
    | none ↦ pos 6
  ]

  unfoldable pub conf_get_daemon_internal : Json → ℤ
  conf_get_daemon_internal conf = elim (object_item conf "Daemon") [
    | some tmp ↦ if is_true (kind tmp) then pos 1 else pos 0
    | none ↦ default_daemon
  ]

  unfoldable pub conf_get_workers_internal : Json → ℤ → ℤ
  conf_get_workers_internal conf n = elim (object_item conf "Workers") [
    | some tmp ↦
        if is_number (kind tmp)
        then elim (valueint tmp) [ pos zero ↦ n | pos (suc k) ↦ pos (suc k) | negsuc k ↦ negsuc k ]
        else n
    | none ↦ n
  ]

  unfoldable pub conf_get_monitor_port_internal : Json → ℤ
  conf_get_monitor_port_internal conf = elim (object_item conf "MonitorPort") [
    | some tmp ↦ if is_number (kind tmp) then valueint tmp else minus_one
    | none ↦ default_monitor_port
  ]

  unfoldable pub conf_get_working_dir_internal : Json → Option String
  conf_get_working_dir_internal conf = elim (object_item conf "WorkingDir") [
    | some tmp ↦ if is_string (kind tmp) then some (valuestring tmp) else none
    | none ↦ some install_prefix
  ]

  unfoldable pub conf_get_module_dir_internal : Json → Option String
  conf_get_module_dir_internal conf = elim (object_item conf "ModuleDir") [
    | some tmp ↦ if is_string (kind tmp) then some (valuestring tmp) else none
    | none ↦ some "./"
  ]

  unfoldable pub conf_get_modules_desc_internal : Json → Option Json
  conf_get_modules_desc_internal conf = elim (object_item conf "Modules") [
    | some tmp ↦ if is_array (kind tmp) then some tmp else none
    | none ↦ none
  ]

  unfoldable pub conf_check_legal : Json → ℤ
  conf_check_legal conf =
      if ltb_ℤ (conf_get_log_level_internal conf) (pos 0)
      then minus_one
      else if ltb_ℤ (conf_get_concurrent_max_internal conf) (pos 0)
      then minus_one
      else elim (conf_get_module_dir_internal conf) [
        | none ↦ minus_one
        | some dir ↦ elim (conf_get_modules_desc_internal conf) [
          | none ↦ minus_one
          | some d ↦ pos 0
        ]
      ]

  -- The old document is deleted, the new one installed.
  unfoldable pub conf_load_json : Option Json → State → ℤ × State
  conf_load_json none s = (minus_one, s)
  conf_load_json (some conf) s = elim (conf_check_legal conf) [
    | pos zero ↦ (pos 0, some conf)
    | pos (suc n) ↦ (minus_one, s)
    | negsuc n ↦ (minus_one, s)
  ]

  -- `file` is what `fopen` gives, `none` if it fails, and in it what `cJSON_fParse` makes of it.
  unfoldable pub conf_new : Bool → Option (Option Json) → State → Run (ℤ × State)
  conf_new true none s = ok (minus_one, s)
  conf_new true (some conf) s = ok (conf_load_json conf s)
  conf_new false file s = conf_create_default_config >>= λ conf. ok (pos 0, some conf)

  unfoldable pub conf_delete : State → ℤ × State
  conf_delete (some conf) = (pos 0, none)
  conf_delete none = (minus_one, none)

  unfoldable pub conf_reload : Bool → Option (Option Json) → State → ℤ × State
  conf_reload true none s = (minus_one, s)
  conf_reload true (some conf) s = conf_load_json conf s
  conf_reload false file s = (minus_one, s)

  -- The public getters read `global_conf`; with none they go through NULL.
  abbrev pub get {ℓ} : {A : Type ℓ} → (Json → A) → State → Run A
  get f none = fault
  get f (some conf) = ok (f conf)

  unfoldable pub conf_get_monitor_port : State → Run ℤ
  conf_get_monitor_port = get conf_get_monitor_port_internal

  unfoldable pub conf_get_concurrent_max : State → Run ℤ
  conf_get_concurrent_max = get conf_get_concurrent_max_internal

  unfoldable pub conf_get_log_level : State → Run ℤ
  conf_get_log_level = get conf_get_log_level_internal

  unfoldable pub conf_get_daemon : State → Run ℤ
  conf_get_daemon = get conf_get_daemon_internal

  unfoldable pub conf_get_workers : ℤ → State → Run ℤ
  conf_get_workers n = get (λ conf. conf_get_workers_internal conf n)

  unfoldable pub conf_get_working_dir : State → Run (Option String)
  conf_get_working_dir = get conf_get_working_dir_internal

  unfoldable pub conf_get_module_dir : State → Run (Option String)
  conf_get_module_dir = get conf_get_module_dir_internal

  unfoldable pub conf_get_modules_desc : State → Run (Option Json)
  conf_get_modules_desc = get conf_get_modules_desc_internal
