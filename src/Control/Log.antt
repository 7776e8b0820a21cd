-- ===== src/Control/Log.antt =====
-- `createSessionLogger` of adapters/session-control.js: a session's log file, to which every entry
-- is a line.
pub mod Lines
use inter_agent_bus.Base.{Bool, Option, none, some, [], ◌∷◌, ◌++◌, Text, codes, if◌then◌else◌}
use inter_agent_bus.Base.Maps
use inter_agent_bus.Base.Maps.{Map}
use inter_agent_bus.Value.{
  Value, null, str, obj, Fields, field, end, get_prop, put_field, or_else, truthy,
}
use inter_agent_bus.Paths.{join}
use inter_agent_bus.Sockets.{first_dir}
use inter_agent_bus.Framing.{newline}

-- `resolveControlLogDir`, with the option, the environment's directory and the home directory.
unfoldable pub resolve_control_log_dir : Option Text → Option Text → Text → Text
resolve_control_log_dir explicit env home =
    first_dir explicit env (join (join home (codes ".agent-bus")) (codes "control-logs"))

-- `serializeError`, with JavaScript's text of a value as an argument.
unfoldable pub serialize_error : (Value → Text) → Value → Value
serialize_error string_of err =
    if truthy err
    then obj (
        field (codes "message") (or_else (get_prop "message" err) (str (string_of err)))
          (field (codes "stack") (or_else (get_prop "stack" err) null) end))
    else null

-- `{ ...fs, ...extra }`
unfoldable pub spread : Fields → Fields → Fields
spread fs end = fs
spread fs (field k v extra) = spread (put_field k v fs) extra

-- A logger: the path of its file and its label.
pub record Logger : Type 0 where
  pub path : Text
  pub label : Text

-- `none` is for the exception without a session id.
unfoldable pub create_session_logger : Text → Text → Text → Option Logger
create_session_logger [] label log_dir = none
create_session_logger (c ∷ session_id) label log_dir =
    some (record { path = join log_dir (c ∷ (session_id ++ codes ".log")); label = label })

pub data Level : Type 0 where
  info warn error : Level

unfoldable pub level_text : Level → Text
level_text info = codes "info"
level_text warn = codes "warn"
level_text error = codes "error"

-- What an entry says.
unfoldable pub payload : Logger → Text → Level → Text → Fields → Value
unfolding spread level_text
payload l ts level message extra = obj (
    spread
      (field (codes "ts") (str ts) (
        field (codes "level") (str (level_text level)) (
          field (codes "label") (or_else (str l.label) (str (codes "session-control")))
            (field (codes "message") (str message) end))))
      extra)

abbrev pub text_of : Option Text → Text
text_of none = []
text_of (some t) = t

-- `appendFileSync`
unfoldable pub append_file : Text → Text → Map Text → Map Text
append_file path text files = Maps.set path (text_of (Maps.get path files) ++ text) files

-- `write`, which swallows what the file system throws: `works` says whether the file can be written.
unfoldable pub write :
    (Value → Text) → Bool → Logger → Text → Level → Text → Fields → Map Text → Map Text
unfolding append_file payload
write stringify works l ts level message extra files =
    if works
    then append_file l.path (stringify (payload l ts level message extra) ++ newline ∷ []) files
    else files

-- `error`, whose entry has the exception besides.
unfoldable pub write_error :
    (Value → Text)
    → (Value → Text)
    → Bool
    → Logger
    → Text
    → Text
    → Value
    → Fields
    → Map Text
    → Map Text
unfolding write serialize_error
write_error string_of stringify works l ts message err extra files =
    write stringify works l ts error message
      (put_field (codes "error") (serialize_error string_of err) extra) files
