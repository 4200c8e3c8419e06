-- ===== src/Logx.antt =====
-- internal/logx/logger.go: the two loggers, which write to one place, and the debug switch.
-- The state is that of the package; a line is its text behind the time stamp, with the format
-- applied. The file is rotated by package lumberjack.
use ai_local.Prelude.{
  Bool, List, Option, Text, [], codes, false, if◌then◌else◌, none, some, true, ◌++◌, ◌∷◌,
}
pub mod Silent

-- `done` says that Init has run, with the error that it keeps; `opened` that the loggers are there.
pub record Log : Type 0 where
  pub done : Bool
  pub init_err : Option Text
  pub opened : Bool
  pub debug_enabled : Bool
  pub lines : List Text

abbrev pub unopened : Log
unopened = record {
  done = false;
  init_err = none;
  opened = false;
  debug_enabled = false;
  lines = [];
}

-- What runs once, by whether the directory can be made.
unfoldable pub init_once : Option Text → Bool → Log → Log
init_once (some e) default_debug l = record l { done = true; init_err = some e }
init_once none default_debug l = record l {
  done = true;
  opened = true;
  debug_enabled = default_debug;
}

-- Init, and the error that it returns.
unfoldable pub init : Option Text → Bool → Log → Log × Option Text
init dir_error default_debug l =
    let first = init_once dir_error default_debug l in
    if l.done then (l, l.init_err) else (first, first.init_err)

-- A line at a level, unless the logger is nil.
unfoldable pub put : Text → Text → Log → Log
put level text l = if l.opened then record l { lines = l.lines ++ (level ++ text) ∷ [] } else l

unfoldable pub app_infof : Text → Log → Log
app_infof text l = put (codes "[INFO] ") text l

unfoldable pub app_warnf : Text → Log → Log
app_warnf text l = put (codes "[WARN] ") text l

unfoldable pub app_errorf : Text → Log → Log
app_errorf text l = put (codes "[ERROR] ") text l

unfoldable pub app_debugf : Text → Log → Log
app_debugf text l = if l.debug_enabled then put (codes "[DEBUG] ") text l else l

unfoldable pub accessf : Text → Log → Log
accessf text l = put (codes "[ACCESS] ") text l

unfoldable pub access_debugf : Text → Log → Log
access_debugf text l = if l.debug_enabled then put (codes "[ACCESS_DEBUG] ") text l else l

-- fatalf of cmd/server/main.go, which exits with status 1 behind this line.
unfoldable pub fatalf : Text → Log → Log
fatalf msg l = app_errorf (codes "FATAL PANIC: " ++ msg) l
