-- ===== src/Logx/Silent.antt =====
-- When internal/logx/logger.go writes nothing.
use ai_local.Prelude.{Bool, Option, Text, codes, false, none, refl, some, true, ◌++◌, ◌≡◌}
use ai_local.Logx.{Log, app_errorf, fatalf, init, init_once, put, unopened}

-- Init runs once: a second call changes nothing and returns what the first returned, whatever its
-- directory and its debug switch are.
init-init :
    (first second : Option Text) (debug debug' : Bool) (l : Log)
    → init second debug' (init first debug l).0 ≡ init first debug l
unfolding init init_once
init-init first second debug debug' l = by_done l.done first
  where
    by_done :
        (d : Bool) (first : Option Text)
        → init second debug' (init first debug (record l { done = d })).0
          ≡ init first debug (record l { done = d })
    by_done true first = refl
    by_done false (some e) = refl
    by_done false none = refl

put_unopened : (level text : Text) (l : Log) → l.opened ≡ false → put level text l ≡ l
unfolding put
put_unopened level text l h = rw h refl

-- A fatal error before Init, as that of a configuration that cannot be read, is written nowhere; it
-- is the same behind an Init that failed.
fatalf_silent :
    (msg : Text) (e : Text) (debug : Bool)
    → (fatalf msg unopened ≡ unopened)
      × (fatalf msg (init (some e) debug unopened).0 ≡ (init (some e) debug unopened).0)
unfolding fatalf app_errorf init init_once
fatalf_silent msg e debug = (
  put_unopened (codes "[ERROR] ") (codes "FATAL PANIC: " ++ msg) unopened refl,
  put_unopened (codes "[ERROR] ") (codes "FATAL PANIC: " ++ msg) (init (some e) debug unopened).0
      refl,
)
