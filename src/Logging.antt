-- ===== src/Logging.antt =====
-- src/utils/logging.h: the tests on what the environment says of the log. spdlog is left out.
pub mod Paths
pub mod Setup
use sdbus_cpp_examples.Prelude.{
  ℕ, zero, suc, Bool, true, false, not, ◌&&◌, ◌||◌, Option, none, some, List, [], ◌∷◌, ltb, ◌==◌,
  if◌then◌else◌, length, is_empty,
}
use sdbus_cpp_examples.Prelude.Text.{Text, text, text_eq, has_byte}

-- The component at the position, and what is behind its slash if there is one.
unfoldable pub component : Text → Text × Option Text
component [] = ([], none)
component (c ∷ s) = let (k, rest) = component s in if c == b'/' then ([], some s) else (c ∷ k, rest)

abbrev pub parent : Text
parent = text ".."

abbrev pub and_then : Option Text → (Text → Bool) → Bool
and_then none onward = true
and_then (some t) onward = onward t

-- The while loop over the components from a position on; the fuel is the length of the path.
unfoldable pub no_traversal : ℕ → Text → Bool
no_traversal zero s = true
no_traversal (suc n) [] = true
no_traversal (suc n) (c ∷ s) =
    let (k, rest) = component (c ∷ s) in
    if text_eq k parent then false else and_then rest (λ t. no_traversal n t)

abbrev pub starts_with_dash : Text → Bool
starts_with_dash [] = false
starts_with_dash (c ∷ s) = c == b'-'

-- isLogFilePathSafe.
unfoldable pub is_log_file_path_safe : Text → Bool
is_log_file_path_safe path =
    if is_empty path
    then true
    else if has_byte 0 path
    then false
    else if has_byte 10 path || has_byte 13 path
    then false
    else if starts_with_dash path
    then false
    else no_traversal (length path) path

-- isLogPatternSafe.
unfoldable pub is_log_pattern_safe : Text → Bool
is_log_pattern_safe [] = true
is_log_pattern_safe (ch ∷ pattern) =
    let rest = is_log_pattern_safe pattern in
    if not (ch == 9) && (ltb ch 32 || ltb 126 ch) then false else rest

-- getLogLevelFromEnv, and the levels of spdlog.
pub data Level : Type 0 where
  trace debug info warn err critical off : Level

unfoldable pub level_of : Text → Level
level_of level =
    if text_eq level (text "trace")
    then trace
    else if text_eq level (text "debug")
    then debug
    else if text_eq level (text "info")
    then info
    else if text_eq level (text "warn")
    then warn
    else if text_eq level (text "err")
    then err
    else if text_eq level (text "critical")
    then critical
    else if text_eq level (text "off")
    then off
    else info

unfoldable pub get_log_level_from_env : Option Text → Level
get_log_level_from_env none = info
get_log_level_from_env (some level) = level_of level

-- getLogFilePathFromEnv.
unfoldable pub get_log_file_path_from_env : Option Text → Text
get_log_file_path_from_env none = []
get_log_file_path_from_env (some path) = if is_log_file_path_safe path then path else []

-- The pattern that initializeLogging sets.
abbrev pub default_pattern : Text
default_pattern = text "[%Y-%m-%d %H:%M:%S.%e] [%l] %v"

unfoldable pub log_pattern : Option Text → Text
log_pattern none = default_pattern
log_pattern (some candidate) = if is_log_pattern_safe candidate then candidate else default_pattern
