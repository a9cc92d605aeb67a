-- ===== src/Logging/Setup.antt =====
-- src/utils/logging.h: initializeLogging, given the three environment variables, where spdlog throws
-- nothing.
use sdbus_cpp_examples.Prelude.{
  ℕ, ◌*◌, ◌≤◌, ◌≡◌, refl, ◌⊎◌, inl, inr, true, false, Option, none, some, List, [], ◌∷◌,
  if◌then◌else◌, is_empty, All, ◌==◌, ==_iff, if_rule, arith, Bool-cases,
}
use sdbus_cpp_examples.Prelude.Text.{Text, has_byte}
use sdbus_cpp_examples.Logging.{
  Level, err, get_log_level_from_env, get_log_file_path_from_env, is_log_pattern_safe,
  default_pattern, log_pattern, starts_with_dash,
}
use sdbus_cpp_examples.Logging.Paths.{NoParent, components, get_log_file_path_from_env-NoParent}

-- A sink: the console's, or a rotating file's with its greatest size and the number of files.
pub data Sink : Type 0 where
  console : Level → Sink
  rotating_file : Text → ℕ → ℕ → Level → Sink

-- The logger that is registered as the default.
pub record Logger : Type 0 where
  pub name : Text
  pub sinks : List Sink
  pub level : Level
  pub pattern : Text
  pub flush_on : Level

unfoldable pub sinks_of : Level → Text → List Sink
sinks_of level log_file =
    console level
    ∷ (if is_empty log_file then [] else rotating_file log_file (10 * 1024 * 1024) 3 level ∷ [])

-- initializeLogging.
unfoldable pub initialize_logging : Text → Option Text → Option Text → Option Text → Logger
initialize_logging logger_name level_env file_env pattern_env =
    let level = get_log_level_from_env level_env in
    record {
      name = logger_name;
      sinks = sinks_of level (get_log_file_path_from_env file_env);
      level = level;
      pattern = log_pattern pattern_env;
      flush_on = err;
    }

-- A printable byte of ASCII, or a tab.
abbrev pub IsPlain : ℕ → Type 0
IsPlain b = (b ≡ 9) ⊎ ((32 ≤ b) × (b ≤ 126))

is_log_pattern_safe-IsPlain : (s : Text) → is_log_pattern_safe s ≡ true → All IsPlain s
unfolding is_log_pattern_safe
is_log_pattern_safe-IsPlain [] h = tt
is_log_pattern_safe-IsPlain (b ∷ s) h =
    let plain : IsPlain b = elim (Bool-cases (b == 9)) [
      | inl tab ↦ inl ((==_iff b 9).0 tab)
      | inr n ↦ inr (ground arith, ground arith)
    ] in
    (plain, is_log_pattern_safe-IsPlain s (ground arith))

default_pattern-safe : is_log_pattern_safe default_pattern ≡ true
unfolding is_log_pattern_safe
default_pattern-safe = refl

log_pattern-IsPlain : (o : Option Text) → All IsPlain (log_pattern o)
unfolding log_pattern
log_pattern-IsPlain none = is_log_pattern_safe-IsPlain default_pattern default_pattern-safe
log_pattern-IsPlain (some candidate) =
    if_rule (All IsPlain) (is_log_pattern_safe candidate) _ _
      (λ safe. is_log_pattern_safe-IsPlain candidate safe)
      (λ _. is_log_pattern_safe-IsPlain default_pattern default_pattern-safe)

-- A path without a `..` component, a NUL byte, a line break or a dash in front; the console has none.
abbrev pub IsSafe : Sink → Type 0
IsSafe (console level) = Unit
IsSafe (rotating_file path max_size max_files level) =
    NoParent (components path)
    × (has_byte 0 path ≡ false)
    × (has_byte 10 path ≡ false)
    × (has_byte 13 path ≡ false)
    × (starts_with_dash path ≡ false)

sinks_of-IsSafe :
    (level : Level) (file_env : Option Text)
    → All IsSafe (sinks_of level (get_log_file_path_from_env file_env))
unfolding sinks_of
sinks_of-IsSafe level file_env = (
  tt,
  if_rule (All IsSafe) (is_empty (get_log_file_path_from_env file_env)) _ _ (λ _. tt)
      (λ _. (get_log_file_path_from_env-NoParent file_env, tt)),
)

-- Whatever the environment holds, the logger's pattern has printable ASCII and tabs only, and if it
-- writes to a file then the path has no component `..`, no NUL byte, no line break and no dash in
-- front.
pub initialize_logging-IsSafe :
    (logger_name : Text) (level_env file_env pattern_env : Option Text)
    → let l = initialize_logging logger_name level_env file_env pattern_env in
      All IsPlain l.pattern × All IsSafe l.sinks
unfolding initialize_logging
initialize_logging-IsSafe logger_name level_env file_env pattern_env =
    (log_pattern-IsPlain pattern_env, sinks_of-IsSafe (get_log_level_from_env level_env) file_env)
