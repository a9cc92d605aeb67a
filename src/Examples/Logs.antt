-- ===== src/Examples/Logs.antt =====
-- A path that logging takes, and two that it refuses.
use sdbus_cpp_examples.Prelude.{◌≡◌, refl, none, some, [], All}
use sdbus_cpp_examples.Prelude.Text.{text}
use sdbus_cpp_examples.Logging.{
  component, no_traversal, is_log_file_path_safe, get_log_file_path_from_env,
}
use sdbus_cpp_examples.Logging.Setup.{
  initialize_logging, IsPlain, IsSafe, initialize_logging-IsSafe,
}

initialize_logging-IsSafe_example :
    let l =
      initialize_logging (text "bluez") none (some (text "/var/log/..app")) (some (text "%v")) in
    All IsPlain l.pattern × All IsSafe l.sinks
initialize_logging-IsSafe_example =
    initialize_logging-IsSafe (text "bluez") none (some (text "/var/log/..app")) (some (text "%v"))

taken_test : get_log_file_path_from_env (some (text "/var/log/..app")) ≡ text "/var/log/..app"
unfolding get_log_file_path_from_env is_log_file_path_safe no_traversal component
taken_test = refl

parent_test : get_log_file_path_from_env (some (text "log/../x")) ≡ []
unfolding get_log_file_path_from_env is_log_file_path_safe no_traversal component
parent_test = refl

dash_test : get_log_file_path_from_env (some (text "-x")) ≡ []
unfolding get_log_file_path_from_env is_log_file_path_safe no_traversal component
dash_test = refl
