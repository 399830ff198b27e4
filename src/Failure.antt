-- ===== src/Failure.antt =====
-- text/errors.go: the error values, and the errors with a text of their own.
use usql.Base.{ℕ}

pub data Error : Type 0 where
  not_connected no_such_file_or_directory cannot_include_directories missing_dsn : Error
  no_previous_transaction_exists previous_transaction_exists password_attempts_exhausted : Error
  single_transaction_cannot_be_used_with_interactive_mode no_editor_defined unknown_command : Error
  missing_required_argument driver_not_available password_not_supported_by_driver : Error
  unterminated_quoted_string no_shell_available not_interactive invalid_type : Error
  invalid_identifier invalid_value too_many_rows invalid_format_type : Error
  invalid_format_pager_type invalid_format_expanded_type invalid_format_line_style : Error
  invalid_format_border_line_style invalid_quoted_string invalid_format_option : Error
  invalid_watch_duration unable_to_normalize_url invalid_isolation_level not_supported : Error
  wrong_number_of_arguments unknown_file_type : Error
  -- `fmt.Errorf` of a field, or of a value and a field
  unknown_format_field : Error
  invalid_field_value : Error
  -- an error of code that is not modelled, told apart by a number
  other : ℕ → Error
