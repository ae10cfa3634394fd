-- ===== src/Resilience/Examples.antt =====
-- The theorem on messages at a concrete exception.
use log_librarian.Prelude.{◌≡◌}
use log_librarian.Resilience.Errors.{timeout, format}
use log_librarian.Resilience.Messages.{with_message, format_hides_message}

format_hides_message_example :
    format (with_message "postgres://admin@db refused" (timeout "")) ≡ format (timeout "")
format_hides_message_example = format_hides_message "postgres://admin@db refused" (timeout "")
