-- ===== src/Resilience/Messages.antt =====
-- What a user is shown of an exception.
use log_librarian.Prelude.{String, ◌≡◌, refl, none, some}
use log_librarian.Resilience.Errors.{
  Error, ai_error, service_unavailable, model_not_loaded, timeout, rate_limit, content_filter,
  tool_execution, other, user_message, format,
}

-- The same exception raised with another internal message.
pub with_message : String → Error → Error
with_message m (ai_error _ u r) = ai_error m u r
with_message m (service_unavailable _) = service_unavailable m
with_message m (model_not_loaded _) = model_not_loaded m
with_message m (timeout _) = timeout m
with_message m (rate_limit _ n) = rate_limit m n
with_message m (content_filter _) = content_filter m
with_message m (tool_execution t _) = tool_execution t m
with_message m (other _) = other m

user_message-with_message :
    (m : String) (e : Error) → user_message (with_message m e) ≡ user_message e
unfolding with_message user_message
user_message-with_message m (ai_error _ none r) = refl
user_message-with_message m (ai_error _ (some String.[]) r) = refl
user_message-with_message m _ = refl

-- The text that `ErrorFormatter.format` gives for an exception, of whatever class, does not depend
-- on the exception's internal message.
pub format_hides_message : (m : String) (e : Error) → format (with_message m e) ≡ format e
unfolding with_message format
format_hides_message m (ai_error _ none r) = refl
format_hides_message m (ai_error _ (some String.[]) r) = refl
format_hides_message m _ = refl
