-- ===== src/Resilience/Errors.antt =====
-- The exceptions of librarian/ai_resilience.py, and `ErrorFormatter` and `FallbackHandler` where
-- they word them for a user.
use Prim.Native.String.{◌++◌}
use log_librarian.Prelude.Text.{str_nat}
use log_librarian.Prelude.{
  ℕ, String, Bool, true, false, Option, none, some, List, [], ◌∷◌, if◌then◌else◌,
}

-- An exception object: the classes below `AIError` with what they are raised with, and `other` for
-- an exception of any class outside that hierarchy. The first text is the internal message.
pub data Error : Type 0 where
  ai_error : String → Option String → Bool → Error
  service_unavailable : String → Error
  model_not_loaded : String → Error
  timeout : String → Error
  rate_limit : String → ℕ → Error
  content_filter : String → Error
  tool_execution : String → String → Error
  other : String → Error

-- The classes that an `except` clause or `isinstance` may name.
pub data ErrorClass : Type 0 where
  any_exception any_ai_error : ErrorClass
  service_unavailable_error model_not_loaded_error timeout_error : ErrorClass
  rate_limit_error content_filter_error tool_execution_error : ErrorClass

-- `isinstance(e, c)`
unfoldable pub instance_of : Error → ErrorClass → Bool
instance_of _ any_exception = true
instance_of (other _) any_ai_error = false
instance_of _ any_ai_error = true
instance_of (service_unavailable _) service_unavailable_error = true
instance_of (model_not_loaded _) model_not_loaded_error = true
instance_of (timeout _) timeout_error = true
instance_of (rate_limit _ _) rate_limit_error = true
instance_of (content_filter _) content_filter_error = true
instance_of (tool_execution _ _) tool_execution_error = true
instance_of _ _ = false

-- `isinstance(e, (c, ...))`, also the test of `except (c, ...)`
unfoldable pub instance_of_any : Error → List ErrorClass → Bool
unfolding instance_of
instance_of_any e [] = false
instance_of_any e (c ∷ cs) =
    let rest = instance_of_any e cs in if instance_of e c then true else rest

-- `self.user_message` as `__init__` sets it; an exception outside `AIError` has none.
unfoldable pub user_message : Error → Option String
unfolding str_nat
user_message (ai_error _ none _) = some "An error occurred. Please try again."
user_message (ai_error _ (some String.[]) _) = some "An error occurred. Please try again."
user_message (ai_error _ (some text) _) = some text
user_message (service_unavailable _) =
    some "The AI assistant is currently unavailable. Please try again in a few moments."
user_message (model_not_loaded _) =
    some "The AI model is still loading. Please wait a moment and try again."
user_message (timeout _) =
    some "The request took too long. Try asking a simpler question or being more specific."
user_message (rate_limit _ retry_after) =
    some
      ("Too many requests. Please wait " ++ str_nat retry_after ++ " seconds before trying again.")
user_message (content_filter _) =
    some "I can't help with that request. Please try rephrasing your question."
user_message (tool_execution _ _) =
    some "I encountered an issue while gathering data. Some information may be incomplete."
user_message (other _) = none

-- `self.retryable`
unfoldable pub retryable : Error → Bool
retryable (ai_error _ _ r) = r
retryable (content_filter _) = false
retryable (other _) = false
retryable _ = true

-- `ErrorFormatter.format`: the tests of its `isinstance` ladder, in order.
unfoldable pub format : Error → String
unfolding user_message
format (timeout _) =
    "⏱\u{fe0f} The request took too long. "
    ++ "Try asking a simpler question or being more specific about what you need."
format (service_unavailable _) =
    "🔌 The AI assistant is temporarily unavailable. " ++ "Please try again in a few moments."
format (rate_limit _ retry_after) =
    "⏳ You've made too many requests. Please wait "
    ++ (str_nat retry_after ++ " seconds")
    ++ " before trying again."
format (tool_execution tool_name _) =
    "⚠\u{fe0f} I encountered an issue while gathering data: " ++ tool_name
format e = elim (user_message e) [
  | some text ↦ text
  | none ↦
      "❌ Something went wrong. "
      ++ "Please try again. If the problem persists, check the system logs."
]
