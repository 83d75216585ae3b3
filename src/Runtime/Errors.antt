-- ===== src/Runtime/Errors.antt =====
-- `_classify_error` of src/investment/runtime/service.py, and how a handler can end.
pub mod Redaction
use investment_research_engi.Base.{
  ℕ, String, Bool, true, false, Option, none, some, ◌||◌, ◌++◌, List, [], ◌∷◌, if◌then◌else◌, take,
  ltb,
}
use investment_research_engi.Base.Chars.{codes, contains, replace, upper, decimal}
use investment_research_engi.Runtime.Domain.{RuntimeErrorInfo, ErrorCategory}

-- An exception of a handler: its class name, whether the class is a `ValueError` or a
-- `TimeoutError`, and its text.
pub record Exception : Type 0 where
  pub type_name : List ℕ
  pub is_value_error : Bool
  pub is_timeout_error : Bool
  pub message : List ℕ

abbrev pub secret : List ℕ
secret = codes "Authorization"

abbrev pub redacted : List ℕ
redacted = codes "[REDACTED]"

-- Python's `message or other`.
abbrev or_else : List ℕ → List ℕ → List ℕ
or_else [] other = other
or_else (c ∷ cs) other = c ∷ cs

unfoldable pub classify_error : Exception → RuntimeErrorInfo
classify_error x =
    let name = upper x.type_name in
    record {
      category =
          if contains (codes "HTTP") name || contains (codes "TIMEOUT") name
          then ErrorCategory.data_provider_error
          else if x.is_value_error
          then ErrorCategory.data_validation_error
          else ErrorCategory.internal_error;
      code = name;
      message =
          or_else (take 500 (replace secret redacted 0 x.message)) (codes "job execution failed");
    }

abbrev seconds_text : Option ℕ → List ℕ
seconds_text none = codes "None"
seconds_text (some n) = decimal n

-- The `RuntimeErrorInfo` of `except FutureTimeoutError`.
unfoldable pub timeout_error : Option ℕ → RuntimeErrorInfo
unfolding decimal
timeout_error timeout_seconds = record {
  category = ErrorCategory.internal_error;
  code = codes "JOB_TIMEOUT";
  message =
      codes "job exceeded configured timeout of "
      ++ (seconds_text timeout_seconds ++ codes " seconds");
}

-- What the handler does when it is called: how many seconds it takes, and the exception that it
-- raises, if any.
pub record Handler : Type 0 where
  pub duration_seconds : ℕ
  pub raises : Option Exception

-- `FutureTimeoutError` is the built-in `TimeoutError`: one that the handler raises ends there too.
pub data Outcome : Type 0 where
  returned : Outcome
  timed_out : Outcome
  raised : Exception → Outcome

abbrev ended : Option Exception → Outcome
ended none = Outcome.returned
ended (some x) = if x.is_timeout_error then Outcome.timed_out else Outcome.raised x

-- The `try` body of `run_job`: only a job without a lock key has its timeout enforced.
unfoldable pub observe : Handler → Option ℕ → Option String → Outcome
observe h none lock_key = ended h.raises
observe h (some timeout) none =
    if ltb timeout h.duration_seconds then Outcome.timed_out else ended h.raises
observe h (some timeout) (some _) = ended h.raises
