-- ===== src/Pipeline/Errors.antt =====
-- The errors of a pipeline attempt and the delay before the next: apps/worker/src/pipeline/errors.ts.
use token_pilot.Base.{
  ℕ, zero, suc, ◌-◌, ◌*◌, ◌^◌, Bool, true, false, Option, none, some, List, [], ◌∷◌, ◌++◌, any,
  find, ltb, if◌then◌else◌,
}
use Prim.Native.String.{String}
use text.Mathlib.Text as Text

-- What the walk over an error reads of a value: nothing of one that is no object, and of an object
-- `code`, `originalCode` and `sqlState` where they are texts that are not empty, and the values of
-- `meta`, `cause` and `driverAdapterError`. No object holds itself.
pub data Envelope : Type 0 where
  no_object : Envelope
  object : Option String → Option String → Option String → Envelope → Envelope → Envelope → Envelope

-- A thrown value, an error with its class and message.
pub data Thrown : Type 0 where
  permanent : String → String → String → Thrown
  retryable : String → String → String → Thrown
  invalid_payload : String → Thrown
  error : String → String → Envelope → Thrown
  value : Envelope → Thrown

pub record PipelineFailure : Type 0 where
  pub code : String
  pub error_class : String
  pub message : String
  pub is_retryable : Bool

abbrev pub retryable_database_codes : List String
retryable_database_codes =
    "P1001" ∷ "P1002" ∷ "P1008" ∷ "P1017" ∷ "P2024" ∷ "P2034" ∷ "40001" ∷ "40P01" ∷ "53300"
    ∷ "57P01" ∷ "57P02" ∷ "57P03" ∷ []

abbrev pub is_retryable_code : String → Bool
is_retryable_code code = any (λ c. Text.◌==◌ c code) retryable_database_codes

abbrev text_codes : Option String → List String
text_codes none = []
text_codes (some code) = code ∷ []

-- `levels` counts down from five, where the code's `depth` counts up and stops past four.
unfoldable pub collect_error_codes : ℕ → Envelope → List String
collect_error_codes zero envelope = []
collect_error_codes (suc levels) no_object = []
collect_error_codes (suc levels) (object code original state meta cause adapter) =
    text_codes code
    ++ (text_codes original
        ++ (text_codes state
            ++ (collect_error_codes levels meta
                ++ (collect_error_codes levels cause ++ collect_error_codes levels adapter))))

abbrev first_code : List String → Option String
first_code [] = none
first_code (code ∷ codes) = some code

abbrev prefer : Option String → Option String → Option String
prefer (some code) other = some code
prefer none other = other

unfoldable pub error_code : Envelope → Option String
error_code envelope =
    let candidates = collect_error_codes 5 envelope in
    prefer (find is_retryable_code candidates) (first_code candidates)

-- The failure of a value of unknown kind; without a code it is not retryable.
unfoldable pub unknown_failure : String → String → Option String → PipelineFailure
unknown_failure name message none = record {
  code = "PIPELINE_STAGE_FAILURE";
  error_class = name;
  message = message;
  is_retryable = false;
}
unknown_failure name message (some code) = record {
  code = code;
  error_class = name;
  message = message;
  is_retryable = is_retryable_code code;
}

unfoldable pub classify_pipeline_error : Thrown → PipelineFailure
classify_pipeline_error (permanent name code message) = record {
  code = code;
  error_class = name;
  message = message;
  is_retryable = false;
}
classify_pipeline_error (retryable name code message) = record {
  code = code;
  error_class = name;
  message = message;
  is_retryable = true;
}
classify_pipeline_error (invalid_payload name) = record {
  code = "INVALID_USAGE_PAYLOAD";
  error_class = name;
  message = "Inbox payload no longer satisfies Usage Event";
  is_retryable = false;
}
classify_pipeline_error (error name message envelope) =
    unknown_failure name message (error_code envelope)
classify_pipeline_error (value envelope) =
    unknown_failure "UnknownPipelineError" "Unknown pipeline failure" (error_code envelope)

abbrev pub min : ℕ → ℕ → ℕ
min a b = if ltb b a then b else a

-- The exponent is the attempts before this one, at most 20.
unfoldable pub retry_delay_ms : ℕ → ℕ → ℕ → ℕ
retry_delay_ms attempt_count base_delay maximum =
    min maximum (base_delay * 2 ^ min 20 (attempt_count - 1))
