-- ===== src/LlmBackend.antt =====
-- tee_gateway/llm_backend.py: what the backend makes of a request before a provider sees it, and
-- of the token usage behind the answer. The provider clients are third-party.
pub mod Attachments
pub mod Validate
pub mod Usage
mod Laws
pub mod Shapes
mod Tests
use tee_gateway.Prelude.{List, [], ◌∷◌, Bool, true, false, String, if◌then◌else◌}
use tee_gateway.Prelude.Result.{Result, ok, err}
use tee_gateway.Prelude.Text.{Text, codes, text_mem}
use tee_gateway.Prelude.Json.{Json, null, str}

abbrev pub reasoning_efforts : List Text
reasoning_efforts = codes "none" ∷ codes "low" ∷ codes "medium" ∷ codes "high" ∷ []

-- The error stands for the ValueError with its message.
unfoldable pub validate_reasoning_effort : Json → Result (Unit {0}) (Unit {0})
validate_reasoning_effort null = ok tt
validate_reasoning_effort (str s) = if text_mem s reasoning_efforts then ok tt else err tt
validate_reasoning_effort _ = err tt

-- The two values that Moonshot has no level for.
unfoldable pub moonshot_reasoning_effort : Text → Text
moonshot_reasoning_effort effort =
    if text_mem effort (codes "none" ∷ [])
    then codes "low"
    else if text_mem effort (codes "medium" ∷ [])
    then codes "high"
    else effort
