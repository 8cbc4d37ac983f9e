-- ===== src/Approval/Params.antt =====
-- What a call's parameters contribute to approval matching: `_sanitize_approval_params`,
-- `_extract_command`, `_params_hash` and `_request_fingerprint` of
-- dare_framework/tool/_internal/control/approval_manager.py.
-- `digest` is SHA-256 of the canonical `json.dumps`, in hexadecimal.
use Prim.Native.String.{◌++◌ as append}
use deterministic_agent_runt.Base.{String, Option, none, some, ◌==◌, if◌then◌else◌}
use deterministic_agent_runt.Base.Text.{strip, is_empty}
use deterministic_agent_runt.Json.{
  Value, Fields, text, runtime_override, end, field, normalize_fields,
}

abbrev pub runtime_context_param : String
runtime_context_param = "__dare_runtime_context__"

-- `params.get(key)`
unfoldable pub get_field : String → Fields → Option Value
get_field k end = none
get_field k (field j v fs) = if j == k then some v else get_field k fs

abbrev pub collapse_override : Value → Value
collapse_override (runtime_override c s) = c
collapse_override v = v

unfoldable pub sanitize_approval_params : Fields → Fields
sanitize_approval_params end = end
sanitize_approval_params (field k v fs) =
    if k == runtime_context_param
    then sanitize_approval_params fs
    else field k (collapse_override v) (sanitize_approval_params fs)

abbrev pub stripped_command : Option Value → Option String
stripped_command (some (text s)) = if is_empty (strip s) then none else some (strip s)
stripped_command _ = none

unfoldable pub extract_command : Fields → Option String
unfolding get_field
extract_command params = stripped_command (get_field "command" params)

unfoldable pub params_hash : (Fields → String) → Fields → String
params_hash digest params = digest (normalize_fields params)

unfoldable pub request_fingerprint : String → String → String
request_fingerprint capability_id hash = append capability_id (append ":" hash)
