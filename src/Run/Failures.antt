-- ===== src/Run/Failures.antt =====
-- backend/app/models/failure.py and the failures that backend/app/runtime/orchestrator.py builds: a
-- report that its validators refuse is an exception.
use muti_agent.Prelude.{String, Bool, true, false, not, ◌&&◌, List, map, any, leb, ◌≡◌, refl, arith}
use muti_agent.Result.{Result, ok, ◌>>◌, raise_if}
use muti_agent.Text.{is_empty, strip, lstrip, rstrip, is_space, text_length}
use muti_agent.Run.{RunError, invalid_failure, FailureType, other_failure, FailureReport}

-- `FailureReport(**fields)`, not retryable.
unfoldable pub make_failure : FailureType → String → List String → Result RunError FailureReport
make_failure kind message evidence = do
  raise_if (not (leb 1 (text_length message) && leb (text_length message) 4000)) invalid_failure
  raise_if (is_empty (strip message)) invalid_failure
  raise_if (any (λ line. is_empty (strip line)) evidence) invalid_failure
  ok (record {
    failure_type = kind;
    message = strip message;
    retryable = false;
    evidence = map strip evidence;
  })

-- _runtime_failure
abbrev pub runtime_failure : String → List String → Result RunError FailureReport
runtime_failure message evidence = make_failure (other_failure "TOOL_FAILURE") message evidence

pub data DeveloperStopReason : Type 0 where
  model_stop iteration_limit time_limit tool_call_limit repeated_tool_failure : DeveloperStopReason

-- Of the result of the developer, the reason and the lines of evidence of _developer_stop_failure.
pub record DeveloperRunResult : Type 0 where
  pub stop_reason : DeveloperStopReason
  pub stop_evidence : List String

abbrev pub is_model_stop : DeveloperStopReason → Bool
is_model_stop model_stop = true
is_model_stop _ = false

-- _developer_stop_failure
abbrev pub developer_stop_failure :
    DeveloperStopReason → List String → Result RunError FailureReport
developer_stop_failure repeated_tool_failure evidence =
    make_failure (other_failure "INVALID_TOOL_ARGUMENTS")
      "开发智能体连续两次以无效参数调用同一仓库工具，已停止当前开发切片，未继续请求模型。" evidence
developer_stop_failure time_limit evidence =
    make_failure (other_failure "AGENT_TIME_LIMIT") "开发智能体时间预算耗尽，未能在限制内完成代码修改。" evidence
developer_stop_failure _ evidence =
    make_failure (other_failure "TOOL_FAILURE")
      "Developer Agent did not reach a normal bounded completion." evidence

-- A text of 1 to 4000 characters that is not blank.
abbrev pub IsMessage : String → Type 0
IsMessage message =
    ((leb 1 (text_length message) && leb (text_length message) 4000) ≡ true)
    × (is_empty (strip message) ≡ false)

abbrev pub some_blank : List String → Bool
some_blank evidence = any (λ line. is_empty (strip line)) evidence

pub make_failure-ok :
    (kind : FailureType) (message : String) (evidence : List String)
    → IsMessage message
    → some_blank evidence ≡ false
    → (failure : FailureReport) × (make_failure kind message evidence ≡ ok failure)
unfolding make_failure
make_failure-ok kind message evidence good lines = (
  record {
    failure_type = kind;
    message = strip message;
    retryable = false;
    evidence = map strip evidence;
  },
  ground arith,
)

pub developer_stop_failure-ok :
    (reason : DeveloperStopReason) (evidence : List String)
    → some_blank evidence ≡ false
    → (failure : FailureReport) × (developer_stop_failure reason evidence ≡ ok failure)
unfolding text_length strip lstrip rstrip is_space
developer_stop_failure-ok model_stop evidence lines =
    make_failure-ok _ _ evidence (refl, refl) lines
developer_stop_failure-ok iteration_limit evidence lines =
    make_failure-ok _ _ evidence (refl, refl) lines
developer_stop_failure-ok time_limit evidence lines =
    make_failure-ok _ _ evidence (refl, refl) lines
developer_stop_failure-ok tool_call_limit evidence lines =
    make_failure-ok _ _ evidence (refl, refl) lines
developer_stop_failure-ok repeated_tool_failure evidence lines =
    make_failure-ok _ _ evidence (refl, refl) lines
