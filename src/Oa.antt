-- ===== src/Oa.antt =====
-- Messages to the OA (sd-agent/sd_agent/oa/service.py and sd-agent/sd_agent/oa/urge.py): the handlers
-- of both kinds of command, and the stand-in for the OA that remembers what it accepted. How a
-- payload is read is a parameter, as it is pydantic's.
mod Again
use sd_platform.Common.{
  ℕ, String, Bool, true, false, not, ◌||◌, List, [], ◌∷◌, Option, none, some, ltb, str_eq,
  if◌then◌else◌, Exn, app_error, value_error, is_none, Result, ok, err, Datetime, text_length,
  is_empty,
}
use sd_platform.Common.Actions.{Exec, pure, lift, ◌>>=◌}
use sd_platform.Db.{Uuid, Json, DedupKey, same_key}
use sd_platform.Outbox.{OutboxItem, OutboxHandler, DispatchResult}

pub record CompletePendingCommand : Type 0 where
  pub command_id : Uuid
  pub task_id : ℕ
  pub person_id : ℕ
  pub log_id : ℕ

pub record SendUrgeCommand : Type 0 where
  pub task_id : ℕ
  pub target_id : ℕ
  pub level : String
  pub content : String
  pub planned_at : Datetime

pub record OaGatewayResult : Type 0 where
  pub success : Bool
  pub status_code : Option ℕ
  pub receipt_id : Option String
  pub error_code : Option String
  pub retryable : Bool

-- DispatchResult(False, error_code=code, redacted_error=code, retryable=retryable)
abbrev pub refused : Option ℕ → (code : String) (retryable : Bool) → DispatchResult
refused status_code code retryable = record {
  success = false;
  status_code = status_code;
  error_code = some code;
  redacted_error = some code;
  retryable = retryable;
}

abbrev pub result_of : OaGatewayResult → DispatchResult
result_of result = record {
  success = result.success;
  status_code = result.status_code;
  error_code = result.error_code;
  redacted_error = result.error_code;
  retryable = result.retryable;
}

-- The text is there, is not empty and has 128 characters at most.
abbrev pub valid_receipt : Option String → Option String
valid_receipt none = none
valid_receipt (some t) = if is_empty t || ltb 128 (text_length t) then none else some t

-- `_aware`
abbrev pub aware : Datetime → Result Datetime
aware t =
    if is_none t.tzinfo then err (value_error "OA receipt time must be timezone-aware") else ok t

-- `UrgeReceiptStore.record_sent`
abbrev pub Recording : Type 0 → Type 0
Recording S =
    SendUrgeCommand → OutboxItem → (receipt_id : String) (sent_at : Datetime) → Exec S (Unit {0})

module _ {S : Type 0} where
  -- `OaOutboxHandler.__call__`
  unfoldable pub handle_complete_pending :
      (model_validate : Json → Option CompletePendingCommand)
      → (complete_pending : CompletePendingCommand → DedupKey → Exec S OaGatewayResult)
      → OutboxHandler S
  handle_complete_pending model_validate complete_pending item =
      if not (str_eq item.kind "oa.complete_pending")
      then pure (refused none "OA_KIND_UNSUPPORTED" false)
      else elim (model_validate item.payload) [
        | none ↦ pure (refused none "OA_PAYLOAD_INVALID" false)
        | some command ↦
            complete_pending command item.dedup_key >>= λ result. pure (result_of result)
      ]

  -- except TeableAdapterError: any other exception is raised again
  abbrev pub recorded : DispatchResult → Result (Unit {0}) × S → Result DispatchResult × S
  recorded result (ok u, s) = (ok result, s)
  recorded result (err (app_error class_name code status retryable), s) =
      if str_eq class_name "TeableAdapterError"
      then (ok (refused none code retryable), s)
      else (err (app_error class_name code status retryable), s)
  recorded result (err e, s) = (err e, s)

  unfoldable pub receipt_kept :
      Recording S
      → (clock : Datetime) → SendUrgeCommand
      → OutboxItem
      → OaGatewayResult
      → Exec S DispatchResult
  receipt_kept record_sent clock command item result =
      if not result.success
      then pure (result_of result)
      else elim (valid_receipt result.receipt_id) [
        | none ↦ pure (refused result.status_code "OA_RESPONSE_INVALID" false)
        | some receipt_id ↦ λ s.
            recorded (result_of result)
              ((lift (aware clock) >>= record_sent command item receipt_id) s)
      ]

  -- `OaUrgeOutboxHandler.__call__`, with the time of its clock
  unfoldable pub handle_send_urge :
      (model_validate : Json → Option SendUrgeCommand)
      → (send_urge : SendUrgeCommand → DedupKey → Exec S OaGatewayResult) → Recording S
      → (clock : Datetime) → OutboxHandler S
  handle_send_urge model_validate send_urge record_sent clock item =
      if not (str_eq item.kind "oa.send_urge")
      then pure (refused none "OA_KIND_UNSUPPORTED" false)
      else elim (model_validate item.payload) [
        | none ↦ pure (refused none "OA_PAYLOAD_INVALID" false)
        | some command ↦ send_urge command item.dedup_key >>= λ result.
            receipt_kept record_sent clock command item result
      ]

pub data MockBehavior : Type 0 where
  timeout_after_accept rate_limit unavailable reject : MockBehavior

-- What the stand-in accepted: under each key the hash of the command, and the receipt.
abbrev pub Accepted : Type 0
Accepted = List (DedupKey × String × String)

abbrev pub accepted_under : DedupKey → Accepted → Option (String × String)
accepted_under key [] = none
accepted_under key ((k, hash, receipt) ∷ accepted) =
    let rest = accepted_under key accepted in if same_key k key then some (hash, receipt) else rest

abbrev pub gateway_failure : ℕ → (code : String) (retryable : Bool) → OaGatewayResult
gateway_failure status code retryable = record {
  success = false;
  status_code = some status;
  receipt_id = none;
  error_code = some code;
  retryable = retryable;
}

abbrev pub gateway_success : (receipt : String) → OaGatewayResult
gateway_success receipt = record {
  success = true;
  status_code = some 202;
  receipt_id = some receipt;
  error_code = none;
  retryable = false;
}

-- OaGatewayResult(False, None, error_code="OA_RESULT_UNKNOWN")
abbrev pub result_unknown : OaGatewayResult
result_unknown = record {
  success = false;
  status_code = none;
  receipt_id = none;
  error_code = some "OA_RESULT_UNKNOWN";
  retryable = true;
}

-- What a key that is not accepted is answered with. `receipt` is f"mock-{sha256[:24]}".
unfoldable pub accept_new :
    (receipt : DedupKey → String)
    → Option MockBehavior
    → (hash : String) → DedupKey
    → Accepted
    → OaGatewayResult × Accepted
accept_new receipt (some rate_limit) hash key accepted =
    (gateway_failure 429 "OA_RATE_LIMITED" true, accepted)
accept_new receipt (some unavailable) hash key accepted =
    (gateway_failure 503 "OA_UNAVAILABLE" true, accepted)
accept_new receipt (some reject) hash key accepted =
    (gateway_failure 400 "OA_REQUEST_REJECTED" false, accepted)
accept_new receipt (some timeout_after_accept) hash key accepted =
    (result_unknown, (key, hash, receipt key) ∷ accepted)
accept_new receipt none hash key accepted =
    (gateway_success (receipt key), (key, hash, receipt key) ∷ accepted)

-- `MockOaGateway._accept`, of a command with this hash
unfoldable pub accept :
    (receipt : DedupKey → String) (behaviors : DedupKey → Option MockBehavior) (hash : String)
    → DedupKey
    → Accepted
    → OaGatewayResult × Accepted
accept receipt behaviors hash key accepted = elim (accepted_under key accepted) [
  | some (existing, receipt_id) ↦
      if not (str_eq existing hash)
      then (gateway_failure 409 "OA_IDEMPOTENCY_CONFLICT" false, accepted)
      else (gateway_success receipt_id, accepted)
  | none ↦ accept_new receipt (behaviors key) hash key accepted
]
