-- ===== src/Heartbeat.antt =====
-- tee_gateway/heartbeat/heartbeat.py: signed heartbeats, relayed by the facilitator. Signing, the
-- facilitator's answers and the clock are given for every attempt.
pub mod Laws
mod Tests
use tee_gateway.Prelude.{
  ℕ, zero, suc, ◌+◌, ◌-◌, Bool, true, false, Option, none, some, List, [], ◌∷◌, ltb, leb,
  if◌then◌else◌,
}
use tee_gateway.Prelude.Int.{ℤ, sub_ℕ}
use tee_gateway.Prelude.Result.{Result, ok, err, ◌>>=◌}
use tee_gateway.Prelude.Text.{Text}

abbrev pub heartbeat_max_retries : ℕ
heartbeat_max_retries = 3

-- The JSON body of the facilitator's answer: not JSON, JSON that is no object, or an object by its
-- `txHash`, which is none where it is missing or not a string.
pub data RelayBody : Type 0 where
  not_json : RelayBody
  not_object : RelayBody
  object : Option Text → RelayBody

pub data RelayReply : Type 0 where
  not_sent : RelayReply
  replied : ℕ → RelayBody → RelayReply

pub data HeartbeatError : Type 0 where
  signing_failed : HeartbeatError
  request_failed : HeartbeatError
  relay_failed : ℕ → HeartbeatError
  missing_tx_hash : HeartbeatError

abbrev pub tx_hash_of : RelayBody → Result HeartbeatError Text
tx_hash_of not_json = err missing_tx_hash
tx_hash_of not_object = err missing_tx_hash
tx_hash_of (object none) = err missing_tx_hash
tx_hash_of (object (some [])) = err missing_tx_hash
tx_hash_of (object (some (c ∷ hash))) = ok (c ∷ hash)

-- _relay_heartbeat
unfoldable pub relay_heartbeat : RelayReply → Result HeartbeatError Text
relay_heartbeat not_sent = err request_failed
relay_heartbeat (replied status body) =
    if leb 400 status then err (relay_failed status) else tx_hash_of body

-- What one attempt meets: the time before signing, whether signing works for a timestamp (to_bytes
-- refuses a negative one), the answer, the time after it, and whether the delay that follows a failure
-- is cut short by the stop event.
pub record Conditions : Type 0 where
  pub signed_at : ℕ
  pub signs : ℤ → Bool
  pub reply : RelayReply
  pub replied_at : ℕ
  pub stopped : Bool

pub record Service : Type 0 where
  pub timestamp_buffer : ℕ
  pub last_success : Option ℕ
  pub last_error : Option HeartbeatError
  pub total_sent : ℕ
  pub total_errors : ℕ
  pub last_tx_hash : Option Text

-- The body of the `try`.
unfoldable pub attempt_heartbeat : ℕ → Conditions → Result HeartbeatError Text
unfolding relay_heartbeat
attempt_heartbeat timestamp_buffer c =
    if c.signs (sub_ℕ c.signed_at timestamp_buffer)
    then relay_heartbeat c.reply
    else err signing_failed

unfoldable pub record_sent : Text → ℕ → Service → Service
record_sent tx_hash now s = record s {
  last_success = some now;
  total_sent = suc s.total_sent;
  last_error = none;
  last_tx_hash = some tx_hash;
}

unfoldable pub record_error : HeartbeatError → Service → Service
record_error e s = record s { last_error = some e; total_errors = suc s.total_errors }

-- The attempts from number `attempt` on, of which `left` are left: whether the heartbeat was relayed,
-- the service, and the number of attempts made.
unfoldable pub send_attempts : (ℕ → Conditions) → ℕ → ℕ → Service → Bool × Service × ℕ
unfolding attempt_heartbeat record_sent record_error
send_attempts world zero attempt s = (false, s, attempt - 1)
send_attempts world (suc left) attempt s =
    elim (attempt_heartbeat s.timestamp_buffer (world attempt)) [
      | ok tx_hash ↦ (true, record_sent tx_hash (world attempt).replied_at s, attempt)
      | err e ↦
          let rest = send_attempts world left (suc attempt) (record_error e s) in
          if ltb attempt heartbeat_max_retries
          then if (world attempt).stopped then (false, record_error e s, attempt) else rest
          else rest
    ]

-- _send_heartbeat
unfoldable pub send_heartbeat : (ℕ → Conditions) → Service → Bool × Service × ℕ
unfolding send_attempts
send_heartbeat world s = send_attempts world heartbeat_max_retries 1 s

-- The loop of _run_loop: the n-th round sends a heartbeat and then waits, unless the stop event is set
-- before it. `rounds` bounds the rounds that are looked at.
unfoldable pub run_loop : (ℕ → ℕ → Conditions) → (ℕ → Bool) → ℕ → ℕ → Service → Service
unfolding send_heartbeat
run_loop worlds stop_set zero n s = s
run_loop worlds stop_set (suc rounds) n s = elim (stop_set n) [
  | true ↦ s
  | false ↦ run_loop worlds stop_set rounds (suc n) (send_heartbeat (worlds n) s).1
]
