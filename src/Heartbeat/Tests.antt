-- ===== src/Heartbeat/Tests.antt =====
-- A facilitator that answers at the second attempt.
use tee_gateway.Prelude.{ℕ, zero, suc, ◌≡◌, refl, true, false, none, some}
use tee_gateway.Prelude.Text.{codes}
use tee_gateway.Heartbeat.{
  Conditions, Service, RelayReply, not_sent, replied, object, heartbeat_max_retries,
  attempt_heartbeat, relay_heartbeat, record_sent, record_error, send_attempts, send_heartbeat,
  run_loop,
}
use tee_gateway.Heartbeat.Laws.{IsSent, send_heartbeat-IsSent}

abbrev conditions : RelayReply → Conditions
conditions reply = record {
  signed_at = 1000;
  signs = λ timestamp. true;
  reply = reply;
  replied_at = 1001;
  stopped = false;
}

abbrev second_relay : ℕ → Conditions
second_relay (suc (suc zero)) = conditions (replied 200 (object (some (codes "0xab"))))
second_relay _ = conditions not_sent

abbrev new_service : Service
new_service = record {
  timestamp_buffer = 300;
  last_success = none;
  last_error = none;
  total_sent = 0;
  total_errors = 0;
  last_tx_hash = none;
}

sent_at_second :
    send_heartbeat second_relay new_service
    ≡ (true, record_sent (codes "0xab") 1001 (record new_service { total_errors = 1 }), 2)
unfolding send_heartbeat send_attempts attempt_heartbeat relay_heartbeat record_sent record_error
sent_at_second = refl

two_rounds :
    (run_loop
      (λ n. second_relay)
      (λ n. elim n [ zero ↦ false | suc zero ↦ false | suc (suc k) ↦ true ])
      5
      0
      new_service).total_sent
    ≡ 2
unfolding run_loop send_heartbeat send_attempts attempt_heartbeat relay_heartbeat record_sent
    record_error
two_rounds = refl

send_heartbeat-IsSent_example :
    IsSent second_relay heartbeat_max_retries 1 new_service
      (send_heartbeat second_relay new_service)
send_heartbeat-IsSent_example = send_heartbeat-IsSent second_relay new_service
