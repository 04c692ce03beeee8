-- ===== src/Heartbeat/Laws.antt =====
-- What a heartbeat leaves: the counters against the attempts, and the last hash against the relays.
use tee_gateway.Prelude.{
  ℕ, zero, suc, ◌+◌, ◌≤◌, ◌<◌, ◌≡◌, ◌⊎◌, refl, inl, inr, arith, Bool, Bool-cases, true, false, none,
  some, ltb,
}
use tee_gateway.Prelude.Result.{Result-cases, ok}
use tee_gateway.Prelude.Text.{Text}
use tee_gateway.Heartbeat.{
  HeartbeatError, Conditions, Service, heartbeat_max_retries, attempt_heartbeat, record_sent,
  record_error, send_attempts, send_heartbeat,
}

-- After `made` attempts, numbered from `first` on, of which there are at most `left`: a relayed
-- heartbeat is counted once and leaves its hash, its time and no error; otherwise only errors changed;
-- every attempt that failed is counted as an error.
abbrev pub IsSent : (ℕ → Conditions) → ℕ → ℕ → Service → Bool × Service × ℕ → Type 0
IsSent world left first before (sent, after, made) =
    (((sent ≡ true)
        × (hash : Text) × (attempt_heartbeat before.timestamp_buffer (world made) ≡ ok hash)
        × (after.last_tx_hash ≡ some hash)
        × (after.last_success ≡ some (world made).replied_at)
        × (after.last_error ≡ none)
        × (after.total_sent ≡ suc before.total_sent)
        × (after.total_errors + first ≡ before.total_errors + made))
      ⊎ ((sent ≡ false)
          × (after.last_tx_hash ≡ before.last_tx_hash)
          × (after.last_success ≡ before.last_success)
          × (after.total_sent ≡ before.total_sent)
          × (after.total_errors + first ≡ suc (before.total_errors + made))))
    × (made < first + left)

-- A failed attempt in front of the others.
IsSent-step :
    (world : ℕ → Conditions) (left first : ℕ) (e : HeartbeatError) (s : Service)
    (r : Bool × Service × ℕ)
    → IsSent world left (suc first) (record_error e s) r
    → IsSent world (suc left) first s r
unfolding record_error
IsSent-step world left first e s (sent, after, made) (inl (a, hash, b, c, d, f, g, h), k) =
    (inl (a, hash, b, c, d, f, g, omega (arith, h)), omega (arith, k))
IsSent-step world left first e s (sent, after, made) (inr (a, b, c, d, h), k) =
    (inr (a, b, c, d, omega (arith, h)), omega (arith, k))

send_attempts-IsSent :
    (world : ℕ → Conditions) (left first : ℕ) (s : Service)
    → 1 ≤ first
    → IsSent world left first s (send_attempts world left first s)
unfolding send_attempts record_sent record_error
send_attempts-IsSent world zero first s h =
    (inr (refl, refl, refl, refl, omega (arith, h)), omega (arith, h))
send_attempts-IsSent world (suc left) first s h =
    elim (Result-cases (attempt_heartbeat s.timestamp_buffer (world first))) [
      | inl (hash, relayed) ↦
          rw (send_attempts, relayed)
            (inl (refl, hash, relayed, refl, refl, refl, refl, omega arith), omega arith)
      | inr (e, failed) ↦
          let later =
            IsSent-step world left first e s
              (send_attempts world left (suc first) (record_error e s))
              (send_attempts-IsSent world left (suc first) (record_error e s) (omega arith)) in
          elim (Bool-cases (ltb first heartbeat_max_retries)) [
            | inr last ↦ rw (send_attempts, failed, last) later
            | inl more ↦ elim (Bool-cases (world first).stopped) [
              | inl stop ↦
                  rw (send_attempts, failed, more, stop)
                    (inr (refl, refl, refl, refl, omega arith), omega arith)
              | inr on ↦ rw (send_attempts, failed, more, on) later
            ]
          ]
    ]

-- A heartbeat makes at most three attempts. If it reports success, its last attempt relayed it, and
-- the service holds that attempt's hash and time, no error, and one more in its count of heartbeats;
-- if not, the hash, the time and that count are unchanged. Either way every failed attempt is counted
-- as an error.
pub send_heartbeat-IsSent :
    (world : ℕ → Conditions) (s : Service)
    → IsSent world heartbeat_max_retries 1 s (send_heartbeat world s)
unfolding send_heartbeat
send_heartbeat-IsSent world s = send_attempts-IsSent world heartbeat_max_retries 1 s (omega arith)
