-- ===== src/Http/Health.antt =====
-- internal/http/handler/health.go: whether the service is ready, and the cache of the queue's
-- state.
pub mod Honest
use go_challenge_fc.Base.{
  ℕ, ◌-◌, ◌*◌, Bool, true, false, Option, none, some, String, ltb, if◌then◌else◌,
}
use go_challenge_fc.Base.Time.{second}

-- The cache: the zero time of lastSQSCheck is `none`, and so is a nil error.
pub record HealthHandler : Type 0 where
  pub has_sqs : Bool
  pub last_sqs_check : Option ℕ
  pub last_sqs_err : Option String
  pub sqs_cache_ttl : ℕ

-- NewHealthHandler and NewHealthHandlerWithSQS
unfoldable pub new_health_handler : Bool → HealthHandler
new_health_handler has_sqs = record {
  has_sqs = has_sqs;
  last_sqs_check = none;
  last_sqs_err = none;
  sqs_cache_ttl = 15 * second;
}

-- The answer of Ready; "status" is "UP" in the last one alone.
pub data Readiness : Type 0 where
  database_unavailable : String → Readiness
  sqs_unavailable : String → Readiness
  up : Bool → Readiness

abbrev pub readiness_status : Readiness → ℕ
readiness_status (up has_sqs) = 200
readiness_status _ = 503

-- time.Since(h.lastSQSCheck) > h.sqsCacheTTL
abbrev pub is_stale : ℕ → Option ℕ → ℕ → Bool
is_stale now none ttl = true
is_stale now (some at) ttl = ltb ttl (now - at)

-- The cache after the check at the time `now`: `ping` is the error of ListQueues, if there is one,
-- which has returned at the time `ended`.
unfoldable pub check_sqs : ℕ → ℕ → Option String → HealthHandler → HealthHandler
check_sqs now ended ping h =
    if is_stale now h.last_sqs_check h.sqs_cache_ttl
    then record h { last_sqs_check = some ended; last_sqs_err = ping }
    else h

abbrev pub sqs_answer : Option String → Readiness
sqs_answer none = up true
sqs_answer (some e) = sqs_unavailable e

unfoldable pub ready_with_database :
    ℕ → ℕ → Option String → HealthHandler → Readiness × HealthHandler
unfolding check_sqs
ready_with_database now ended ping h =
    let checked = check_sqs now ended ping h in
    if h.has_sqs then (sqs_answer checked.last_sqs_err, checked) else (up false, h)

-- HealthHandler.Ready; `database` is the error of SELECT 1, if there is one.
unfoldable pub ready :
    ℕ → ℕ → Option String → Option String → HealthHandler → Readiness × HealthHandler
unfolding ready_with_database
ready now ended (some e) ping h = (database_unavailable e, h)
ready now ended none ping h = ready_with_database now ended ping h
