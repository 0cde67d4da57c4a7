-- ===== src/WebhookWorker/Config.antt =====
-- webhookworker/worker.go and types.go: Config, Worker, New and retryDelay. A duration is a number of
-- nanoseconds; one that is not positive is 0 here, as an attempt limit that is not positive is.
pub mod Guards
use device_platform.Prelude.{
  ℕ, zero, suc, ◌-◌, ◌*◌, Bool, true, false, ◌||◌, ◌&&◌, not, String, List, [], ◌∷◌, Option, none,
  some, leb, ltb, if◌then◌else◌, ◌==◌, ◌!=◌, string_eq, nat_eq, length,
}
use device_platform.Prelude.Text.{trim_space}

-- The dependencies that New tests for nil, and the settings; `none` is a nil schedule.
pub record Config : Type 0 where
  pub has_store : Bool
  pub has_secrets : Bool
  pub has_client : Bool
  pub worker_id : String
  pub poll_interval : ℕ
  pub lease_duration : ℕ
  pub max_attempts : ℕ
  pub retry_schedule : Option (List ℕ)

pub record WebhookWorker : Type 0 where
  pub worker_id : String
  pub poll_interval : ℕ
  pub lease_duration : ℕ
  pub max_attempts : ℕ
  pub retry_schedule : List ℕ

abbrev second : ℕ
second = 1000000000

-- maximumAttempts
abbrev pub maximum_attempts : ℕ
maximum_attempts = 5

abbrev pub default_retry_schedule : List ℕ
default_retry_schedule = 1000000000 ∷ 5000000000 ∷ 30000000000 ∷ 120000000000 ∷ []

abbrev pub first {ℓ} : {A : Type ℓ} → ℕ → List A → List A
first zero xs = []
first (suc n) [] = []
first (suc n) (x ∷ xs) = x ∷ first n xs

abbrev pub or_default : ℕ → ℕ → ℕ
or_default value fallback = if value == 0 then fallback else value

abbrev pub schedule_of : ℕ → Option (List ℕ) → List ℕ
schedule_of max (some schedule) = schedule
schedule_of max none =
    if leb 1 max && leb max maximum_attempts then first (max - 1) default_retry_schedule else []

-- No delay is shorter than the default in its place.
unfoldable pub keeps_defaults : List ℕ → List ℕ → Bool
keeps_defaults [] defaults = true
keeps_defaults (d ∷ ds) [] = false
keeps_defaults (d ∷ ds) (e ∷ es) = not (ltb d e) && keeps_defaults ds es

abbrev pub build : Config → ℕ → List ℕ → Option WebhookWorker
build c max schedule =
    if not (leb 1 max && leb max maximum_attempts)
      || length schedule != max - 1
      || not (keeps_defaults schedule default_retry_schedule)
    then none
    else some (record {
      worker_id =
          trim_space (if trim_space c.worker_id == "" then "webhook-worker" else c.worker_id);
      poll_interval = or_default c.poll_interval 500000000;
      lease_duration = or_default c.lease_duration 15000000000;
      max_attempts = max;
      retry_schedule = schedule;
    })

-- New; `none` is ErrInvalidConfig.
unfoldable pub new_worker : Config → Option WebhookWorker
unfolding trim_space keeps_defaults
new_worker c =
    if not (c.has_store && c.has_secrets && c.has_client)
    then none
    else let max = or_default c.max_attempts maximum_attempts in
      build c max (schedule_of max c.retry_schedule)

-- retrySchedule[i]; New makes the index one that exists.
abbrev pub entry : List ℕ → ℕ → ℕ
entry [] i = 0
entry (d ∷ ds) zero = d
entry (d ∷ ds) (suc i) = entry ds i

unfoldable pub retry_delay : WebhookWorker → ℕ → ℕ
retry_delay w attempt_count =
    if leb w.max_attempts attempt_count then 0 else entry w.retry_schedule (attempt_count - 1)
