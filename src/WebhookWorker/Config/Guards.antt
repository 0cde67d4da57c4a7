-- ===== src/WebhookWorker/Config/Guards.antt =====
-- The settings that New lets through, against the guards of the repository.
use device_platform.Prelude.{
  ℕ, zero, suc, ◌-◌, ◌≡◌, ◌≤◌, ◌<◌, refl, true, ◌&&◌, List, [], ◌∷◌, some, arith, leb, string_eq,
  nat_eq, length, Bool-cases, inl, inr,
}
use device_platform.Prelude.Bytes.{all}
use device_platform.CommandRepo.Dispatch.{microsecond}
use device_platform.WebhookRepo.Recover.{valid_webhook_retry_schedule}
use device_platform.WebhookWorker.Config.{
  Config, WebhookWorker, new_worker, keeps_defaults, default_retry_schedule, entry, retry_delay,
  build, or_default, maximum_attempts, schedule_of,
}

-- Every delay of the defaults is at least a microsecond.
long_enough :
    (ds es : List ℕ)
    → all (leb microsecond) es ≡ true
    → keeps_defaults ds es ≡ true
    → all (leb microsecond) ds ≡ true
unfolding all keeps_defaults
long_enough [] es h k = refl
long_enough (d ∷ ds) [] h k = cc
long_enough (d ∷ ds) (e ∷ es) h k = ground (arith, long_enough ds es)

defaults_long : all (leb microsecond) default_retry_schedule ≡ true
unfolding all
defaults_long = refl

build-valid :
    (c : Config) (max : ℕ) (schedule : List ℕ) (w : WebhookWorker)
    → build c max schedule ≡ some w
    → (valid_webhook_retry_schedule w.max_attempts w.retry_schedule ≡ true)
      × (keeps_defaults w.retry_schedule default_retry_schedule ≡ true)
unfolding valid_webhook_retry_schedule
build-valid c max schedule w h =
    ground (arith, long_enough schedule default_retry_schedule defaults_long)

-- A worker that New returns passes the repository's guards: RecoverNextExpiredSending does not refuse
-- its requests.
pub new_worker-valid :
    (c : Config) (w : WebhookWorker)
    → new_worker c ≡ some w
    → (valid_webhook_retry_schedule w.max_attempts w.retry_schedule ≡ true)
      × (keeps_defaults w.retry_schedule default_retry_schedule ≡ true)
unfolding new_worker
new_worker-valid c w h = elim (Bool-cases (c.has_store && c.has_secrets && c.has_client)) [
  | inr missing ↦ cc (rw (new_worker, missing) at h)
  | inl present ↦
      build-valid c (or_default c.max_attempts maximum_attempts)
        (schedule_of (or_default c.max_attempts maximum_attempts) c.retry_schedule) w
        (rw (new_worker, present) at h)
]

-- Every delay of a schedule that New accepts is long enough for the repository.
entry-ge :
    (ds es : List ℕ) (i : ℕ)
    → keeps_defaults ds es ≡ true
    → all (leb microsecond) es ≡ true
    → i < length ds
    → microsecond ≤ entry ds i
unfolding keeps_defaults all
entry-ge [] es i h k l = absurd (omega arith)
entry-ge (d ∷ ds) [] i h k l = cc
entry-ge (d ∷ ds) (e ∷ es) zero h k l = ground arith
entry-ge (d ∷ ds) (e ∷ es) (suc i) h k l = ground (arith, entry-ge ds es i)

-- The delay that the worker asks for is one that webhookCompletion takes: none at the last attempt,
-- and at least a microsecond before it.
pub retry_delay_fits :
    (c : Config) (w : WebhookWorker) (n : ℕ)
    → new_worker c ≡ some w
    → 1 ≤ n
    → (w.max_attempts ≤ n → retry_delay w n ≡ 0)
      × (n < w.max_attempts → microsecond ≤ retry_delay w n)
unfolding retry_delay valid_webhook_retry_schedule
retry_delay_fits c w n h pos =
    let (valid, keeps) = new_worker-valid c w h in
    (
      λ last. ground arith,
      λ more.
          ground
            (arith, entry-ge w.retry_schedule default_retry_schedule (n - 1) keeps defaults_long),
    )
