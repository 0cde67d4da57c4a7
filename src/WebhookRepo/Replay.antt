-- ===== src/WebhookRepo/Replay.antt =====
-- postgres_webhook_simulator.go: CreateReplay.
use device_platform.Prelude.{◌||◌, String, none, some, if◌then◌else◌, ◌==◌, ◌!=◌, string_eq}
use device_platform.Prelude.Text.{trim_space}
use device_platform.Prelude.Table.{find}
use device_platform.Domain.Types.{WebhookDeliveryStatus, webhook_delivery_status_eq}
use device_platform.Domain.Records.{WebhookDelivery}
use device_platform.Store.{
  Tx, err, ◌>>=◌, delivery_id, invalid_repository_request, webhook_delivery_not_found,
  webhook_delivery_not_dead, webhook_not_configured,
}
use device_platform.CommandRepo.Journal.{lock_current_webhook_config, insert_delivery}
use device_platform.WebhookRepo.Claim.{get_delivery}

unfoldable pub create_replay : String → String → Tx WebhookDelivery
unfolding lock_current_webhook_config insert_delivery get_delivery trim_space
create_replay id replay_of db =
    if trim_space id == "" || trim_space replay_of == "" || id == replay_of
    then err invalid_repository_request
    else elim (find delivery_id replay_of db.deliveries) [
      | none ↦ err webhook_delivery_not_found
      | some d ↦
          if d.status != WebhookDeliveryStatus.dead
          then err webhook_delivery_not_dead
          else elim (lock_current_webhook_config d.project_id db) [
            | none ↦ err webhook_not_configured
            | some config ↦
                (insert_delivery id d.project_id d.event_id d.raw_body config (some replay_of)
                    >>= (λ u. get_delivery id))
                  db
          ]
    ]
