-- ===== src/WebhookWorker/Deliver/Outcome.antt =====
-- What dispatchClaimed stores for a delivery that is still held under the lease of its claim.
use device_platform.Prelude.{Bool, false, none, some, leb, ◌&&◌, string_eq, nat_eq}
use device_platform.Domain.Types.{webhook_delivery_status_eq}
use device_platform.Domain.Records.{WebhookDelivery, WebhookDeliveryAttempt}
use device_platform.WebhookWorker.Config.{Config, WebhookWorker}
use device_platform.WebhookWorker.Deliver.{Outside, ResolvedSecret, webhook_request}

-- Whether the receiver got the request and answered with 2xx.
unfoldable pub accepted_by_receiver : Outside → WebhookDelivery → WebhookDeliveryAttempt → Bool
accepted_by_receiver out d a =
    elim (out.resolve_webhook_secret d.project_id d.webhook_secret_version) [
      | ResolvedSecret.secret key ↦ elim (webhook_request out d a key) [
        | none ↦ false
        | some request ↦ elim (out.send request) [
          | none ↦ false
          | some response ↦ leb 200 response.status_code && leb response.status_code 299
        ]
      ]
      | _ ↦ false
    ]
