-- ===== src/Domain/Audit.antt =====
-- backend/internal/domain/types.go: the actors and the records of the audit log, and the versions of
-- a webhook secret.
use device_platform.Prelude.{
  ℕ, ◌≡◌, ◌↔◌, true, String, Option, arith, nat_beq, Comparable, string_eq,
}
use device_platform.Prelude.Json.{Json}

pub data ActorType : Type 0 where
  user project provider system : ActorType

abbrev actor_type_code : ActorType → ℕ
actor_type_code ActorType.user = 0
actor_type_code ActorType.project = 1
actor_type_code ActorType.provider = 2
actor_type_code ActorType.system = 3

pub actor_type_code_iff :
    (a b : ActorType) → (nat_beq (actor_type_code a) (actor_type_code b) ≡ true) ↔ (a ≡ b)
actor_type_code_iff a b = ground arith

instance abbrev pub actor_type_eq : Comparable ActorType
actor_type_eq = record {
  equal = λ a b. nat_beq (actor_type_code a) (actor_type_code b);
  equal_iff = actor_type_code_iff;
}

pub data AuditResult : Type 0 where
  success failure : AuditResult

abbrev audit_result_code : AuditResult → ℕ
audit_result_code AuditResult.success = 0
audit_result_code AuditResult.failure = 1

pub audit_result_code_iff :
    (a b : AuditResult) → (nat_beq (audit_result_code a) (audit_result_code b) ≡ true) ↔ (a ≡ b)
audit_result_code_iff a b = ground arith

instance abbrev pub audit_result_eq : Comparable AuditResult
audit_result_eq = record {
  equal = λ a b. nat_beq (audit_result_code a) (audit_result_code b);
  equal_iff = audit_result_code_iff;
}

pub record AuditLog : Type 0 where
  pub id : String
  pub actor_type : ActorType
  pub actor_user_id : Option String
  pub actor_id : Option String
  pub project_id : Option String
  pub action : String
  pub result : AuditResult
  pub resource_type : String
  pub resource_id : Option String
  pub ip_address : Option String
  pub request_id : Option String
  pub metadata : Json
  pub occurred_at : ℕ

pub record WebhookSecretVersion : Type 0 where
  pub project_id : String
  pub version : ℕ
  pub ciphertext : String
  pub nonce : String
  pub encryption_key_version : ℕ
  pub created_at : ℕ
  pub retired_at : Option ℕ
