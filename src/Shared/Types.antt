-- ===== src/Shared/Types.antt =====
-- packages/shared/src/types.ts: the records that the packages exchange. Times are unix
-- milliseconds; a service id is a natural number.
use g_gate.Prelude.{ℕ, Bool, Option, List}
use g_gate.Prelude.Text.{Text}
use g_gate.Shared.Money.{Wei}

pub record PaymentOption : Type 0 where
  pub asset : Text
  pub amount : Wei
  pub decimals : ℕ
  pub symbol : Text
  pub name : Text
  pub version : Text

pub record ServiceRecord : Type 0 where
  pub id : ℕ
  pub name : Text
  pub description : Text
  pub endpoint_url : Text
  pub price_wei : Wei
  pub payment_target : Text
  pub owner : Text
  pub attestor : Text
  pub active : Bool
  pub created_at : ℕ
  pub accepts : Option (List PaymentOption)

pub record ServiceScore : Type 0 where
  pub total_calls : ℕ
  pub success_calls : ℕ

pub record AttestationRecord : Type 0 where
  pub service_id : ℕ
  pub payment_tx_hash : Text
  pub success : Bool
  pub timestamp : ℕ
  pub record_tx_hash : Text

pub record VerifyTransferQuery : Type 0 where
  pub tx_hash : Text
  pub service_id : ℕ
  pub expected_target : Text
  pub min_amount_wei : Wei
  pub expected_nonce : Text
  pub max_age_ms : ℕ

pub data Reason : Type 0 where
  not_found wrong_target amount_too_low wrong_nonce expired pending : Reason

pub record Verified : Type 0 where
  pub amount_wei : Wei
  pub from : Text
  pub timestamp : ℕ

pub data VerifyResult : Type 0 where
  verified : Verified → VerifyResult
  refused : Reason → VerifyResult
