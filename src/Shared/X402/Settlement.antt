-- ===== src/Shared/X402/Settlement.antt =====
-- packages/shared/src/x402.ts: the header of the settlement, from the JSON value on.
use g_gate.Prelude.{◌≡◌, ◌↔◌, arith, Bool, false, not, Option, some}
use g_gate.Prelude.Text.{Text, codes, is_empty}
use g_gate.Shared.Errors.{Result, ok, Code, ◌>>=◌, ◌>>◌, require}
use g_gate.Shared.Json.{Json, bool, str, obj, end, field, get_field}
use g_gate.Shared.X402.{bad_payment, as_object, as_text, optional_text, optional_field}

pub record SettlementResponse : Type 0 where
  pub success : Bool
  pub transaction : Text
  pub network : Text
  pub payer : Option Text
  pub error_reason : Option Text

abbrev as_bool : Option Json → Result Bool
as_bool (some (bool b)) = ok b
as_bool _ = bad_payment

unfoldable pub encode_x_payment_response : SettlementResponse → Json
encode_x_payment_response s = obj (
    field (codes "success") (bool s.success) (
      field (codes "transaction") (str s.transaction) (
        field (codes "network") (str s.network) (
          optional_field (codes "payer") s.payer
            (optional_field (codes "errorReason") s.error_reason end)))))

unfoldable pub decode_x_payment_response : Option Json → Result SettlementResponse
decode_x_payment_response json = do
  fs ← as_object json
  success ← as_bool (get_field (codes "success") fs)
  transaction ← as_text (get_field (codes "transaction") fs)
  require (not (is_empty transaction)) Code.invalid_payment 402
  network ← as_text (get_field (codes "network") fs)
  require (not (is_empty network)) Code.invalid_payment 402
  ok (record {
    success = success;
    transaction = transaction;
    network = network;
    payer = optional_text (get_field (codes "payer") fs);
    error_reason = optional_text (get_field (codes "errorReason") fs);
  })

-- A settlement that is encoded decodes to itself exactly when its transaction and its network are
-- not empty.
pub decode_x_payment_response-encode :
    (s : SettlementResponse)
    → (decode_x_payment_response (some (encode_x_payment_response s)) ≡ ok s)
      ↔ ((is_empty s.transaction ≡ false) × (is_empty s.network ≡ false))
unfolding decode_x_payment_response encode_x_payment_response get_field
decode_x_payment_response-encode s =
    (λ h. (ground (arith, h), ground (arith, h)), λ (t, n). ground (arith, t, n))
