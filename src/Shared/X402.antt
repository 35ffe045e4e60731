-- ===== src/Shared/X402.antt =====
-- packages/shared/src/x402.ts: the payment header. `Buffer` and `JSON.parse` take a header to a
-- JSON value, or to nothing if it is not base64-encoded JSON; the model starts at that value.
pub mod Roundtrip
pub mod Settlement
use g_gate.Prelude.{
  ℕ, ◌^◌, ◌<◌, Bool, true, false, ◌&&◌, not, Option, none, some, [], ◌∷◌, length, leb, ltb, ◌==◌,
  if◌then◌else◌,
}
use g_gate.Prelude.Text.{Text, codes, trim, is_empty, is_prefixed_hex, text_beq}
use g_gate.Prelude.Decimal.{big_int, is_digits}
use g_gate.Shared.Errors.{Result, ok, fail, Code, ◌>>=◌, ◌>>◌, require}
use g_gate.Shared.Json.{
  Json, null, bool, num, other_num, str, arr, obj, Fields, end, field, get_field,
}

abbrev pub x402_version : ℕ
x402_version = 1

-- `exact-settled`.
abbrev pub x402_scheme : Text
x402_scheme = codes "exact-settled"

pub record ZgExactPayload : Type 0 where
  pub transaction : Text
  pub nonce : Text
  pub from : Option Text
  pub signature : Option Text

-- The version and the scheme are the constants above in every value of the type.
pub record PaymentPayload : Type 0 where
  pub network : Text
  pub payload : ZgExactPayload

-- `NONCE_RE` and the bound of uint256.
unfoldable pub is_uint256 : Text → Bool
is_uint256 s = is_digits s && leb (length s) 78 && ltb (big_int s) (2 ^ 256)

-- `SIGNATURE_RE`.
abbrev pub is_signature : Text → Bool
is_signature = is_prefixed_hex 130

abbrev pub bad_payment {ℓ} : {A : Type ℓ} → Result A
bad_payment = fail Code.invalid_payment 402

abbrev pub as_object : Option Json → Result Fields
as_object (some (obj fs)) = ok fs
as_object _ = bad_payment

abbrev pub as_text : Option Json → Result Text
as_text (some (str s)) = ok s
as_text _ = bad_payment

abbrev pub is_version : Option Json → Bool
is_version (some (num n)) = n == x402_version
is_version _ = false

unfoldable pub is_scheme : Option Json → Bool
unfolding text_beq
is_scheme (some (str s)) = text_beq s x402_scheme
is_scheme _ = false

-- `typeof payload['from'] === 'string'`, else left out.
abbrev pub optional_text : Option Json → Option Text
optional_text (some (str s)) = some s
optional_text _ = none

-- The signature may be left out, and must be well formed if it is there.
unfoldable pub read_signature : Option Json → Result (Option Text)
read_signature none = ok none
read_signature (some (str s)) = if is_signature s then ok (some s) else bad_payment
read_signature (some _) = bad_payment

unfoldable pub read_payload : Fields → Result ZgExactPayload
read_payload fs = do
  transaction ← as_text (get_field (codes "transaction") fs)
  require (is_prefixed_hex 64 transaction) Code.invalid_payment 402
  nonce ← as_text (get_field (codes "nonce") fs)
  require (is_uint256 nonce) Code.invalid_payment 402
  signature ← read_signature (get_field (codes "signature") fs)
  ok (record {
    transaction = transaction;
    nonce = nonce;
    from = optional_text (get_field (codes "from") fs);
    signature = signature;
  })

unfoldable pub decode_x_payment : Option Json → Result PaymentPayload
decode_x_payment json = do
  fs ← as_object json
  require (is_version (get_field (codes "x402Version") fs)) Code.invalid_payment 402
  require (is_scheme (get_field (codes "scheme") fs)) Code.invalid_payment 402
  network ← as_text (get_field (codes "network") fs)
  require (not (is_empty (trim network))) Code.invalid_payment 402
  inner ← as_object (get_field (codes "payload") fs)
  payload ← read_payload inner
  ok (record { network = network; payload = payload })

abbrev pub optional_field : Text → Option Text → Fields → Fields
optional_field key none rest = rest
optional_field key (some s) rest = field key (str s) rest

-- `encodeXPayment`: the object that is serialised, `undefined` fields left out.
unfoldable pub encode_x_payment : PaymentPayload → Json
encode_x_payment p = obj (
    field (codes "x402Version") (num x402_version) (
      field (codes "scheme") (str x402_scheme) (
        field (codes "network") (str p.network) (
          field (codes "payload")
            (obj (
              field (codes "transaction") (str p.payload.transaction) (
                field (codes "nonce") (str p.payload.nonce) (
                  optional_field (codes "from") p.payload.from
                    (optional_field (codes "signature") p.payload.signature end)))))
            end))))
