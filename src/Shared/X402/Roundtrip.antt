-- ===== src/Shared/X402/Roundtrip.antt =====
-- A payment header that is written and read (packages/shared/src/x402.ts).
use g_gate.Prelude.{◌≡◌, Bool, true, false, not, Option, none, some, arith}
use g_gate.Prelude.Text.{Text, codes, trim, is_empty, is_prefixed_hex}
use g_gate.Shared.Errors.{ok, Code, require, >>=-eq-ok}
use g_gate.Shared.Json.{Json, Fields, get_field}
use g_gate.Shared.X402.{
  PaymentPayload, ZgExactPayload, is_uint256, is_signature, is_version, is_scheme, read_signature,
  read_payload, decode_x_payment, encode_x_payment, as_object, as_text,
}

abbrev pub signature_formed : Option Text → Bool
signature_formed none = true
signature_formed (some s) = is_signature s

-- The shape that the gateway accepts.
pub record IsFormed (p : PaymentPayload) : Type 0 where
  pub network : is_empty (trim p.network) ≡ false
  pub transaction : is_prefixed_hex 64 p.payload.transaction ≡ true
  pub nonce : is_uint256 p.payload.nonce ≡ true
  pub signature : signature_formed p.payload.signature ≡ true

-- A well-formed payment that is encoded decodes to itself.
pub decode-encode :
    (p : PaymentPayload) → IsFormed p → decode_x_payment (some (encode_x_payment p)) ≡ ok p
unfolding decode_x_payment encode_x_payment get_field is_scheme read_payload read_signature
decode-encode p h = ground (arith, h.network, h.transaction, h.nonce, h.signature)

read_payload_sound :
    (fs : Fields) (z : ZgExactPayload)
    → read_payload fs ≡ ok z
    → (is_prefixed_hex 64 z.transaction ≡ true)
      × (is_uint256 z.nonce ≡ true)
      × (signature_formed z.signature ≡ true)
unfolding read_payload read_signature
read_payload_sound fs z h = ground arith

-- Whatever the header holds, what is decoded from it is well formed.
pub decode_x_payment-IsFormed :
    (json : Option Json) (p : PaymentPayload) → decode_x_payment json ≡ ok p → IsFormed p
unfolding decode_x_payment
decode_x_payment-IsFormed json p h =
    let (fs, _, h1) = >>=-eq-ok (as_object json) _ h in
    let (_, _, h2) =
      >>=-eq-ok (require (is_version (get_field (codes "x402Version") fs)) Code.invalid_payment 402)
        _ h1 in
    let (_, _, h3) =
      >>=-eq-ok (require (is_scheme (get_field (codes "scheme") fs)) Code.invalid_payment 402) _
        h2 in
    let (network, _, h4) = >>=-eq-ok (as_text (get_field (codes "network") fs)) _ h3 in
    let (_, named, h5) =
      >>=-eq-ok (require (not (is_empty (trim network))) Code.invalid_payment 402) _ h4 in
    let (inner, _, h6) = >>=-eq-ok (as_object (get_field (codes "payload") fs)) _ h5 in
    let (z, read, h7) = >>=-eq-ok (read_payload inner) _ h6 in
    let (tx, nonce, signature) = read_payload_sound inner z read in
    let same : record { network = network; payload = z } ≡ p = ground (arith, h7) in
    rw (← same) (record {
      network = ground (arith, named);
      transaction = tx;
      nonce = nonce;
      signature = signature;
    })
