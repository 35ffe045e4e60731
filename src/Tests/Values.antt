-- ===== src/Tests/Values.antt =====
-- Amounts, badges, headers, addresses and hosts at concrete inputs (packages/shared/src,
-- packages/chain/src/address.ts).
use g_gate.Prelude.{ℕ, ◌≤◌, ◌*◌, ◌≡◌, ◌↔◌, refl, inl, true, false, none, some, [], ◌∷◌, arith}
use g_gate.Prelude.Text.{is_empty, Text, codes, trim, trim_start}
use g_gate.Prelude.Decimal.{is_digits, big_int, value_from, decimal}
use g_gate.Shared.Errors.{ok, ◌>>=◌}
use g_gate.Shared.Money.{wei_to_og, og_to_wei}
use g_gate.Shared.Money.Roundtrip.{og_to_wei-wei_to_og}
use g_gate.Shared.Types.{ServiceScore}
use g_gate.Shared.Trust.{trust_tier, trusted}
use g_gate.Shared.Trust.Laws.{IsScore, tier_rank, trust_tier_iff}
use g_gate.Shared.X402.{PaymentPayload, decode_x_payment, encode_x_payment, is_uint256}
use g_gate.Shared.X402.Settlement.{
  SettlementResponse, encode_x_payment_response, decode_x_payment_response,
  decode_x_payment_response-encode,
}
use g_gate.Shared.X402.Roundtrip.{IsFormed, decode-encode}
use g_gate.Shared.NetGuard.{
  Resolver, resolved_host_is_public, resolve_pinned_ip, is_private_address,
}
use g_gate.Shared.NetGuard.Pinned.{resolve_pinned_ip_iff}

abbrev one_og : Text
one_og = codes "1000000000000000000"

abbrev half_og : Text
half_og = codes "0500000000000000000"

og_to_wei-wei_to_og_example : (wei_to_og half_og >>= og_to_wei) ≡ ok (decimal (big_int half_og))
unfolding is_digits
og_to_wei-wei_to_og_example = og_to_wei-wei_to_og half_og refl

abbrev busy : ServiceScore
busy = record { total_calls = 40; success_calls = 39 }

busy-IsScore : IsScore busy
busy-IsScore = record { counted = omega arith; safe = omega arith }

trust_tier_iff_example :
    ((trust_tier busy ≡ trusted)
      ↔ ((25 ≤ busy.total_calls) × (95 * busy.total_calls ≤ 100 * busy.success_calls)))
    × ((1 ≤ tier_rank (trust_tier busy))
        ↔ ((5 ≤ busy.total_calls) × (9 * busy.total_calls ≤ 10 * busy.success_calls)))
trust_tier_iff_example = trust_tier_iff busy busy-IsScore

abbrev tx_hash : Text
tx_hash = codes "0x00000000000000000000000000000000000000000000000000000000000000ab"

abbrev payment : PaymentPayload
payment = record {
  network = codes "eip155:16602";
  payload = record { transaction = tx_hash; nonce = codes "77"; from = none; signature = none };
}

payment-IsFormed : IsFormed payment
unfolding is_digits is_uint256 big_int value_from trim trim_start
payment-IsFormed = record { network = refl; transaction = refl; nonce = refl; signature = refl }

decode-encode_example : decode_x_payment (some (encode_x_payment payment)) ≡ ok payment
decode-encode_example = decode-encode payment payment-IsFormed

abbrev settlement : SettlementResponse
settlement = record {
  success = true;
  transaction = tx_hash;
  network = codes "eip155:16602";
  payer = none;
  error_reason = none;
}

decode_x_payment_response-encode_example :
    (decode_x_payment_response (some (encode_x_payment_response settlement)) ≡ ok settlement)
    ↔ ((is_empty settlement.transaction ≡ false) × (is_empty settlement.network ≡ false))
decode_x_payment_response-encode_example = decode_x_payment_response-encode settlement

-- Every name resolves to one public address, and no host is a literal.
abbrev one_address : Resolver
one_address = record {
  is_ip = λ s. 0;
  dns = λ s. some ((codes "8.8.8.8", 4) ∷ []);
  hostname = λ s. some s;
}

resolve_pinned_ip_iff_example :
    (resolved_host_is_public one_address (codes "api.example.com") ≡ true) ↔ (
      (a : Text × ℕ) × (resolve_pinned_ip one_address (codes "api.example.com") ≡ some a)
      × (is_private_address a ≡ false))
resolve_pinned_ip_iff_example =
    resolve_pinned_ip_iff one_address (λ s. inl refl) (codes "api.example.com")

abbrev upper_address : Text
upper_address = codes "0xABCDEF0000000000000000000000000000000001"

abbrev lower_address : Text
lower_address = codes " 0xabcdef0000000000000000000000000000000001"
