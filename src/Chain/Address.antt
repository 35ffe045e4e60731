-- ===== src/Chain/Address.antt =====
-- packages/chain/src/address.ts.
use g_gate.Prelude.{◌≡◌, Bool, true, ◌&&◌, arith, if◌then◌else◌, ◌↔◌}
use g_gate.Prelude.Text.{Text, trim, to_lower, is_prefixed_hex, text_beq, text_beq_iff}
use g_gate.Shared.Errors.{Result, ok, fail, Code}

-- `isAddress`.
unfoldable pub is_address : Text → Bool
is_address value = is_prefixed_hex 40 (trim value)

-- `normalizeAddress`.
unfoldable pub normalize_address : Text → Result Text
unfolding is_address
normalize_address value =
    if is_address value then ok (to_lower (trim value)) else fail Code.invalid_address 400

-- `sameAddress`.
unfoldable pub same_address : Text → Text → Bool
unfolding is_address
same_address a b = is_address a && is_address b && text_beq (to_lower (trim a)) (to_lower (trim b))

-- Two texts are the same address exactly when both are addresses with one normal form.
pub same_address_iff :
    (a b : Text)
    → (same_address a b ≡ true)
      ↔ ((is_address a ≡ true) × (is_address b ≡ true) × (to_lower (trim a) ≡ to_lower (trim b)))
unfolding same_address
same_address_iff a b = ground (arith, text_beq_iff (to_lower (trim a)) (to_lower (trim b)))

pub same_address_comm : (a b : Text) → same_address a b ≡ same_address b a
unfolding same_address
same_address_comm a b = ground (
  arith,
  text_beq_iff (to_lower (trim a)) (to_lower (trim b)),
  text_beq_iff (to_lower (trim b)) (to_lower (trim a)),
)
