-- ===== src/Shared/Trust.antt =====
-- packages/shared/src/trust.ts: the badge that a score earns. The counts are natural numbers, so
-- of the source's guards on malformed scores the sign tests are given by the type.
pub mod Laws
use g_gate.Prelude.{ℕ, ◌*◌, Bool, true, false, ◌&&◌, ◌||◌, not, leb, ltb, if◌then◌else◌}
use g_gate.Shared.Types.{ServiceScore}

pub data TrustTier : Type 0 where
  new reliable trusted : TrustTier

-- `Number.MAX_SAFE_INTEGER`.
abbrev pub max_safe_integer : ℕ
max_safe_integer = 9_007_199_254_740_991

unfoldable pub trust_tier : ServiceScore → TrustTier
trust_tier score =
    let total = score.total_calls in
    let success = score.success_calls in
    if not (leb total max_safe_integer) || not (leb success max_safe_integer) || ltb total success
    then new
    else if ltb total 5
    then new
    else if leb 25 total && leb (total * 95) (success * 100)
    then trusted
    else if leb (total * 9) (success * 10)
    then reliable
    else new
