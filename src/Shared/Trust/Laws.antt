-- ===== src/Shared/Trust/Laws.antt =====
-- What a badge says of a score, and how a further call moves it.
use g_gate.Prelude.{ℕ, ◌+◌, ◌*◌, ◌≤◌, ◌<◌, ◌≡◌, ◌↔◌, arith}
use g_gate.Shared.Types.{ServiceScore}
use g_gate.Shared.Trust.{TrustTier, new, reliable, trusted, trust_tier, max_safe_integer}

abbrev pub tier_rank : TrustTier → ℕ
tier_rank new = 0
tier_rank reliable = 1
tier_rank trusted = 2

-- A score that counts no more successes than calls, within the safe integers.
pub record IsScore (s : ServiceScore) : Type 0 where
  pub counted : s.success_calls ≤ s.total_calls
  pub safe : s.total_calls ≤ max_safe_integer

-- The badge of a well-formed score is decided by exact ratios: `trusted` exactly from 25 calls
-- with at least 95% successes, and at least `reliable` exactly from 5 calls with at least 90%
-- successes.
pub trust_tier_iff :
    (s : ServiceScore)
    → IsScore s
    → ((trust_tier s ≡ trusted)
        ↔ ((25 ≤ s.total_calls) × (95 * s.total_calls ≤ 100 * s.success_calls)))
      × ((1 ≤ tier_rank (trust_tier s))
          ↔ ((5 ≤ s.total_calls) × (9 * s.total_calls ≤ 10 * s.success_calls)))
unfolding trust_tier
trust_tier_iff s h = ground arith

-- A further successful call never lowers the badge of a well-formed score
-- that has room for it.
pub trust_tier_mono :
    (s : ServiceScore)
    → IsScore s
    → s.total_calls < max_safe_integer
    → tier_rank (trust_tier s)
      ≤ tier_rank (
          trust_tier
            (record { total_calls = s.total_calls + 1; success_calls = s.success_calls + 1 }))
unfolding trust_tier
trust_tier_mono s h room = ground arith
