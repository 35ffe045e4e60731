-- ===== src/Shared/NetGuard/Ipv4.antt =====
-- A dotted address is read back as its octets, so the ranges are tested on the octets themselves
-- (packages/shared/src/net-guard.ts: parseIpv4, isPrivateIPv4, isPrivateIPv6).
use g_gate.Prelude.{
  ℕ, ◌<◌, ◌≤◌, ◌≡◌, refl, ap, ◌∙◌, true, false, some, [], ◌∷◌, ◌++◌, arith, length, every, le→leb,
}
use g_gate.Prelude.Text.{Text, is_digit}
use g_gate.Prelude.Decimal.{
  decimal, big_int-decimal, is_digits-decimal, every-digit-decimal, decimal-length,
}
use g_gate.Shared.NetGuard.{
  split, parse_octet, parse_ipv4, is_private_octets, is_private_ipv4, dotted,
}

-- A piece of digits before a separator is the first part.
split-digits :
    (s rest : Text) (c : ℕ)
    → is_digit c ≡ false
    → every is_digit s ≡ true
    → split c (s ++ c ∷ rest) ≡ s ∷ split c rest
unfolding split
split-digits [] rest c n h = ground arith
split-digits (d ∷ s) rest c n h = ground (arith, split-digits s rest c n, n)

split-last : (s : Text) (c : ℕ) → is_digit c ≡ false → every is_digit s ≡ true → split c s ≡ s ∷ []
unfolding split
split-last [] c n h = refl
split-last (d ∷ s) c n h = ground (arith, split-last s c n, n)

parse_octet-decimal : (a : ℕ) → a < 256 → parse_octet (decimal a) ≡ some a
unfolding parse_octet
parse_octet-decimal a h =
    let short : length (decimal a) ≤ 3 = decimal-length 2 a (omega arith) in
    rw (is_digits-decimal a, le→leb _ _ short, big_int-decimal a, le→leb a 255 (omega arith))

split-dotted :
    (a b c d : ℕ) → split b'.' (dotted a b c d) ≡ decimal a ∷ decimal b ∷ decimal c ∷ decimal d ∷ []
split-dotted a b c d =
    split-digits (decimal a) _ b'.' refl (every-digit-decimal a)
    ∙ ap (λ t. decimal a ∷ t)
        (split-digits (decimal b) _ b'.' refl (every-digit-decimal b)
          ∙ ap (λ t. decimal b ∷ t)
              (split-digits (decimal c) _ b'.' refl (every-digit-decimal c)
                ∙ ap (λ t. decimal c ∷ t)
                    (split-last (decimal d) b'.' refl (every-digit-decimal d))))

-- The guard on the text of an IPv4 address is the test of the reserved ranges on its octets.
pub is_private_ipv4-dotted :
    (a b c d : ℕ)
    → a < 256
    → b < 256
    → c < 256
    → d < 256
    → is_private_ipv4 (dotted a b c d) ≡ is_private_octets a b
unfolding is_private_ipv4 parse_ipv4
is_private_ipv4-dotted a b c d ha hb hc hd = rw (
  split-dotted a b c d,
  parse_octet-decimal a ha,
  parse_octet-decimal b hb,
  parse_octet-decimal c hc,
  parse_octet-decimal d hd,
)
