-- ===== src/Shared/NetGuard/Pinned.antt =====
-- The two fetch-time guards agree (packages/shared/src/net-guard.ts).
use g_gate.Prelude.{
  ℕ, ◌≡◌, refl, ◌⊎◌, ◌↔◌, inl, inr, Bool, true, false, not, ◌||◌, Option, none, some, List, [], ◌∷◌,
  arith, ◌==◌, if◌then◌else◌,
}
use g_gate.Prelude.Text.{Text, is_empty}
use g_gate.Shared.NetGuard.{
  Resolver, clean_host, is_localhost, is_private_ipv4, is_private_ipv6, is_private_address,
  answer_public, answer_pinned, resolved_host_is_public, resolve_pinned_ip,
}

module _ (net : Resolver) where
  -- `isIP` answers 0, 4 or 6.
  abbrev pub IsIpAnswer : Type 0
  IsIpAnswer = (s : Text) → (net.is_ip s ≡ 0) ⊎ ((net.is_ip s ≡ 4) ⊎ (net.is_ip s ≡ 6))

  abbrev Guards : Option (Text × ℕ) → Bool → Type 0
  Guards pin public =
      (public ≡ true) ↔ ((a : Text × ℕ) × (pin ≡ some a) × (is_private_address a ≡ false))

  literal :
      (host : Text) (family : ℕ) (private : Bool)
      → is_private_address (host, family) ≡ private
      → Guards (if private then none else some (host, family)) (not private)
  literal host family true e = ((λ h. cc), λ t. absurd (ground arith))
  literal host family false e = ((λ h. ((host, family), refl, e)), λ t. refl)

  answered : (o : Option (List (Text × ℕ))) → Guards (answer_pinned net o) (answer_public net o)
  answered none = ((λ h. cc), λ t. absurd (ground arith))
  answered (some []) = ((λ h. cc), λ t. absurd (ground arith))
  answered (some (a ∷ rest)) = ((λ h. (a, ground (arith, h), ground (arith, h))), λ t. ground arith)

  by_family :
      (local : Bool) (n : ℕ) (host : Text) (o : Option (List (Text × ℕ)))
      → (n ≡ 0) ⊎ ((n ≡ 4) ⊎ (n ≡ 6))
      → Guards
          (if local
            then none
            else if n == 0
            then answer_pinned net o
            else if is_private_address (host, n)
            then none
            else some (host, n))
          (if local
            then false
            else if n == 4
            then not (is_private_ipv4 host)
            else if n == 6
            then not (is_private_ipv6 host)
            else answer_public net o)
  by_family true n host o f = ((λ h. cc), λ t. absurd (ground arith))
  by_family false n host o (inl e) = rw e (answered o)
  by_family false n host o (inr (inl e)) = rw e (literal host 4 (is_private_ipv4 host) refl)
  by_family false n host o (inr (inr e)) = rw e (literal host 6 (is_private_ipv6 host) refl)

  -- A host passes the fetch-time guard exactly when there is an address to pin the connection to,
  -- and that address is not private.
  pub resolve_pinned_ip_iff :
      IsIpAnswer
      → (hostname : Text)
      → (resolved_host_is_public net hostname ≡ true) ↔ (
          (a : Text × ℕ) × (resolve_pinned_ip net hostname ≡ some a)
          × (is_private_address a ≡ false))
  unfolding resolve_pinned_ip resolved_host_is_public
  resolve_pinned_ip_iff ip hostname =
      let host : Text = clean_host hostname in
      by_family (is_empty host || is_localhost host) (net.is_ip host) host (net.dns host) (ip host)
