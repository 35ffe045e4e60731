-- ===== src/Shared/NetGuard.antt =====
-- packages/shared/src/net-guard.ts: which hosts a request may go to. `isIP`, the DNS lookup and
-- the URL parser are Node's: they are the fields of `Resolver`.
pub mod Pinned
pub mod Ipv4
use g_gate.Prelude.{
  ℕ, ◌+◌, ◌-◌, ◌*◌, ◌/◌, ◌%◌, Bool, true, false, not, ◌&&◌, ◌||◌, Option, none, some, List, [], ◌∷◌,
  ◌++◌, length, every, leb, ltb, ◌==◌, if◌then◌else◌, take, reverse,
}
use g_gate.Prelude.Text.{Text, codes, trim, to_lower, is_empty, is_digit, is_hex, text_beq}
use g_gate.Prelude.Decimal.{big_int, decimal, is_digits}

-- `s.split(sep)`, at one code unit.
abbrev pub cons_head : ℕ → List Text → List Text
cons_head c [] = (c ∷ []) ∷ []
cons_head c (p ∷ ps) = (c ∷ p) ∷ ps

unfoldable pub split : ℕ → Text → List Text
split sep [] = [] ∷ []
split sep (c ∷ s) = let rest = split sep s in if c == sep then [] ∷ rest else cons_head c rest

-- One part of a dotted address: `/^\d{1,3}$/` and at most 255.
unfoldable pub parse_octet : Text → Option ℕ
parse_octet part =
    if is_digits part && leb (length part) 3
    then (if leb (big_int part) 255 then some (big_int part) else none)
    else none

pub record Octets : Type 0 where
  pub o0 : ℕ
  pub o1 : ℕ
  pub o2 : ℕ
  pub o3 : ℕ

infixl 5 ◌>>=◌
abbrev ◌>>=◌ {ℓ κ} : {A : Type ℓ} {B : Type κ} → Option A → (A → Option B) → Option B
none >>= f = none
some a >>= f = f a

abbrev pub read_octets : List Text → Option Octets
read_octets (a ∷ b ∷ c ∷ d ∷ []) = do
  w ← parse_octet a
  x ← parse_octet b
  y ← parse_octet c
  z ← parse_octet d
  some (record { o0 = w; o1 = x; o2 = y; o3 = z })
read_octets _ = none

unfoldable pub parse_ipv4 : Text → Option Octets
parse_ipv4 host = read_octets (split b'.' host)

-- The reserved ranges.
unfoldable pub is_private_octets : ℕ → ℕ → Bool
is_private_octets a b =
    (a == 0 || a == 10 || a == 127)
    || (a == 100 && leb 64 b && leb b 127)
    || (a == 169 && b == 254)
    || (a == 172 && leb 16 b && leb b 31)
    || (a == 192 && b == 168)
    || (a == 192 && b == 0)
    || (a == 198 && (b == 18 || b == 19))
    || leb 224 a

abbrev pub private_if_parsed : Option Octets → Bool
private_if_parsed none = false
private_if_parsed (some o) = is_private_octets o.o0 o.o1

unfoldable pub is_private_ipv4 : Text → Bool
is_private_ipv4 host = private_if_parsed (parse_ipv4 host)

-- `h.startsWith(prefix)`, and what follows the prefix.
unfoldable pub strip_prefix : Text → Text → Option Text
strip_prefix [] s = some s
strip_prefix (p ∷ ps) [] = none
strip_prefix (p ∷ ps) (c ∷ s) = let rest = strip_prefix ps s in if p == c then rest else none

abbrev pub starts_with : Text → Text → Bool
starts_with p s = elim (strip_prefix p s) [ none ↦ false | some _ ↦ true ]

-- `parseInt(g, 16)`, for a text of hexadecimal digits in lower case.
abbrev pub hex_value : ℕ → ℕ
hex_value c = if is_digit c then c - b'0' else c - b'a' + 10

unfoldable pub parse_hex : ℕ → Text → ℕ
parse_hex a [] = a
parse_hex a (c ∷ s) = parse_hex (a * 16 + hex_value c) s

-- `/^[0-9a-f]{1,4}$/`.
abbrev pub is_group : Text → Bool
is_group g = not (is_empty g) && leb (length g) 4 && every is_hex g

abbrev pub dotted : ℕ → ℕ → ℕ → ℕ → Text
dotted a b c d = decimal a ++ b'.' ∷ (decimal b ++ b'.' ∷ (decimal c ++ b'.' ∷ decimal d))

abbrev pub mapped_groups : List Text → Bool
mapped_groups (g ∷ h ∷ []) =
    let hi = parse_hex 0 g in
    let lo = parse_hex 0 h in
    if is_group g && is_group h
    then is_private_ipv4 (dotted (hi / 256) (hi % 256) (lo / 256) (lo % 256))
    else true
mapped_groups _ = true

abbrev pub contains_code : ℕ → Text → Bool
contains_code c [] = false
contains_code c (d ∷ s) = d == c || contains_code c s

-- `/^fe[89ab]/`.
abbrev pub is_link_local : Text → Bool
is_link_local h =
    starts_with (codes "fe8") h
    || starts_with (codes "fe9") h
    || starts_with (codes "fea") h
    || starts_with (codes "feb") h

-- An IPv4-mapped address, after `::ffff:`.
abbrev pub mapped_private : Option Text → Bool
mapped_private none = false
mapped_private (some rest) =
    if contains_code b'.' rest then is_private_ipv4 rest else mapped_groups (split b':' rest)

unfoldable pub is_private_ipv6 : Text → Bool
is_private_ipv6 host =
    let h = to_lower host in
    text_beq h (codes "::")
    || text_beq h (codes "::1")
    || starts_with (codes "fc") h
    || starts_with (codes "fd") h
    || is_link_local h
    || mapped_private (strip_prefix (codes "::ffff:") h)

-- `isIP` (0, 4 or 6), the answer of `lookup(host, { all: true })` (none if it fails) with the
-- family of each address, and the host of a URL (none if it does not parse).
pub record Resolver : Type 0 where
  pub is_ip : Text → ℕ
  pub dns : Text → Option (List (Text × ℕ))
  pub hostname : Text → Option Text

abbrev pub ends_with : ℕ → Text → Bool
ends_with c [] = false
ends_with c (d ∷ []) = d == c
ends_with c (d ∷ e ∷ s) = ends_with c (e ∷ s)

abbrev pub drop_brackets : Text → Text
drop_brackets [] = []
drop_brackets (c ∷ s) =
    let inner = take (length s - 1) s in if c == b'[' && ends_with b']' s then inner else c ∷ s

abbrev pub drop_dot : Text → Text
drop_dot s = if ends_with b'.' s then take (length s - 1) s else s

-- `hostname.trim().toLowerCase()` without the brackets of an IPv6 literal and a final dot.
unfoldable pub clean_host : Text → Text
clean_host hostname = drop_dot (drop_brackets (to_lower (trim hostname)))

-- Node's `s.endsWith('.localhost')` by the reversed texts.
abbrev pub is_localhost : Text → Bool
is_localhost host =
    text_beq host (codes "localhost") || starts_with (reverse (codes ".localhost")) (reverse host)

abbrev pub is_private_address : Text × ℕ → Bool
is_private_address (address, family) =
    if family == 6 then is_private_ipv6 address else is_private_ipv4 address

module _ (net : Resolver) where
  unfoldable pub is_private_host : Text → Bool
  is_private_host hostname =
      let host = clean_host hostname in
      if is_empty host || is_localhost host
      then true
      else if net.is_ip host == 4
      then is_private_ipv4 host
      else if net.is_ip host == 6
      then is_private_ipv6 host
      else false

  -- The loop over the addresses that DNS gave; an empty answer is refused.
  abbrev pub all_public : List (Text × ℕ) → Bool
  all_public [] = true
  all_public (a ∷ rest) = if is_private_address a then false else all_public rest

  abbrev pub answer_public : Option (List (Text × ℕ)) → Bool
  answer_public none = false
  answer_public (some []) = false
  answer_public (some (a ∷ rest)) = all_public (a ∷ rest)

  unfoldable pub resolved_host_is_public : Text → Bool
  resolved_host_is_public hostname =
      let host = clean_host hostname in
      if is_empty host || is_localhost host
      then false
      else if net.is_ip host == 4
      then not (is_private_ipv4 host)
      else if net.is_ip host == 6
      then not (is_private_ipv6 host)
      else answer_public (net.dns host)

  abbrev pub answer_pinned : Option (List (Text × ℕ)) → Option (Text × ℕ)
  answer_pinned none = none
  answer_pinned (some []) = none
  answer_pinned (some (a ∷ rest)) = if all_public (a ∷ rest) then some a else none

  unfoldable pub resolve_pinned_ip : Text → Option (Text × ℕ)
  resolve_pinned_ip hostname =
      let host = clean_host hostname in
      if is_empty host || is_localhost host
      then none
      else if net.is_ip host == 0
      then answer_pinned (net.dns host)
      else if is_private_address (host, net.is_ip host)
      then none
      else some (host, net.is_ip host)
