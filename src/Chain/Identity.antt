-- ===== src/Chain/Identity.antt =====
-- packages/chain/src/deployment-shape.ts (missingSelectors) and packages/chain/src/live-0g.ts
-- (checkChainIdentity): is the node on the chain of the configuration, and do the contracts'
-- addresses hold code that dispatches what the ABI declares? The ABI is a list of viem's function
-- selectors.
use g_gate.Prelude.{
  ℕ, Bool, true, false, not, ◌||◌, Option, none, some, List, [], ◌∷◌, ◌==◌, if◌then◌else◌, keep,
  drop,
}
use g_gate.Prelude.Text.{Text, codes, to_lower, starts_with, found_in, is_empty, text_beq}
use g_gate.Shared.Errors.{Result, ok, Code, ◌>>=◌, ◌>>◌, require}
use g_gate.Chain.Address.{normalize_address}

-- `hex.replace(/^(?:00)+/, '')`.
unfoldable pub drop_zero_bytes : Text → Text
drop_zero_bytes [] = []
drop_zero_bytes (c ∷ []) = c ∷ []
drop_zero_bytes (c ∷ d ∷ s) =
    let rest = drop_zero_bytes s in
    if c == b'0' then if d == b'0' then rest else c ∷ d ∷ s else c ∷ d ∷ s

-- `code.includes(part)`.
abbrev pub includes : Text → Text → Bool
includes code part = found_in (starts_with part) code

-- `dispatches`; a selector starts with "0x".
unfoldable pub dispatches : Text → Text → Bool
dispatches code selector =
    includes code (drop 2 selector) || includes code (drop_zero_bytes (drop 2 selector))

unfoldable pub missing_selectors : List Text → Text → List Text
missing_selectors abi bytecode = keep (λ s. not (dispatches (to_lower bytecode) s)) abi

-- What the process is configured for.
pub record ChainConfig : Type 0 where
  pub chain_id : ℕ
  pub registry : Text
  pub router : Text
  pub registry_abi : List Text
  pub router_abi : List Text
  pub receipt_timeout_ms : ℕ

-- What the node says of itself: `getChainId` and `getCode`.
pub record Probe : Type 0 where
  pub chain_id : Result ℕ
  pub code_at : Text → Result (Option Text)

-- `code === undefined || code === '0x'`.
abbrev pub has_code : Option Text → Bool
has_code none = false
has_code (some code) = not (text_beq code (codes "0x"))

abbrev pub code_or_empty : Option Text → Text
code_or_empty none = []
code_or_empty (some code) = code

-- `missing.length === 0`.
abbrev pub is_empty_list : List Text → Bool
is_empty_list [] = true
is_empty_list (_ ∷ _) = false

-- One round of the loop over `wanted`; an address that is not configured is left out of it.
unfoldable pub check_contract : Probe → Text → List Text → Code → Result (Unit {0})
check_contract probe configured abi mismatch = if is_empty configured then ok tt else (do
  address ← normalize_address configured
  code ← probe.code_at address
  require (has_code code) Code.contract_not_deployed 503
  require (is_empty_list (missing_selectors abi (code_or_empty code))) mismatch 503)

unfoldable pub check_chain_identity : ChainConfig → Probe → Result (Unit {0})
check_chain_identity cfg probe = do
  observed ← probe.chain_id
  require (observed == cfg.chain_id) Code.chain_id_mismatch 503
  check_contract probe cfg.registry cfg.registry_abi Code.registry_abi_mismatch
  check_contract probe cfg.router cfg.router_abi Code.router_abi_mismatch
