-- ===== src/Chain/Nonces/Sequence.antt =====
-- packages/chain/src/live-0g.ts: the nonces that sendTx gives to one address, in order.
use g_gate.Prelude.{
  ℕ, ◌+◌, ◌≤◌, ◌<◌, ◌≡◌, refl, sym, subst, true, Option, none, some, List, [], ◌∷◌, arith,
  if◌then◌else◌,
}
use g_gate.Prelude.Maps.{Map, lookup, lookup-insert}
use g_gate.Prelude.Text.{Text, to_lower, text_eq, text_beq, text_beq_iff}
use g_gate.Shared.Errors.{Result, ok, err, >>=-eq-ok}
use g_gate.Chain.Nonces.{
  NonceFloor, accepted, reverted, failed, Send, nonce_floor_ttl_ms, choose_nonce, send_with,
  nonce_of, send_tx,
}

-- The nonce with which the node accepted this send, if `key` is its address.
abbrev pub accepted_nonce : Text → Send → Map Text NonceFloor → Option ℕ
accepted_nonce key s floors = elim (nonce_of s floors) [
  | err e ↦ none
  | ok nonce ↦ elim (s.write nonce) [
    | reverted name ↦ none
    | failed e ↦ none
    | accepted hash ↦ if text_beq (to_lower s.address) key then some nonce else none
  ]
]

abbrev pub prepend : Option ℕ → List ℕ → List ℕ
prepend none ns = ns
prepend (some n) ns = n ∷ ns

-- The nonces with which the node accepted the sends of one address, in order.
abbrev pub accepted_nonces : Text → List Send → Map Text NonceFloor → List ℕ
accepted_nonces key [] floors = []
accepted_nonces key (s ∷ ss) floors =
    prepend (accepted_nonce key s floors) (accepted_nonces key ss (send_tx s floors).1)

-- The numbers from `first` on, each once.
abbrev pub IsConsecutive : ℕ → List ℕ → Type 0
IsConsecutive first [] = Unit
IsConsecutive first (n ∷ ns) = (n ≡ first) × IsConsecutive (first + 1) ns

abbrev counted : Option ℕ → ℕ → ℕ
counted none count = count
counted (some n) count = count + 1

-- The floor of an address after a send with a given nonce.
send_with-floor :
    (key : Text) (s : Send) (n : ℕ) (floors : Map Text NonceFloor)
    → lookup key (send_with s n floors).1 ≡ elim (s.write n) [
      | reverted name ↦ lookup key floors
      | failed e ↦ lookup key floors
      | accepted hash ↦
          if text_beq (to_lower s.address) key
          then some (record { nonce = n + 1; at = s.accepted_at })
          else lookup key floors
    ]
unfolding send_with
send_with-floor key s n floors = ground (
  arith,
  lookup-insert key (to_lower s.address) (record { nonce = n + 1; at = s.accepted_at }) floors,
)

module _ (key : Text) (first start : ℕ) where
  -- When the address had sent `first` transactions at the start and `count` by now: a node that
  -- answers some count between the two, a clock that does not go back before `start`, and a send
  -- before the floors of this run grow old.
  pub record IsLagging (count : ℕ) (s : Send) : Type 0 where
    pub behind : (p : ℕ) → s.pending ≡ ok p → (first ≤ p) × (p ≤ count)
    pub later : start ≤ s.accepted_at
    pub fresh : s.chosen_at < start + nonce_floor_ttl_ms

  -- The same for every send of the address in a run, with the count that each one meets.
  abbrev pub AllLagging : ℕ → List Send → Map Text NonceFloor → Type 0
  AllLagging count [] floors = Unit
  AllLagging count (s ∷ ss) floors =
      ((to_lower s.address ≡ key) → IsLagging count s)
      × AllLagging (counted (accepted_nonce key s floors) count) ss (send_tx s floors).1

  -- What the floor of the address knows of the count.
  abbrev FloorAt : ℕ → Option NonceFloor → Type 0
  FloorAt count none = first ≡ count
  FloorAt count (some floor) = (floor.nonce ≡ count) × (start ≤ floor.at)

  choose_nonce-count :
      (count now p : ℕ) (floor : Option NonceFloor)
      → FloorAt count floor
      → first ≤ p
      → p ≤ count
      → now < start + nonce_floor_ttl_ms
      → choose_nonce now p floor ≡ count
  unfolding choose_nonce
  choose_nonce-count count now p none f l u t = omega arith
  choose_nonce-count count now p (some floor) f l u t = ground arith

  nonce_of-count :
      (count n : ℕ) (s : Send) (floors : Map Text NonceFloor)
      → FloorAt count (lookup (to_lower s.address) floors)
      → IsLagging count s
      → nonce_of s floors ≡ ok n
      → n ≡ count
  unfolding nonce_of
  nonce_of-count count n s floors f lag h =
      let (p, e, g) = >>=-eq-ok s.pending _ h in
      ground (
        arith,
        g,
        choose_nonce-count count s.chosen_at p (lookup (to_lower s.address) floors) f,
        lag.behind p e,
        lag.fresh,
      )

  own_count :
      (count n : ℕ) (s : Send) (floors : Map Text NonceFloor)
      → FloorAt count (lookup key floors)
      → ((to_lower s.address ≡ key) → IsLagging count s)
      → nonce_of s floors ≡ ok n
      → text_beq (to_lower s.address) key ≡ true
      → (n ≡ count) × (start ≤ s.accepted_at)
  own_count count n s floors f lag h y =
      let same = (text_beq_iff (to_lower s.address) key).0 y in
      let lagging = lag same in
      (
        nonce_of-count count n s floors (subst (λ k. FloorAt count (lookup k floors)) (sym same) f)
            lagging h,
        lagging.later,
      )

  -- What one send leaves: the floor knows the count, and an accepted nonce was the count.
  step_count :
      (count : ℕ) (s : Send) (floors : Map Text NonceFloor)
      → FloorAt count (lookup key floors)
      → ((to_lower s.address ≡ key) → IsLagging count s)
      → ((n : ℕ) → accepted_nonce key s floors ≡ some n → n ≡ count)
        × FloorAt (counted (accepted_nonce key s floors) count) (lookup key (send_tx s floors).1)
  unfolding send_tx
  step_count count s floors f lag = go (nonce_of s floors) refl
    where
      go :
          (r : Result ℕ)
          → nonce_of s floors ≡ r
          → ((n : ℕ) → accepted_nonce key s floors ≡ some n → n ≡ count)
            × FloorAt
                (counted (accepted_nonce key s floors) count)
                (lookup key (send_tx s floors).1)
      go (err e) h = rw (h, accepted_nonce, send_tx) (ground (arith, f))
      go (ok n) h =
          rw (h, accepted_nonce, send_tx)
            (ground (arith, f, send_with-floor key s n floors, own_count count n s floors f lag h))

  prepended :
      (count : ℕ) (a : Option ℕ) (ns : List ℕ)
      → ((n : ℕ) → a ≡ some n → n ≡ count)
      → IsConsecutive (counted a count) ns
      → IsConsecutive count (prepend a ns)
  prepended count none ns now rest = rest
  prepended count (some n) ns now rest = (now n refl, rest)

  run-IsConsecutive :
      (count : ℕ) (ss : List Send) (floors : Map Text NonceFloor)
      → FloorAt count (lookup key floors)
      → AllLagging count ss floors
      → IsConsecutive count (accepted_nonces key ss floors)
  run-IsConsecutive count [] floors f h = tt
  run-IsConsecutive count (s ∷ ss) floors f (lag, h) =
      let (now, after) = step_count count s floors f lag in
      prepended count (accepted_nonce key s floors) _ now (
        run-IsConsecutive (counted (accepted_nonce key s floors) count) ss (send_tx s floors).1
          after h)

  -- When an address had sent `first` transactions before a run that starts with no floor for it,
  -- its nonces in the run's accepted transactions are `first`, `first + 1` and so on, with none
  -- left out and none given twice, in spite of sends that fail and of other addresses' sends. For
  -- every send of the address the node may lag, answering any count from `first` to the number
  -- accepted so far, as long as the send comes before floors of the run's start grow old.
  pub send_tx-IsConsecutive :
      (ss : List Send) (floors : Map Text NonceFloor)
      → lookup key floors ≡ none
      → AllLagging first ss floors
      → IsConsecutive first (accepted_nonces key ss floors)
  send_tx-IsConsecutive ss floors absent h = run-IsConsecutive first ss floors (rw absent refl) h
