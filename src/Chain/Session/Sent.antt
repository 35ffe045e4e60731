-- ===== src/Chain/Session/Sent.antt =====
-- packages/chain/src/live-0g.ts: the parts of a method that succeeded, of a call that the node
-- accepted, and of a wait that got its receipt.
use g_gate.Prelude.{ℕ, ◌≡◌, ◌<◌, ◌⊎◌, refl, ap, Bool, true, Option, none, some, arith}
use g_gate.Prelude.Maps.{Map}
use g_gate.Prelude.Text.{Text}
use g_gate.Shared.Errors.{Result, ok, err}
use g_gate.Chain.Receipt.{Attempt, returned, thrown, await_receipt}
use g_gate.Chain.Receipt.Deadline.{await_receipt_iff}
use g_gate.Chain.Nonces.{
  NonceFloor, Submission, accepted, reverted, failed, Send, send_tx, send_with, nonce_of,
}
use g_gate.Chain.Identity.{ChainConfig}
use g_gate.Chain.Session.{
  Action, ◌>>=◌, proceed, lift, ChainState, Node, Call, MinedReceipt, sending, submit, hash_of,
  conclude, concluded, settled,
}

pub >>=-eq-done {ℓ κ} :
    {A : Type ℓ} {B : Type κ} (act : Action A) (next : A → Action B) {b : B} {st st' : ChainState}
    → (act >>= next) st ≡ (some (ok b), st')
    → (a : A) × (now : ChainState) × (act st ≡ (some (ok a), now))
      × (next a now ≡ (some (ok b), st'))
unfolding ◌>>=◌
>>=-eq-done {A = A} {B = B} act next {b} {st} {st'} passed = go (act st) refl passed
  where
    go :
        (r : Option (Result A) × ChainState)
        → act st ≡ r
        → proceed next r ≡ (some (ok b), st')
        → (a : A) × (now : ChainState) × (act st ≡ (some (ok a), now))
          × (next a now ≡ (some (ok b), st'))
    go (none, now) e h = cc
    go (some (err x), now) e h = cc
    go (some (ok a), now) e h = (a, now, e, h)

pub ok_injective {ℓ} : {A : Type ℓ} {a b : A} → ok a ≡ ok b → a ≡ b
ok_injective h = cc

pub some_injective {ℓ} : {A : Type ℓ} {a b : A} → some a ≡ some b → a ≡ b
some_injective h = cc

pub lift-eq-done {ℓ} :
    {A : Type ℓ} (r : Result A) {a : A} {st now : ChainState}
    → lift r st ≡ (some (ok a), now)
    → (r ≡ ok a) × (st ≡ now)
lift-eq-done r h = (cc, cc)

-- A hash comes from the node's accepting the transaction under the nonce that it was given.
pub send_tx-accepted :
    (s : Send) (floors : Map Text NonceFloor) {hash : Text}
    → (send_tx s floors).0 ≡ accepted hash
    → (n : ℕ) × (nonce_of s floors ≡ ok n) × (s.write n ≡ accepted hash)
unfolding send_tx send_with
send_tx-accepted s floors {hash} h = go (nonce_of s floors) refl
  where
    go :
        (r : Result ℕ)
        → nonce_of s floors ≡ r
        → (n : ℕ) × (nonce_of s floors ≡ ok n) × (s.write n ≡ accepted hash)
    go (err x) e = absurd (ground (arith, e, h))
    go (ok n) e = (n, e, ground (arith, e, h))

-- What the caller of a send gets is what became of it.
pub submit-sent :
    (node : Node) (account : Text) (request : Result Call) (st : ChainState) {now : ChainState}
    {sent : Submission}
    → submit node account request st ≡ (some (ok sent), now)
    → (send_tx (sending node account request) st.nonce_floor).0 ≡ sent
unfolding submit
submit-sent node account request st h = ok_injective (some_injective (ap (λ p. p.0) h))

pub sending-accepted :
    (node : Node) (account : Text) (call : Result Call) {n : ℕ} {hash : Text}
    → (sending node account call).write n ≡ accepted hash
    → (c : Call) × (call ≡ ok c) × (node.submit c n ≡ accepted hash)
sending-accepted node account (err e) h = cc
sending-accepted node account (ok c) h = (c, refl, h)

pub hash_of-eq-ok :
    (sent : Submission) {hash : Text} → hash_of sent ≡ ok hash → sent ≡ accepted hash
unfolding hash_of
hash_of-eq-ok (accepted hash) h = cc
hash_of-eq-ok (reverted name) h = cc
hash_of-eq-ok (failed e) h = cc

conclude-eq-ok :
    (satisfied : Option (Result Bool)) (ended : Attempt MinedReceipt) {r : MinedReceipt}
    → conclude satisfied ended ≡ ok r
    → (ended ≡ returned r) × ((r.receipt.success ≡ true) ⊎ (satisfied ≡ some (ok true)))
unfolding conclude
conclude-eq-ok satisfied (thrown e) h = ground (arith, h)
conclude-eq-ok satisfied (returned r') h = ground (arith, h)

concluded-eq-ok :
    (satisfied : Option (Result Bool)) (ended : Option (Attempt MinedReceipt)) {r : MinedReceipt}
    → concluded satisfied ended ≡ some (ok r)
    → (ended ≡ some (returned r)) × ((r.receipt.success ≡ true) ⊎ (satisfied ≡ some (ok true)))
concluded-eq-ok satisfied none h = cc
concluded-eq-ok satisfied (some o) {r} h =
    let (e, reason) = conclude-eq-ok satisfied o {r = r} cc in (ap some e, reason)

-- A wait that ended well got the receipt at one of its attempts.
pub settled-eq-done :
    (cfg : ChainConfig) (node : Node) (attempts : ℕ) (hash : Text)
    (satisfied : Option (Result Bool)) {r : MinedReceipt} {st now : ChainState}
    → settled cfg node attempts hash satisfied st ≡ (some (ok r), now)
    → (st ≡ now)
      × ((k : ℕ) × (k < attempts) × (node.attempt hash k ≡ returned r))
      × ((r.receipt.success ≡ true) ⊎ (satisfied ≡ some (ok true)))
unfolding settled
settled-eq-done cfg node attempts hash satisfied {r} {st} {now} h =
    let (got, reason) =
      concluded-eq-ok satisfied
        (await_receipt attempts (node.attempt hash) node.clock cfg.receipt_timeout_ms)
        (ap (λ p. p.0) h) in
    let (k', b, ends) =
      (await_receipt_iff (node.attempt hash) node.clock cfg.receipt_timeout_ms attempts
          (returned r)).0
        got in
    (ap (λ p. p.1) h, (k', b, ends.last), reason)
