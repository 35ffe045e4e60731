-- ===== src/Chain/Writes/Settlement.antt =====
-- packages/chain/src/live-0g.ts: what a payment that `transfer` reports has done.
use g_gate.Prelude.{
  ℕ, ◌≡◌, ◌<◌, ◌⊎◌, inl, inr, refl, ap, sym, subst, ◌∙◌, Bool, true, false, none, some, arith,
  Among, Among-find_first, Option-cases, find_first, if◌then◌else◌,
}
use g_gate.Prelude.Text.{Text}
use g_gate.Shared.Errors.{Result, ok, err, Code, require, require-eq-ok}
use g_gate.Chain.Live.{PaidLog, emitted_by, router_address}
use g_gate.Chain.Receipt.{returned}
use g_gate.Prelude.Maps.{Map}
use g_gate.Chain.Nonces.{NonceFloor, Submission, accepted, nonce_of}
use g_gate.Chain.Identity.{ChainConfig, check_chain_identity}
use g_gate.Chain.Session.{
  AnySigner, Call, MinedReceipt, Node, ChainState, lift, wallet_for, assert_chain_identity,
  remember_identity, sending, submit, hash_of, settled,
}
use g_gate.Chain.Session.Sent.{
  >>=-eq-done, lift-eq-done, send_tx-accepted, sending-accepted, hash_of-eq-ok, settled-eq-done,
  submit-sent, ok_injective,
}
use g_gate.Chain.Requests.{TransferInput, pay_request}
use g_gate.Chain.Writes.{transfer, has_paid_log}

-- A call that the node accepted from an account under the nonce of its queue, and the receipt
-- that the wait got.
pub record IsMined (node : Node) (floors : Map Text NonceFloor) (account : Text)
    (request : Result Call) (hash : Text) : Type 0 where
  pub call : Call
  pub requested : request ≡ ok call
  pub nonce : ℕ
  pub numbered : nonce_of (sending node account request) floors ≡ ok nonce
  pub sent : node.submit call nonce ≡ accepted hash

-- The account is the signer's; the node was found to be on the configured chain with code at the
-- contracts' addresses; the call is that of the input to the configured router; and one of the
-- attempts got the receipt of the transaction, which succeeded and holds a `Paid` event of this
-- router.
pub record IsPaid (cfg : ChainConfig) (node : Node) (attempts : ℕ) (input : TransferInput)
    (signer : AnySigner) (st : ChainState) (hash : Text) : Type 0 where
  pub account : Text
  pub router : Text
  pub receipt : MinedReceipt
  pub event : PaidLog
  pub signed : wallet_for node signer ≡ ok account
  pub identified : (st.identity_checked ≡ true) ⊎ (check_chain_identity cfg node.probe ≡ ok tt)
  pub routed : router_address cfg.router ≡ ok router
  pub mined : IsMined node st.nonce_floor account (pay_request router input) hash
  pub served : (k : ℕ) × (k < attempts) × (node.attempt hash k ≡ returned receipt)
  pub succeeded : receipt.receipt.success ≡ true
  pub logged : Among event receipt.receipt.paid_logs
  pub by_router : emitted_by router event ≡ true

pub submit-IsMined :
    (node : Node) (account : Text) (request : Result Call) (st : ChainState) {now : ChainState}
    {sent : Submission} {hash : Text}
    → submit node account request st ≡ (some (ok sent), now)
    → hash_of sent ≡ ok hash
    → IsMined node st.nonce_floor account request hash
unfolding submit
submit-IsMined node account request st h g =
    let (n, numbered, written) =
      send_tx-accepted (sending node account request) st.nonce_floor
        (submit-sent node account request st h ∙ hash_of-eq-ok _ g) in
    let (call, requested, sent) = sending-accepted node account request written in
    record { call = call; requested = requested; nonce = n; numbered = numbered; sent = sent }

remember_identity-done :
    (checked : Result (Unit {0})) (st now : ChainState)
    → remember_identity checked st ≡ (some (ok tt), now)
    → (checked ≡ ok tt) × (now.nonce_floor ≡ st.nonce_floor)
unfolding remember_identity
remember_identity-done (err e) st now h = cc
remember_identity-done (ok done) st now h = (refl, sym (ap (λ p. p.1.nonce_floor) h))

assert_chain_identity-done :
    (cfg : ChainConfig) (node : Node) (st now : ChainState)
    → assert_chain_identity cfg node st ≡ (some (ok tt), now)
    → ((st.identity_checked ≡ true) ⊎ (check_chain_identity cfg node.probe ≡ ok tt))
      × (now.nonce_floor ≡ st.nonce_floor)
unfolding assert_chain_identity
assert_chain_identity-done cfg node st now h = go st.identity_checked refl h
  where
    go :
        (b : Bool)
        → st.identity_checked ≡ b
        → (if b
            then (some (ok tt), st)
            else remember_identity (check_chain_identity cfg node.probe) st)
          ≡ (some (ok tt), now)
        → ((st.identity_checked ≡ true) ⊎ (check_chain_identity cfg node.probe ≡ ok tt))
          × (now.nonce_floor ≡ st.nonce_floor)
    go true e g = (inl e, sym (ap (λ p. p.1.nonce_floor) g))
    go false e g =
        let (found, kept) = remember_identity-done (check_chain_identity cfg node.probe) st now g in
        (inr found, kept)

has_paid_log-event :
    (router : Text) (r : MinedReceipt)
    → has_paid_log router r ≡ true
    → (event : PaidLog) × (Among event r.receipt.paid_logs) × (emitted_by router event ≡ true)
has_paid_log-event router r h =
    elim (Option-cases (find_first (emitted_by router) r.receipt.paid_logs)) [
      | inl absent ↦ absurd (ground (arith, h, absent))
      | inr (event, e) ↦
          let (logged, by_router) =
            Among-find_first (emitted_by router) event r.receipt.paid_logs e in
          (event, logged, by_router)
    ]

-- The receipt of a wait with no exemption is that of a success.
pub settled-success :
    (cfg : ChainConfig) (node : Node) (attempts : ℕ) (hash : Text) {r : MinedReceipt}
    (st now : ChainState)
    → settled cfg node attempts hash none st ≡ (some (ok r), now)
    → ((k : ℕ) × (k < attempts) × (node.attempt hash k ≡ returned r)) × (r.receipt.success ≡ true)
settled-success cfg node attempts hash st now h =
    let (same, served, reason) = settled-eq-done cfg node attempts hash none h in
    (served, elim reason [ inl good ↦ good | inr exempt ↦ cc ])

-- A transfer that returns a hash has paid.
pub transfer-IsPaid :
    (cfg : ChainConfig) (node : Node) (attempts : ℕ) (input : TransferInput) (signer : AnySigner)
    (st st' : ChainState) (hash : Text)
    → transfer cfg node attempts input signer st ≡ (some (ok hash), st')
    → IsPaid cfg node attempts input signer st hash
unfolding transfer
transfer-IsPaid cfg node attempts input signer st st' hash h0 =
    let (account, s1, e1, h1) = >>=-eq-done (lift (wallet_for node signer)) _ h0 in
    let (done, s2, e2, h2) = >>=-eq-done (assert_chain_identity cfg node) _ h1 in
    let (router, s3, e3, h3) = >>=-eq-done (lift (router_address cfg.router)) _ h2 in
    let (sent, s4, e4, h4) = >>=-eq-done (submit node account (pay_request router input)) _ h3 in
    let (hash', s5, e5, h5) = >>=-eq-done (lift (hash_of sent)) _ h4 in
    let (receipt, s6, e6, h6) = >>=-eq-done (settled cfg node attempts hash' none) _ h5 in
    let (done', s7, e7, h7) =
      >>=-eq-done (lift (require (has_paid_log router receipt) Code.payment_not_settled 502)) _
        h6 in
    let (event, logged, by_router) =
      has_paid_log-event router receipt
        (require-eq-ok _ Code.payment_not_settled 502 (lift-eq-done _ e7).0) in
    let start = (lift-eq-done (wallet_for node signer) e1).1 in
    let (identified, kept) = assert_chain_identity-done cfg node s1 s2 e2 in
    let floors : s3.nonce_floor ≡ st.nonce_floor =
      ap (λ s. s.nonce_floor) (sym (lift-eq-done (router_address cfg.router) e3).1)
      ∙ kept
      ∙ ap (λ s. s.nonce_floor) (sym start) in
    let same : hash' ≡ hash = ok_injective (lift-eq-done (ok hash') h7).0 in
    let (served, succeeded) = settled-success cfg node attempts hash' s5 s6 e6 in
    record {
      account = account;
      router = router;
      receipt = receipt;
      event = event;
      signed = (lift-eq-done (wallet_for node signer) e1).0;
      identified =
          subst (λ s. (s.identity_checked ≡ true) ⊎ (check_chain_identity cfg node.probe ≡ ok tt))
            (sym start) identified;
      routed = (lift-eq-done (router_address cfg.router) e3).0;
      mined =
          subst (λ f. IsMined node f account (pay_request router input) hash) floors
            (submit-IsMined node account (pay_request router input) s3 e4
              ((lift-eq-done (hash_of sent) e5).0 ∙ ap ok same));
      served =
          subst (λ t. (k : ℕ) × (k < attempts) × (node.attempt t k ≡ returned receipt)) same served;
      succeeded = succeeded;
      logged = logged;
      by_router = by_router;
    }
