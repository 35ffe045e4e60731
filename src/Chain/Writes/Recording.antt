-- ===== src/Chain/Writes/Recording.antt =====
-- packages/chain/src/live-0g.ts: what recordAttestation reports as done.
use g_gate.Prelude.{
  ℕ, ◌≡◌, ◌<◌, ◌⊎◌, inl, inr, ap, sym, subst, ◌∙◌, Bool, true, some, [], arith, Bool-cases,
  if◌then◌else◌,
}
use g_gate.Prelude.Text.{Text, codes, text_beq, text_beq_iff}
use g_gate.Prelude.Decimal.{big_int}
use g_gate.Shared.Errors.{Result, ok, Code, fail}
use g_gate.Chain.Address.{normalize_address}
use g_gate.Chain.Live.{require_service_id}
use g_gate.Chain.Receipt.{returned}
use g_gate.Chain.Nonces.{Submission, accepted, reverted, failed, send_tx}
use g_gate.Chain.Identity.{ChainConfig}
use g_gate.Chain.Session.{
  AnySigner, MinedReceipt, Node, ChainState, lift, wallet_for, sending, submit, settled,
}
use g_gate.Chain.Session.Sent.{
  >>=-eq-done, lift-eq-done, settled-eq-done, submit-sent, ok_injective, some_injective,
}
use g_gate.Chain.Requests.{AttestInput, attest_request, is_attested}
use g_gate.Chain.Writes.{record_attestation, finish_attestation}

-- How a finished attestation came to stand on the chain: the registry refused it, before any
-- transaction, as one that it has; or a transaction of it succeeded; or that transaction failed
-- and the registry then said that it has the attestation.
pub data IsRecorded (cfg : ChainConfig) (node : Node) (attempts : ℕ) (satisfied : Result Bool)
    : Submission → Text → Type 0 where
  had_it : IsRecorded cfg node attempts satisfied (reverted (codes "DuplicateAttestation")) []
  mined :
      {hash : Text} (receipt : MinedReceipt) (k : ℕ)
      → k < attempts
      → node.attempt hash k ≡ returned receipt
      → (receipt.receipt.success ≡ true) ⊎ (satisfied ≡ ok true)
      → IsRecorded cfg node attempts satisfied (accepted hash) hash

duplicate_hash :
    (name hash : Text)
    → (if text_beq name (codes "DuplicateAttestation") then ok [] else fail Code.chain_failure 500)
      ≡ ok hash
    → (name ≡ codes "DuplicateAttestation") × (hash ≡ [])
duplicate_hash name hash h = elim (Bool-cases (text_beq name (codes "DuplicateAttestation"))) [
  | inl y ↦ ((text_beq_iff name (codes "DuplicateAttestation")).0 y, ground (arith, h, y))
  | inr n ↦ absurd (ground (arith, h, n))
]

finish_attestation-IsRecorded :
    (cfg : ChainConfig) (node : Node) (attempts : ℕ) (satisfied : Result Bool) (sent : Submission)
    (st st' : ChainState) (hash : Text)
    → finish_attestation cfg node attempts satisfied sent st ≡ (some (ok hash), st')
    → IsRecorded cfg node attempts satisfied sent hash
unfolding finish_attestation
finish_attestation-IsRecorded cfg node attempts satisfied (failed e) st st' hash h = cc
finish_attestation-IsRecorded cfg node attempts satisfied (reverted name) st st' hash h =
    let (named, empty) = duplicate_hash name hash (lift-eq-done _ h).0 in
    subst (λ n. IsRecorded cfg node attempts satisfied (reverted n) hash) (sym named)
      (subst (IsRecorded cfg node attempts satisfied (reverted (codes "DuplicateAttestation")))
        (sym empty) had_it)
finish_attestation-IsRecorded cfg node attempts satisfied (accepted sent) st st' hash h =
    let (receipt, s1, e1, h1) = >>=-eq-done (settled cfg node attempts sent (some satisfied)) _ h in
    let (same, served, reason) = settled-eq-done cfg node attempts sent (some satisfied) e1 in
    let (k, b, got) = served in
    subst (IsRecorded cfg node attempts satisfied (accepted sent))
      (ok_injective (lift-eq-done (ok sent) h1).0)
      (mined receipt k b got
        (elim reason [ inl good ↦ inl good | inr kept ↦ inr (some_injective kept) ]))

-- The call's parts, with what became of it.
pub record IsAttested (cfg : ChainConfig) (node : Node) (attempts : ℕ) (input : AttestInput)
    (signer : AnySigner) (st : ChainState) (hash : Text) : Type 0 where
  pub id : ℕ
  pub payer : Text
  pub account : Text
  pub identified : require_service_id input.service_id ≡ ok id
  pub normal : normalize_address input.payer ≡ ok payer
  pub signed : wallet_for node signer ≡ ok account
  pub recorded :
      IsRecorded cfg node attempts
        (is_attested cfg node id (big_int input.nonce) payer)
        (send_tx (sending node account (attest_request cfg id payer input)) st.nonce_floor).0
        hash

-- An attestation that `recordAttestation` reports as done stands on the chain: the registry
-- reverted the call as a duplicate (and then the hash is empty), or the transaction that the node
-- accepted was mined within the attempts, and either succeeded or failed with the registry saying
-- that it has the attestation. Any other failure is no success, so the caller keeps its entry.
pub record_attestation-IsAttested :
    (cfg : ChainConfig) (node : Node) (attempts : ℕ) (input : AttestInput) (signer : AnySigner)
    (st st' : ChainState) (hash : Text)
    → record_attestation cfg node attempts input signer st ≡ (some (ok hash), st')
    → IsAttested cfg node attempts input signer st hash
unfolding record_attestation
record_attestation-IsAttested cfg node attempts input signer st st' hash h0 =
    let (id, s1, e1, h1) = >>=-eq-done (lift (require_service_id input.service_id)) _ h0 in
    let (payer, s2, e2, h2) = >>=-eq-done (lift (normalize_address input.payer)) _ h1 in
    let (account, s3, e3, h3) = >>=-eq-done (lift (wallet_for node signer)) _ h2 in
    let (sent, s4, e4, h4) =
      >>=-eq-done (submit node account (attest_request cfg id payer input)) _ h3 in
    let start : s3 ≡ st =
      sym (lift-eq-done _ e3).1 ∙ sym (lift-eq-done _ e2).1 ∙ sym (lift-eq-done _ e1).1 in
    record {
      id = id;
      payer = payer;
      account = account;
      identified = (lift-eq-done _ e1).0;
      normal = (lift-eq-done _ e2).0;
      signed = (lift-eq-done _ e3).0;
      recorded =
          subst
            (λ t.
              IsRecorded cfg node attempts (is_attested cfg node id (big_int input.nonce) payer) t
                hash)
            (sym (submit-sent node account (attest_request cfg id payer input) s3 e4)
              ∙ ap
                  (λ s.
                    (send_tx (sending node account (attest_request cfg id payer input))
                      s.nonce_floor).0)
                  start)
            (finish_attestation-IsRecorded cfg node attempts _ sent s4 st' hash h4);
    }
