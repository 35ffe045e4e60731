-- ===== src/BuyerAgent.antt =====
-- packages/buyer-agent/src/index.ts: runBuyerAgent. The language model, the chain's reads, the
-- seller's server and the clock are parameters; the printed blocks (but for what they throw) and the
-- decision log are left out. An outcome also lists the transfers that were asked of the chain; `none` is a wait for the
-- attestation that was cut off before its end.
pub mod Budget
use g_gate.Prelude.{
  ℕ, zero, suc, ◌+◌, Bool, true, false, not, ◌&&◌, Option, none, some, List, [], ◌∷◌, leb, ltb,
  ◌==◌, if◌then◌else◌, find_first, every,
}
use g_gate.Prelude.Text.{Text, codes, trim, is_empty, text_beq}
use g_gate.Prelude.Decimal.{is_digits}
use g_gate.Shared.Errors.{AgentGateError, Result, ok, err, fail, Code, ◌>>=◌, ◌>>◌, require}
use g_gate.Shared.Json.{Json}
use g_gate.Shared.Money.{
  Wei, og_to_wei, add_wei, compare_wei, parse_wei, Sign, less, equal, greater,
}
use g_gate.Shared.Trust.{TrustTier, trust_tier}
use g_gate.Shared.Types.{ServiceRecord, ServiceScore, AttestationRecord}
use g_gate.Client.Invoice.{ClientOptions}
use g_gate.Client.Fetch.{PayAndFetchResult, Server, TransferInput, Outcome, fetch_paid}

pub record CatalogEntry : Type 0 where
  pub service : ServiceRecord
  pub score : ServiceScore
  pub tier : TrustTier

pub record Choice : Type 0 where
  pub service_id : ℕ
  pub reason : Text

-- The options that decide, with those of the client that the agent makes.
pub record RunBuyerAgentOpts : Type 0 where
  pub task : Text
  pub budget_og : Text
  pub client : ClientOptions
  pub attestation_timeout_ms : ℕ
  pub polls : ℕ

pub record World : Type 0 where
  pub list_services : Result (List ServiceRecord)
  pub get_score : ℕ → Result ServiceScore
  pub choose_service : Text → List CatalogEntry → Result Choice
  pub summarize : Text → Json → Result Text
  pub server : Server
  pub list_attestations : ℕ → ℕ → Result (List AttestationRecord)
  pub clock : ℕ → ℕ

-- What the source writes into `summary`.
pub data Summary : Type 0 where
  over_budget price_exceeded : Summary
  no_data : ℕ → Summary
  summarized : Text → Summary

pub record BuyerRunReport : Type 0 where
  pub chosen_service_id : ℕ
  pub reason : Text
  pub paid : Bool
  pub tx_hash : Option Text
  pub attestation_tx_hash : Option Text
  pub summary : Summary
  pub spent_wei : Wei

pub record AgentOutcome : Type 0 where
  pub result : Option (Result BuyerRunReport)
  pub sent : List TransferInput

-- Step 1: the catalog.
unfoldable pub build_catalog : World → List ServiceRecord → Result (List CatalogEntry)
build_catalog w [] = ok []
build_catalog w (s ∷ ss) = do
  score ← w.get_score s.id
  rest ← build_catalog w ss
  ok (record { service = s; score = score; tier = trust_tier score } ∷ rest)

-- Step 2: the entry that the model chose, which must be listed and active.
unfoldable pub chosen_entry : Choice → List CatalogEntry → Result CatalogEntry
chosen_entry choice catalog = elim (find_first (λ e. e.service.id == choice.service_id) catalog) [
  | none ↦ fail Code.llm_bad_choice 502
  | some e ↦ if e.service.active then ok e else fail Code.llm_bad_choice 502
]

pub record Plan : Type 0 where
  pub budget_wei : Wei
  pub entry : CatalogEntry
  pub reason : Text

abbrev pub is_listed : List CatalogEntry → Bool
is_listed [] = false
is_listed (_ ∷ _) = true

-- The printed catalog formats every price, which throws on one that is no text of digits.
abbrev pub has_prices : List CatalogEntry → Bool
has_prices = every (λ e. is_digits e.service.price_wei)

unfoldable pub make_plan : RunBuyerAgentOpts → World → Result Plan
make_plan opts w = do
  require (not (is_empty (trim opts.task))) Code.bad_task 400
  budget ← og_to_wei opts.budget_og
  services ← w.list_services
  catalog ← build_catalog w services
  require (has_prices catalog) Code.invalid_amount 400
  require (is_listed catalog) Code.no_services 404
  choice ← w.choose_service (trim opts.task) catalog
  entry ← chosen_entry choice catalog
  ok (record { budget_wei = budget; entry = entry; reason = choice.reason })

-- Step 3: what was spent, nothing yet, and the price must fit the budget.
unfoldable pub check_budget : Plan → Result Sign
check_budget plan = do
  projected ← add_wei (codes "0") plan.entry.service.price_wei
  compare_wei projected plan.budget_wei

abbrev pub refused_report : Plan → Summary → BuyerRunReport
refused_report plan summary = record {
  chosen_service_id = plan.entry.service.id;
  reason = plan.reason;
  paid = false;
  tx_hash = none;
  attestation_tx_hash = none;
  summary = summary;
  spent_wei = codes "0";
}

-- Step 4: the client's options bind the price, the payout account and the service.
abbrev pub client_options : RunBuyerAgentOpts → Plan → ClientOptions
client_options opts plan = record opts.client {
  max_price_wei = some plan.entry.service.price_wei;
  expect_pay_to = some plan.entry.service.payment_target;
  expect_service_id = some plan.entry.service.id;
}

unfoldable pub spent_by : PayAndFetchResult → Result Wei
spent_by r =
    if r.paid
    then elim r.requirements [
      | none ↦ ok (codes "0")
      | some reqs ↦ add_wei (codes "0") reqs.max_amount_required
    ]
    else ok (codes "0")

-- `weiToOg` of the difference, which throws if it is below zero.
unfoldable pub check_remaining : Plan → Wei → Result (Unit {0})
check_remaining plan spent = do
  budget ← parse_wei plan.budget_wei
  used ← parse_wei spent
  require (leb used budget) Code.invalid_amount 400

-- Step 5.
unfoldable pub summary_of : RunBuyerAgentOpts → World → PayAndFetchResult → Result Summary
summary_of opts w r =
    if leb 200 r.status && ltb r.status 300
    then (do text ← w.summarize (trim opts.task) r.body; ok (summarized text))
    else ok (no_data r.status)

-- Step 6: the loop that waits for the attestation, from its poll `n`.
unfoldable pub poll_from : ℕ → World → ℕ → Text → ℕ → ℕ → Option (Result (Option Text))
poll_from zero w id tx deadline n = none
poll_from (suc polls) w id tx deadline n =
    let rest = poll_from polls w id tx deadline (suc n) in
    elim (w.list_attestations n id) [
      | err e ↦ some (err e)
      | ok records ↦ elim (find_first (λ a. text_beq a.payment_tx_hash tx) records) [
        | some found ↦ some (ok (some found.record_tx_hash))
        | none ↦ if leb deadline (w.clock (suc n)) then some (ok none) else rest
      ]
    ]

unfoldable pub await_attestation :
    RunBuyerAgentOpts → World → Plan → Option Text → Option (Result (Option Text))
await_attestation opts w plan none = some (ok none)
await_attestation opts w plan (some tx) =
    poll_from opts.polls w plan.entry.service.id tx (w.clock 0 + opts.attestation_timeout_ms) 0

abbrev pub report :
    Plan → PayAndFetchResult → Wei → Summary → Result (Option Text) → Result BuyerRunReport
report plan r spent summary (err e) = err e
report plan r spent summary (ok attestation) = ok (record {
  chosen_service_id = plan.entry.service.id;
  reason = plan.reason;
  paid = r.paid;
  tx_hash = r.tx_hash;
  attestation_tx_hash = attestation;
  summary = summary;
  spent_wei = spent;
})

-- What was spent, and the summary.
unfoldable pub account :
    RunBuyerAgentOpts → World → Plan → PayAndFetchResult → Result (Wei × Summary)
account opts w plan r = do
  spent ← spent_by r
  check_remaining plan spent
  summary ← summary_of opts w r
  ok (spent, summary)

unfoldable pub conclude :
    Plan
    → PayAndFetchResult
    → Wei × Summary
    → Option (Result (Option Text))
    → Option (Result BuyerRunReport)
conclude plan r accounted none = none
conclude plan r (spent, summary) (some attestation) = some (report plan r spent summary attestation)

-- The rest of the run after a purchase.
unfoldable pub finish :
    RunBuyerAgentOpts → World → Plan → PayAndFetchResult → Option (Result BuyerRunReport)
finish opts w plan r = elim (account opts w plan r) [
  | err e ↦ some (err e)
  | ok accounted ↦ conclude plan r accounted (await_attestation opts w plan r.tx_hash)
]

unfoldable pub after_fetch :
    RunBuyerAgentOpts → World → Plan → Result PayAndFetchResult → Option (Result BuyerRunReport)
after_fetch opts w plan (ok r) = finish opts w plan r
after_fetch opts w plan (err e) = elim e.code [
  | Code.price_exceeded ↦ some (ok (refused_report plan price_exceeded))
  | _ ↦ some (err e)
]

abbrev pub halted : Result BuyerRunReport → AgentOutcome
halted r = record { result = some r; sent = [] }

unfoldable pub buy : RunBuyerAgentOpts → World → Plan → AgentOutcome
buy opts w plan =
    let o = fetch_paid (client_options opts plan) w.server plan.entry.service.endpoint_url in
    record { result = after_fetch opts w plan o.result; sent = o.sent }

unfoldable pub spend : RunBuyerAgentOpts → World → Plan → Result Sign → AgentOutcome
spend opts w plan (err e) = halted (err e)
spend opts w plan (ok greater) = halted (ok (refused_report plan over_budget))
spend opts w plan (ok less) = buy opts w plan
spend opts w plan (ok equal) = buy opts w plan

unfoldable pub run_buyer_agent : RunBuyerAgentOpts → World → AgentOutcome
run_buyer_agent opts w = elim (make_plan opts w) [
  | err e ↦ halted (err e)
  | ok plan ↦ spend opts w plan (check_budget plan)
]
