-- ===== src/Tests/Agent.antt =====
-- A run of the buyer agent at a concrete input (packages/buyer-agent/src/index.ts).
use g_gate.Prelude.{◌≡◌, ◌⊎◌, ◌*◌, refl, true, none, some, [], ◌∷◌, ◌++◌, replicate}
use g_gate.Prelude.Text.{codes, text_beq, trim, trim_start}
use g_gate.Prelude.Decimal.{big_int, is_digits, value_from}
use g_gate.Shared.Errors.{ok}
use g_gate.Shared.Money.{og_to_wei, add_wei, parse_wei, compare_wei}
use g_gate.Client.Invoice.{ClientOptions}
use g_gate.Client.Fetch.{transfer_of}
use g_gate.BuyerAgent.{RunBuyerAgentOpts, World, run_buyer_agent}
use g_gate.BuyerAgent.Budget.{IsWithinBudget, run_buyer_agent-IsWithinBudget}
use g_gate.Tests.Buyer.{options, server, weather, invoice}

abbrev request : RunBuyerAgentOpts
request = record {
  task = codes "forecast";
  budget_og = codes "0.5";
  client = record options { can_sign = true };
  attestation_timeout_ms = 5000;
  polls = 20;
}

abbrev world : World
world = record {
  list_services = ok (weather ∷ []);
  get_score = λ id. ok (record { total_calls = 3; success_calls = 3 });
  choose_service = λ task catalog. ok (record { service_id = 7; reason = codes "cheap" });
  summarize = λ task body. ok (codes "sunny");
  server = server;
  list_attestations = λ n id. ok [];
  clock = λ n. n * 500;
}

run_buyer_agent-IsWithinBudget_example :
    ((run_buyer_agent request world).sent ≡ [])
    ⊎ IsWithinBudget request world (run_buyer_agent request world)
run_buyer_agent-IsWithinBudget_example = run_buyer_agent-IsWithinBudget request world

agent_pays : (run_buyer_agent request world).sent ≡ transfer_of invoice ∷ []
unfolding run_buyer_agent g_gate.BuyerAgent.make_plan g_gate.BuyerAgent.build_catalog
    g_gate.BuyerAgent.chosen_entry g_gate.BuyerAgent.spend g_gate.BuyerAgent.check_budget
    g_gate.BuyerAgent.buy og_to_wei g_gate.Shared.Money.split_point add_wei parse_wei compare_wei
    g_gate.Prelude.Decimal.decimal g_gate.Prelude.Decimal.decimal_from big_int is_digits value_from
    text_beq trim trim_start g_gate.Client.Fetch.fetch_paid g_gate.Client.Fetch.guard_url
    g_gate.Client.Fetch.after_guard g_gate.Client.Fetch.after_first g_gate.Client.Fetch.pay
    g_gate.Client.Fetch.after_transfer g_gate.Client.Fetch.after_signing
    g_gate.Client.Fetch.sign_proof g_gate.Client.Invoice.check_price
    g_gate.Client.Invoice.parse_payment_required g_gate.Client.Invoice.pick_network
    g_gate.Client.Invoice.read_requirements g_gate.Client.Invoice.vet_invoice
    g_gate.Shared.HttpUrl.validate_http_url g_gate.Shared.HttpUrl.check_url
    g_gate.Shared.Json.get_field g_gate.Shared.X402.is_scheme g_gate.Shared.X402.is_uint256
agent_pays = refl
