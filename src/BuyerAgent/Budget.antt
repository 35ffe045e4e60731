-- ===== src/BuyerAgent/Budget.antt =====
-- packages/buyer-agent/src/index.ts: what an agent may spend.
use g_gate.Prelude.{
  ℕ, ◌+◌, ◌≤◌, ◌≡◌, ◌⊎◌, refl, inl, inr, sym, subst, ap, ◌∙◌, Bool, true, false, not, some, List,
  [], ◌∷◌, arith, Among, Among-find_first, find_first, Option-cases, ◌==◌, if◌then◌else◌,
}
use g_gate.Prelude.Text.{codes, to_lower, text_beq_iff, trim, is_empty}
use g_gate.Prelude.Decimal.{big_int, value_from, decimal, is_digits, big_int-decimal}
use g_gate.Shared.Errors.{Result, ok, err, fail, Code, >>=-eq-ok, require}
use g_gate.Shared.Money.{
  Wei, add_wei, compare_wei, parse_wei, og_to_wei, Sign, less, equal, greater,
}
use g_gate.Shared.Types.{ServiceRecord}
use g_gate.Client.Invoice.{check_price, is_above}
use g_gate.Client.Fetch.{TransferInput, transfer_of}
use g_gate.Client.Payment.{fetch_paid-IsOnePayment}
use g_gate.BuyerAgent.{
  CatalogEntry, Choice, RunBuyerAgentOpts, World, AgentOutcome, Plan, build_catalog, chosen_entry,
  is_listed, has_prices, make_plan, check_budget, client_options, buy, spend, run_buyer_agent,
}

-- The only transfer of a run: it pays the registered account of a listed, active service at most
-- its registered price, which the budget covers.
pub record IsWithinBudget (opts : RunBuyerAgentOpts) (w : World) (o : AgentOutcome) : Type 0 where
  pub services : List ServiceRecord
  pub service : ServiceRecord
  pub budget_wei : Wei
  pub payment : TransferInput
  pub once : o.sent ≡ payment ∷ []
  pub read : w.list_services ≡ ok services
  pub listed : Among service services
  pub active : service.active ≡ true
  pub payee : to_lower payment.to ≡ to_lower service.payment_target
  pub priced : big_int payment.amount_wei ≤ big_int service.price_wei
  pub budget : og_to_wei opts.budget_og ≡ ok budget_wei
  pub covered : big_int service.price_wei ≤ big_int budget_wei

parse_wei-eq-ok : (a : Wei) {n : ℕ} → parse_wei a ≡ ok n → (is_digits a ≡ true) × (n ≡ big_int a)
unfolding parse_wei
parse_wei-eq-ok a h = ground (arith, h)

-- A comparison that is not above bounds the amount.
compare_wei-le :
    (a b : Wei) (s : Sign)
    → compare_wei a b ≡ ok s
    → (s ≡ greater → false ≡ true)
    → big_int a ≤ big_int b
unfolding compare_wei
compare_wei-le a b s h not_above =
    let (x, e1, h1) = >>=-eq-ok (parse_wei a) _ h in
    let (y, e2, h2) = >>=-eq-ok (parse_wei b) _ h1 in
    ground (arith, (parse_wei-eq-ok a e1).1, (parse_wei-eq-ok b e2).1, h2, not_above)

not_above :
    (s : Sign)
    → s ≡ greater
    → require (not (is_above s)) Code.price_exceeded 402 ≡ ok tt
    → false ≡ true
not_above s above h = ground (arith, above, h)

check_price-le :
    (cap amount : Wei) → check_price (some cap) amount ≡ ok tt → big_int amount ≤ big_int cap
unfolding check_price
check_price-le cap amount h =
    let (s, e1, h1) = >>=-eq-ok (compare_wei amount cap) _ h in
    compare_wei-le amount cap s e1 (λ above. not_above s above h1)

nothing_spent : big_int (codes "0") ≡ 0
unfolding big_int value_from
nothing_spent = refl

added_nothing : (w : Wei) {r : Wei} → add_wei (codes "0") w ≡ ok r → big_int r ≡ big_int w
unfolding add_wei
added_nothing w {r} h =
    let (x, e1, h1) = >>=-eq-ok (parse_wei (codes "0")) _ h in
    let (y, e2, h2) = >>=-eq-ok (parse_wei w) _ h1 in
    let zero : x ≡ 0 = (parse_wei-eq-ok (codes "0") e1).1 ∙ nothing_spent in
    let printed : decimal (x + y) ≡ r = cc in
    ap big_int (sym printed)
    ∙ big_int-decimal (x + y)
    ∙ omega (arith, zero, (parse_wei-eq-ok w e2).1)

check_budget-le :
    (plan : Plan) (s : Sign)
    → check_budget plan ≡ ok s
    → (s ≡ greater → false ≡ true)
    → big_int plan.entry.service.price_wei ≤ big_int plan.budget_wei
unfolding check_budget
check_budget-le plan s h not_above =
    let (projected, e1, h1) = >>=-eq-ok (add_wei (codes "0") plan.entry.service.price_wei) _ h in
    subst (λ n. n ≤ big_int plan.budget_wei) (added_nothing plan.entry.service.price_wei e1)
      (compare_wei-le projected plan.budget_wei s h1 not_above)

ok_injective {ℓ} : {A : Type ℓ} {a b : A} → Result.ok a ≡ ok b → a ≡ b
ok_injective h = cc

build_catalog-Among :
    (w : World) (ss : List ServiceRecord) (catalog : List CatalogEntry) (e : CatalogEntry)
    → build_catalog w ss ≡ ok catalog
    → Among e catalog
    → Among e.service ss
unfolding build_catalog
build_catalog-Among w [] catalog e h m = elim (subst (Among e) (sym (ok_injective h)) m) [ ]
build_catalog-Among w (s ∷ ss) catalog e h m =
    let (score, e1, h1) = >>=-eq-ok (w.get_score s.id) _ h in
    let (rest, e2, h2) = >>=-eq-ok (build_catalog w ss) _ h1 in
    elim (subst (Among e) (sym (ok_injective h2)) m) [
      | inl here ↦ inl (ap (λ c. c.service) here)
      | inr later ↦ inr (build_catalog-Among w ss rest e e2 later)
    ]

guarded-ok :
    (b : Bool) (a c : CatalogEntry)
    → (if b then ok a else fail Code.llm_bad_choice 502) ≡ ok c
    → (b ≡ true) × (a ≡ c)
guarded-ok true a c h = (refl, ok_injective h)
guarded-ok false a c h = cc

chosen_entry-Among :
    (choice : Choice) (catalog : List CatalogEntry) (e : CatalogEntry)
    → chosen_entry choice catalog ≡ ok e
    → Among e catalog × (e.service.active ≡ true)
unfolding chosen_entry
chosen_entry-Among choice catalog e h =
    elim (Option-cases (find_first (λ e. e.service.id == choice.service_id) catalog)) [
      | inl n ↦ absurd (ground (arith, n, h))
      | inr (found, f) ↦
          let (listed, same_id) =
            Among-find_first (λ e. e.service.id == choice.service_id) found catalog f in
          active_entry found listed (rw (f, chosen_entry) at h)
    ]
  where
    active_entry :
        (found : CatalogEntry)
        → Among found catalog
        → (if found.service.active then ok found else fail Code.llm_bad_choice 502) ≡ ok e
        → Among e catalog × (e.service.active ≡ true)
    active_entry found listed g =
        let (active, same) = guarded-ok found.service.active found e g in
        (subst (λ c. Among c catalog) same listed, subst (λ c. c.service.active ≡ true) same active)

-- What a plan is made of.
record IsPlanned (opts : RunBuyerAgentOpts) (w : World) (plan : Plan) : Type 0 where
  services : List ServiceRecord
  read : w.list_services ≡ ok services
  listed : Among plan.entry.service services
  active : plan.entry.service.active ≡ true
  budget : og_to_wei opts.budget_og ≡ ok plan.budget_wei

make_plan-IsPlanned :
    (opts : RunBuyerAgentOpts) (w : World) (plan : Plan)
    → make_plan opts w ≡ ok plan
    → IsPlanned opts w plan
unfolding make_plan
make_plan-IsPlanned opts w plan h =
    let (done, e0, h0) =
      >>=-eq-ok (require (not (is_empty (trim opts.task))) Code.bad_task 400) _ h in
    let (budget, e1, h1) = >>=-eq-ok (og_to_wei opts.budget_og) _ h0 in
    let (services, e2, h2) = >>=-eq-ok w.list_services _ h1 in
    let (catalog, e3, h3) = >>=-eq-ok (build_catalog w services) _ h2 in
    let (formatted, e7, h7) =
      >>=-eq-ok (require (has_prices catalog) Code.invalid_amount 400) _ h3 in
    let (some_listed, e4, h4) = >>=-eq-ok (require (is_listed catalog) Code.no_services 404) _ h7 in
    let (choice, e5, h5) = >>=-eq-ok (w.choose_service (trim opts.task) catalog) _ h4 in
    let (entry, e6, h6) = >>=-eq-ok (chosen_entry choice catalog) _ h5 in
    let (among, active) = chosen_entry-Among choice catalog entry e6 in
    subst (IsPlanned opts w) (ok_injective h6) (record {
      services = services;
      read = e2;
      listed = build_catalog-Among w services catalog entry e3 among;
      active = active;
      budget = e1;
    })

buy-IsWithinBudget :
    (opts : RunBuyerAgentOpts) (w : World) (plan : Plan)
    → IsPlanned opts w plan
    → big_int plan.entry.service.price_wei ≤ big_int plan.budget_wei
    → ((buy opts w plan).sent ≡ []) ⊎ IsWithinBudget opts w (buy opts w plan)
unfolding buy
buy-IsWithinBudget opts w plan p covered =
    elim (fetch_paid-IsOnePayment (client_options opts plan) w.server
      plan.entry.service.endpoint_url) [
        | inl quiet ↦ inl quiet
        | inr one ↦ inr (record {
          services = p.services;
          service = plan.entry.service;
          budget_wei = plan.budget_wei;
          payment = transfer_of one.invoice;
          once = one.once;
          read = p.read;
          listed = p.listed;
          active = p.active;
          payee =
              (text_beq_iff (to_lower one.invoice.pay_to)
                  (to_lower plan.entry.service.payment_target)).0
                one.vetted.payee;
          priced =
              check_price-le plan.entry.service.price_wei one.invoice.max_amount_required
                one.vetted.within;
          budget = p.budget;
          covered = covered;
        })
      ]

spend-IsWithinBudget :
    (opts : RunBuyerAgentOpts) (w : World) (plan : Plan) (s : Result Sign)
    → IsPlanned opts w plan
    → check_budget plan ≡ s
    → ((spend opts w plan s).sent ≡ []) ⊎ IsWithinBudget opts w (spend opts w plan s)
unfolding spend
spend-IsWithinBudget opts w plan (err e) p h = inl refl
spend-IsWithinBudget opts w plan (ok greater) p h = inl refl
spend-IsWithinBudget opts w plan (ok less) p h =
    buy-IsWithinBudget opts w plan p (check_budget-le plan less h (λ c. cc))
spend-IsWithinBudget opts w plan (ok equal) p h =
    buy-IsWithinBudget opts w plan p (check_budget-le plan equal h (λ c. cc))

-- A run of the buyer agent asks the chain for no transfer or for exactly one, whatever the
-- language model, the gateway and the chain answer: then it pays the account that the registry
-- holds for a listed and active service at most the registered price, which is within the budget
-- of the run.
pub run_buyer_agent-IsWithinBudget :
    (opts : RunBuyerAgentOpts) (w : World)
    → ((run_buyer_agent opts w).sent ≡ []) ⊎ IsWithinBudget opts w (run_buyer_agent opts w)
unfolding run_buyer_agent
run_buyer_agent-IsWithinBudget opts w = go (make_plan opts w) refl
  where
    go :
        (p : Result Plan)
        → make_plan opts w ≡ p
        → ((run_buyer_agent opts w).sent ≡ []) ⊎ IsWithinBudget opts w (run_buyer_agent opts w)
    go (err e) h = inl (rw (h, run_buyer_agent) refl)
    go (ok plan) h =
        rw (h, run_buyer_agent)
          (spend-IsWithinBudget opts w plan (check_budget plan) (make_plan-IsPlanned opts w plan h)
            refl)
