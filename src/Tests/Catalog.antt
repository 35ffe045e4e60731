-- ===== src/Tests/Catalog.antt =====
-- The catalog of a registry with a service that cannot be read (packages/chain/src/live-0g.ts).
use g_gate.Prelude.{true, if◌then◌else◌, ◌==◌, [], ◌∷◌}
use g_gate.Prelude.Text.{codes}
use g_gate.Shared.Errors.{ok}
use g_gate.Chain.Catalog.{RawService, RegistryReads, raw_service, abi_decode_failure}

abbrev oracle : RawService
oracle = record {
  name = codes "oracle";
  description = codes "prices";
  gateway_base_url = codes "https://gate.example/";
  accepts =
      record {
        asset = codes "0x0000000000000000000000000000000000000000";
        amount = 1000;
        decimals = 18;
        symbol = codes "0G";
        name = codes "0G";
        version = codes "1";
      }
      ∷ [];
  payment_target = codes "0xAA";
  owner = codes "0xBB";
  attestor = codes "0xCC";
  active = true;
  created_at = 5000;
}

-- The second service of two is readable.
abbrev reads : RegistryReads
reads = record {
  registry = ok (codes "0xDD");
  services_count = ok 2;
  service = λ id. if id == 2 then raw_service oracle else abi_decode_failure;
}
