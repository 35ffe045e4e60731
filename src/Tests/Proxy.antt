-- ===== src/Tests/Proxy.antt =====
-- A request that is passed on to an upstream (packages/middleware/src/proxy.ts).
use g_gate.Prelude.{◌≡◌, refl, arith, true, none, some, [], ◌∷◌}
use g_gate.Prelude.Text.{Text, codes, text_beq, trim}
use g_gate.Prelude.Decimal.{is_digits, big_int}
use g_gate.Shared.NetGuard.{
  resolve_pinned_ip, clean_host, strip_prefix, is_private_ipv4, parse_ipv4, split, parse_octet,
  is_private_octets,
}
use g_gate.Middleware.Paywall.{Config}
use g_gate.Middleware.Proxy.{
  ProxyOptions, proxy_options, ProxyRequest, BodyStream, done, chunk, whole, Connection, Net,
  fetched, read_body_capped, proxy_to_upstream, pin_and_connect, connection_to, body_of,
  build_target_url,
}
use g_gate.Middleware.Proxy.Capped.{read_body_capped_iff}
use g_gate.Middleware.Proxy.Pinning.{IsGuarded, proxy_to_upstream-IsGuarded}

abbrev two_chunks : BodyStream
two_chunks = chunk (codes "{}") (chunk (codes "!!") done)

-- A body of exactly the bound is taken.
read_body_capped_iff_example : read_body_capped two_chunks 4 ≡ whole (codes "{}!!")
unfolding read_body_capped
read_body_capped_iff_example =
    (read_body_capped_iff two_chunks 4 (codes "{}!!")).1 (refl, omega arith)

abbrev net : Net
net = record {
  resolver = record {
    is_ip = λ s. 0;
    dns = λ s. some ((codes "93.184.216.34", 4) ∷ []);
    hostname = λ s. some s;
  };
  parse_url = λ s. record { hostname = codes "api.example.com"; search = codes "v=1" };
  set_search = λ s. s;
  has_agent = true;
  fetch = λ c. fetched 200 none two_chunks;
}

abbrev req : ProxyRequest
req = record {
  method = codes "POST";
  raw_query = some (codes "q=2");
  header = λ name. some (codes "en");
  json_body = some (codes "{}");
}

abbrev config : Config
config = record {
  live = true;
  invoice_ttl_ms = 600;
  redemption_window_ms = 9000;
  payment_router_address = codes "0x3333333333333333333333333333333333333333";
}

abbrev upstream_url : Text
upstream_url = codes "https://api.example.com/?v=1"

abbrev opts : ProxyOptions
opts = proxy_options config upstream_url req

abbrev connection : Connection
connection =
    connection_to (proxy_options config upstream_url req)
      (build_target_url net.set_search (net.parse_url upstream_url) req.raw_query) (body_of req)
      (some (codes "93.184.216.34", 4))

proxy_to_upstream-IsGuarded_example : IsGuarded net opts connection
unfolding proxy_options proxy_to_upstream pin_and_connect text_beq resolve_pinned_ip clean_host trim
    build_target_url strip_prefix is_private_ipv4 parse_ipv4 split parse_octet is_digits big_int
    is_private_octets
proxy_to_upstream-IsGuarded_example =
    proxy_to_upstream-IsGuarded net config upstream_url req connection refl refl refl
