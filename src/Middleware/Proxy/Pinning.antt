-- ===== src/Middleware/Proxy/Pinning.antt =====
-- packages/middleware/src/proxy.ts: where the proxy connects to and what it sends there.
use g_gate.Prelude.{
  ℕ, ◌≡◌, refl, subst, inl, inr, Bool, true, false, Option, none, some, List, [], ◌∷◌, ◌++◌, arith,
  Bool-cases, if◌then◌else◌, ◌==◌, ◌||◌, every,
}
use g_gate.Prelude.Text.{Text, codes, is_empty, text_beq}
use g_gate.Shared.NetGuard.{
  Resolver, resolve_pinned_ip, is_private_address, clean_host, is_localhost, all_public,
  answer_pinned,
}
use g_gate.Middleware.Paywall.{Config}
use g_gate.Middleware.Proxy.{
  ProxyRequest, TargetUrl, ProxyOptions, proxy_options, Connection, Net, ProxyCall,
  build_target_url, forwarded, forwarded_request_headers, body_of, body_too_large, headers_of,
  connect, connection_to, pin_and_connect, proxy_to_upstream, refused_call,
}

some-injective : {A : Type 0} {a b : A} → Option.some a ≡ some b → a ≡ b
some-injective h = cc

-- An address that a connection is pinned to is not private.
answer_pinned-public :
    (net : Resolver) (o : Option (List (Text × ℕ))) (a : Text × ℕ)
    → answer_pinned net o ≡ some a
    → is_private_address a ≡ false
answer_pinned-public net none a h = cc
answer_pinned-public net (some []) a h = cc
answer_pinned-public net (some (b ∷ rest)) a h = elim (Bool-cases (is_private_address b)) [
  | inl private ↦ absurd (ground (arith, private, h))
  | inr public ↦ unchecked public (all_public net rest) h
]
  where
    unchecked :
        is_private_address b ≡ false
        → (others : Bool)
        → (if (if is_private_address b then false else others) then some b else none) ≡ some a
        → is_private_address a ≡ false
    unchecked public others h = ground (arith, public, h)

resolve_pinned_ip-public :
    (net : Resolver) (hostname : Text) (a : Text × ℕ)
    → resolve_pinned_ip net hostname ≡ some a
    → is_private_address a ≡ false
unfolding resolve_pinned_ip
resolve_pinned_ip-public net hostname a h =
    let host : Text = clean_host hostname in
    split host (is_empty host || is_localhost host) (net.is_ip host == 0)
      (is_private_address (host, net.is_ip host)) refl h
  where
    split :
        (host : Text) (local named private : Bool)
        → is_private_address (host, net.is_ip host) ≡ private
        → (if local
            then none
            else if named
            then answer_pinned net (net.dns host)
            else if private
            then none
            else some (host, net.is_ip host))
          ≡ some a
        → is_private_address a ≡ false
    split host true named private e h = cc
    split host false true private e h = answer_pinned-public net (net.dns host) a h
    split host false false true e h = cc
    split host false false false e h =
        subst (λ x. is_private_address x ≡ false) (some-injective h) e

-- The names that a request to the upstream may carry.
abbrev pub may_forward : Text → Bool
may_forward name =
    text_beq name (codes "accept")
    || text_beq name (codes "accept-language")
    || text_beq name (codes "user-agent")
    || text_beq name (codes "content-type")

-- A connection to the host of the seller's URL whose lookup is pinned to the public address that this
-- host resolved to, with the listed header fields alone and a body within the bound, which
-- follows no redirect to another host.
pub record IsGuarded (net : Net) (opts : ProxyOptions) (c : Connection) : Type 0 where
  pub host : c.url.hostname ≡ (net.parse_url opts.upstream_url).hostname
  pub public :
      (a : Text × ℕ) × (c.pinned ≡ some a)
      × (resolve_pinned_ip net.resolver c.url.hostname ≡ some a)
      × (is_private_address a ≡ false)
  pub listed : every (λ (name, value). may_forward name) c.headers ≡ true
  pub bounded : body_too_large c.body ≡ false
  pub direct : c.follow_redirects ≡ false

build_target_url-hostname :
    (set_search : Text → Text) (url : TargetUrl) (q : Option Text)
    → (build_target_url set_search url q).hostname ≡ url.hostname
unfolding build_target_url
build_target_url-hostname set_search url none = refl
build_target_url-hostname set_search url (some raw) = ground arith

abbrev header_listed : Text × Text → Bool
header_listed (name, value) = may_forward name

every-append :
    (hs ks : List (Text × Text))
    → every header_listed hs ≡ true
    → every header_listed ks ≡ true
    → every header_listed (hs ++ ks) ≡ true
every-append [] ks h k = k
every-append ((name, value) ∷ hs) ks h k =
    ground (arith, every-append hs ks (ground (arith, h)) k, h)

forwarded-listed :
    (req : ProxyRequest) (names : List Text)
    → every may_forward names ≡ true
    → every header_listed (forwarded req names) ≡ true
forwarded-listed req [] h = refl
forwarded-listed req (name ∷ names) h =
    let rest = forwarded-listed req names (ground (arith, h)) in
    keep (may_forward name) refl (ground (arith, h)) (req.header name) rest
  where
    keep :
        (listed : Bool)
        → may_forward name ≡ listed
        → listed ≡ true
        → (o : Option Text) → every header_listed (forwarded req names) ≡ true
        → every header_listed (elim o [
          | none ↦ forwarded req names
          | some value ↦
              if is_empty value then forwarded req names else (name, value) ∷ forwarded req names
        ])
          ≡ true
    keep listed e t none rest = rest
    keep listed e t (some value) rest = elim (Bool-cases (is_empty value)) [
      | inl empty ↦ rw empty rest
      | inr full ↦ rw (full, e, t) rest
    ]

headers_of-listed :
    (req : ProxyRequest) (body : Option Text) → every header_listed (headers_of req body) ≡ true
unfolding text_beq
headers_of-listed req none = forwarded-listed req forwarded_request_headers refl
headers_of-listed req (some body) =
    every-append (forwarded req forwarded_request_headers) _
      (forwarded-listed req forwarded_request_headers refl) refl

sent-IsGuarded :
    (net : Net) (opts : ProxyOptions) (c : Connection)
    → opts.pin_to_public_ip ≡ true
    → opts.follow_redirects ≡ false
    → net.has_agent ≡ true
    → (proxy_to_upstream net opts).connected ≡ some c
    → IsGuarded net opts c
unfolding proxy_to_upstream pin_and_connect
sent-IsGuarded net opts c pin straight agent h = sent (body_too_large (body_of opts.req)) refl h
  where
    url : TargetUrl
    url = build_target_url net.set_search (net.parse_url opts.upstream_url) opts.req.raw_query

    guarded :
        body_too_large (body_of opts.req) ≡ false
        → (o : Option (Text × ℕ)) → resolve_pinned_ip net.resolver url.hostname ≡ o
        → ProxyCall.connected (elim o [
          | none ↦ refused_call (codes "upstream_unreachable")
          | some pinned ↦ connect net (
              connection_to opts url
                (body_of opts.req)
                (if net.has_agent then some pinned else none))
        ])
          ≡ some c
        → IsGuarded net opts c
    guarded fits none e h = cc
    guarded fits (some a) e h = subst (IsGuarded net opts) (some-injective h) (record {
      host =
          build_target_url-hostname net.set_search (net.parse_url opts.upstream_url)
            opts.req.raw_query;
      public = (a, rw agent refl, e, resolve_pinned_ip-public net.resolver url.hostname a e);
      listed = headers_of-listed opts.req (body_of opts.req);
      bounded = fits;
      direct = straight;
    })

    sent :
        (large : Bool)
        → body_too_large (body_of opts.req) ≡ large
        → ProxyCall.connected (
            if large
            then refused_call (codes "upstream_request_too_large")
            else pin_and_connect net opts url (body_of opts.req))
          ≡ some c
        → IsGuarded net opts c
    sent true e h = cc
    sent false e h = guarded e (resolve_pinned_ip net.resolver url.hostname) refl (rw pin at h)

-- In live mode, when an `Agent` can be made, the proxied call of the handler reaches the network only
-- over a connection to the host of the seller's URL that is pinned to a public address which this host
-- resolved to and that follows no redirect. It carries the listed header fields alone and a body
-- within the bound.
pub proxy_to_upstream-IsGuarded :
    (net : Net) (c : Config) (upstream_url : Text) (req : ProxyRequest) (connection : Connection)
    → c.live ≡ true
    → net.has_agent ≡ true
    → (proxy_to_upstream net (proxy_options c upstream_url req)).connected ≡ some connection
    → IsGuarded net (proxy_options c upstream_url req) connection
unfolding proxy_options
proxy_to_upstream-IsGuarded net c upstream_url req connection live agent h =
    sent-IsGuarded net (proxy_options c upstream_url req) connection live (ground (arith, live))
      agent h
