-- ===== src/Shared/HttpUrl.antt =====
-- packages/shared/src/net-guard.ts: validateHttpUrl, and its wrapper validateUpstreamUrl in
-- packages/middleware/src/ssrf.ts. The platform's `URL` is a parameter (none if it throws).
use g_gate.Prelude.{Bool, not, ◌&&◌, ◌||◌, Option, none, some, length, leb, if◌then◌else◌}
use g_gate.Prelude.Text.{Text, codes, text_beq, is_empty}
use g_gate.Shared.NetGuard.{Resolver, is_private_host}

-- The parts of a parsed URL that are read; `href` is `url.toString()`.
pub record Url : Type 0 where
  pub protocol : Text
  pub username : Text
  pub password : Text
  pub hostname : Text
  pub href : Text

pub data UrlValidation : Type 0 where
  invalid_url forbidden_host : UrlValidation
  valid : Url → UrlValidation

unfoldable pub check_url : Resolver → Bool → Url → UrlValidation
check_url net reject_private_hosts url =
    if not (text_beq url.protocol (codes "http:")) && not (text_beq url.protocol (codes "https:"))
    then invalid_url
    else if not (is_empty url.username) || not (is_empty url.password)
    then invalid_url
    else if is_empty url.hostname
    then invalid_url
    else if reject_private_hosts && is_private_host net url.hostname
    then forbidden_host
    else valid url

-- `validateHttpUrl` of a text; the bound is `MAX_URL_LENGTH`.
unfoldable pub validate_http_url : (Text → Option Url) → Resolver → Bool → Text → UrlValidation
unfolding check_url
validate_http_url parse_url net reject_private_hosts raw =
    if is_empty raw || not (leb (length raw) 2048) then invalid_url else elim (parse_url raw) [
      | none ↦ invalid_url
      | some url ↦ check_url net reject_private_hosts url
    ]
