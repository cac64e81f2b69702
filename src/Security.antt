-- ===== src/Security.antt =====
-- The origin check of the trading controls (app/security.py). `urlsplit` and the texts' methods are
-- Python's library, so they are parameters.
pub mod Origin
use binance_bot.Base.{
  ℕ, String, ◌<>◌, Bool, true, false, not, ◌&&◌, ◌||◌, Option, none, some, List, [], ◌∷◌, str_eq,
  str_mem, ◌==◌, if◌then◌else◌,
}

-- what `urlsplit` gives; reading `port` may raise, which is the outer `none`
pub record Url : Type 0 where
  pub scheme : String
  pub username : Option String
  pub password : Option String
  pub path : String
  pub query : String
  pub fragment : String
  pub hostname : Option String
  pub port : Option (Option ℕ)

-- `urlsplit` (none: a ValueError), `str.lower`, `str.strip` and `str.rstrip(".")`
pub record PyText : Type 0 where
  pub urlsplit : String → Option Url
  pub lower : String → String
  pub strip : String → String
  pub rstrip_dots : String → String

abbrev pub local_clients : List String
local_clients = "127.0.0.1" ∷ "::1" ∷ "localhost" ∷ "testclient" ∷ []

abbrev pub local_hosts : List String
local_hosts = "127.0.0.1" ∷ "::1" ∷ "localhost" ∷ "testserver" ∷ []

-- `value or ""`
abbrev pub or_empty : Option String → String
or_empty none = ""
or_empty (some v) = v

abbrev pub is_empty : String → Bool
is_empty v = str_eq v ""

abbrev pub is_some : {A : Type 0} → Option A → Bool
is_some none = false
is_some (some _) = true

abbrev pub opt_nat_eq : Option ℕ → Option ℕ → Bool
opt_nat_eq none none = true
opt_nat_eq (some a) (some b) = a == b
opt_nat_eq _ _ = false

-- user information, a path, a query or a fragment
unfoldable pub has_extras : Url → Bool
has_extras u =
    is_some u.username
    || (is_some u.password
        || (not (is_empty u.path) || (not (is_empty u.query) || not (is_empty u.fragment))))

module _ (py : PyText) where
  open py use {urlsplit, lower, strip, rstrip_dots}

  unfoldable pub host_of : Url → String
  host_of u = rstrip_dots (lower (or_empty u.hostname))

  -- a parsed Host header
  unfoldable pub authority_of : Url → Option (String × Option ℕ)
  unfolding has_extras host_of
  authority_of u =
      if has_extras u || is_empty (host_of u)
      then none
      else elim u.port [ none ↦ none | some port ↦ some (host_of u, port) ]

  -- `_authority`
  unfoldable pub authority : Option String → Option (String × Option ℕ)
  unfolding authority_of
  authority value =
      if is_empty (or_empty value)
      then none
      else elim (urlsplit ("//" <> or_empty value)) [ none ↦ none | some u ↦ authority_of u ]

  unfoldable pub effective_port : String → Option ℕ → Option ℕ
  effective_port scheme (some port) = some port
  effective_port scheme none =
      if str_eq (lower scheme) "http"
      then some 80
      else if str_eq (lower scheme) "https"
      then some 443
      else none

  -- a parsed Origin header whose port was read, against the request's scheme and authority
  unfoldable pub origin_denial : Url → Option ℕ → String → String × Option ℕ → Option String
  unfolding has_extras host_of effective_port
  origin_denial u port scheme (host, host_port) =
      if not (str_mem (lower u.scheme) ("http" ∷ "https" ∷ []))
        || (has_extras u || not (str_mem (host_of u) local_hosts))
      then some "Cross-origin trading-control requests are blocked."
      else if not (str_eq (lower u.scheme) (lower scheme))
          || (not (str_eq (host_of u) host)
              || not (opt_nat_eq (effective_port u.scheme port) (effective_port scheme host_port)))
      then some "Cross-origin trading-control requests are blocked."
      else none

  unfoldable pub origin_check : Option String → String → String × Option ℕ → Option String
  unfolding origin_denial
  origin_check none scheme request = none
  origin_check (some origin) scheme request = elim (urlsplit (strip origin)) [
    | none ↦ some "Invalid Origin header for a trading-control request."
    | some u ↦ elim u.port [
      | none ↦ some "Invalid Origin header for a trading-control request."
      | some port ↦ origin_denial u port scheme request
    ]
  ]

  -- the checks from the Host header on
  unfoldable pub request_denial :
      Option (String × Option ℕ) → Option String → Option String → String → Option String
  unfolding origin_check
  request_denial none origin site scheme =
      some "Trading-control requests require a localhost Host header."
  request_denial (some request) origin site scheme =
      if not (str_mem request.0 local_hosts)
      then some "Trading-control requests require a localhost Host header."
      else if str_eq (lower (strip (or_empty site))) "cross-site"
      then some "Cross-site trading-control requests are blocked."
      else origin_check origin scheme request

  unfoldable pub trading_control_denial_reason :
      Option String → Option String → Option String → Option String → String → Option String
  unfolding authority request_denial
  trading_control_denial_reason client host origin site scheme =
      if not (str_mem (rstrip_dots (lower (or_empty client))) local_clients)
      then some "Trading-control endpoints are localhost-only."
      else request_denial (authority host) origin site scheme
