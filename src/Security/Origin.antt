-- ===== src/Security/Origin.antt =====
-- Which control requests pass the origin check (app/security.py).
use binance_bot.Base.{
  ℕ, String, ◌≡◌, true, false, Option, none, some, arith, str_eq, str_mem, [], ◌∷◌, Option-cases,
  inl, inr,
}
use binance_bot.Security.{
  Url, PyText, local_clients, local_hosts, or_empty, opt_nat_eq, has_extras, host_of, authority,
  effective_port, origin_denial, origin_check, request_denial, trading_control_denial_reason,
}

module _ (py : PyText) where
  open py use {urlsplit, lower, strip, rstrip_dots}

  -- the origin names the same scheme, host and port as the request, and nothing else
  pub record IsSameOrigin (u : Url) (port : Option ℕ) (scheme : String)
      (request : String × Option ℕ) : Type 0 where
    pub web : str_mem (lower u.scheme) ("http" ∷ "https" ∷ []) ≡ true
    pub bare : has_extras u ≡ false
    pub is_local : str_mem (host_of py u) local_hosts ≡ true
    pub scheme_eq : str_eq (lower u.scheme) (lower scheme) ≡ true
    pub host_eq : str_eq (host_of py u) request.0 ≡ true
    pub port_eq :
        opt_nat_eq (effective_port py u.scheme port) (effective_port py scheme request.1) ≡ true

  origin_denial-none :
      (u : Url) (port : Option ℕ) (scheme : String) (request : String × Option ℕ)
      → origin_denial py u port scheme request ≡ none
      → IsSameOrigin u port scheme request
  unfolding origin_denial
  origin_denial-none u port scheme (host, host_port) h = record {
    web = ground arith;
    bare = ground arith;
    is_local = ground arith;
    scheme_eq = ground arith;
    host_eq = ground arith;
    port_eq = ground arith;
  }

  origin_check-none :
      (text scheme : String) (request : String × Option ℕ)
      → origin_check py (some text) scheme request ≡ none
      → (u : Url) × (port : Option ℕ) × (urlsplit (strip text) ≡ some u)
        × (u.port ≡ some port)
        × IsSameOrigin u port scheme request
  unfolding origin_check
  origin_check-none text scheme request h = elim (Option-cases (urlsplit (strip text))) [
    | inl e ↦ absurd (ground arith)
    | inr (u, e) ↦ elim (Option-cases u.port) [
      | inl f ↦ absurd (ground arith)
      | inr (port, f) ↦ (u, port, e, f, origin_denial-none u port scheme request (ground arith))
    ]
  ]

  -- A control request that is let through comes from a local client, names a local host in its Host
  -- header, is not marked as cross-site, and if it carries an Origin, that one parses to the same
  -- scheme, host and port as the request.
  pub trading_control_denial_reason-none :
      (client host origin site : Option String) (scheme : String)
      → trading_control_denial_reason py client host origin site scheme ≡ none
      → (request : String × Option ℕ) × (str_mem
            (rstrip_dots (lower (or_empty client)))
            local_clients
          ≡ true)
        × (authority py host ≡ some request)
        × (str_mem request.0 local_hosts ≡ true)
        × (str_eq (lower (strip (or_empty site))) "cross-site" ≡ false)
        × ((text : String)
            → origin ≡ some text
            → (u : Url) × (port : Option ℕ) × (urlsplit (strip text) ≡ some u)
              × (u.port ≡ some port)
              × IsSameOrigin u port scheme request)
  unfolding trading_control_denial_reason request_denial
  trading_control_denial_reason-none client host origin site scheme h =
      elim (Option-cases (authority py host)) [
        | inl e ↦ absurd (ground arith)
        | inr (request, e) ↦ (
          request,
          ground arith,
          e,
          ground arith,
          ground arith,
          λ text k. origin_check-none text scheme request (ground arith),
        )
      ]
