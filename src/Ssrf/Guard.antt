-- ===== src/Ssrf/Guard.antt =====
-- Which URLs pass, and which addresses.
use agents_universe.Prelude.{
  ℕ, ◌≡◌, ◌≢◌, ◌↔◌, refl, Bool, true, false, ◌||◌, Option, none, some, [], ◌∷◌, arith, Bool-cases,
  Option-cases, List-cases, inl, inr,
}
use agents_universe.Prelude.Text.{Text}
use agents_universe.Prelude.TextSet.{elem}
use agents_universe.Ssrf.{
  Address, metadata_ips, is_ip_blocked, idna_host, inet_aton, inet_aton_mapped, Port, no_port,
  invalid_port, at_port, Url, accepted, allowed_schemes, has_number, allowed_ports, check_port,
  is_blocked_literal, check_host, validate_url,
}
use agents_universe.Ssrf.Numeric.{IsAton, to_aton, inet_aton_iff}

-- No port, or an allowed one; or any one, where all are allowed.
abbrev pub IsOpenPort : Bool → Port → Type 0
IsOpenPort any no_port = Unit
IsOpenPort any invalid_port = ⊥
IsOpenPort any (at_port n) = (any || has_number n allowed_ports) ≡ true

module _ (ip_address : Text → Option Address) (idna : Text → Option Text) (ipv4 : ℕ → Text)
    (lower : Text → Text) where
  -- A URL of an allowed scheme and port, whose host is no name of a metadata service, and neither an
  -- address nor a form of inet_aton that is blocked.
  pub record IsSafe (any : Bool) (url : Url) : Type 0 where
    pub scheme : elem url.scheme allowed_schemes ≡ true
    pub host : Text
    pub named : url.hostname ≡ some host
    pub not_blank : host ≢ []
    pub name : elem (lower host) metadata_ips ≡ false
    pub ascii_name : elem (lower (idna_host idna host)) metadata_ips ≡ false
    pub address :
        (a : Address)
        → ip_address (idna_host idna host) ≡ some a
        → is_ip_blocked ip_address (idna_host idna host) ≡ false
    pub form :
        (n : ℕ)
        → ip_address (idna_host idna host) ≡ none
        → IsAton (idna_host idna host) n
        → is_ip_blocked ip_address (ipv4 n) ≡ false
    pub port : IsOpenPort any url.port

  literal-address :
      (host : Text) (a : Address)
      → is_blocked_literal ip_address idna ipv4 lower host ≡ false
      → ip_address (idna_host idna host) ≡ some a
      → is_ip_blocked ip_address (idna_host idna host) ≡ false
  unfolding is_blocked_literal
  literal-address host a h known = rw (known, is_blocked_literal) at h

  literal-form :
      (c : ℕ) (t : Text) (n : ℕ)
      → is_blocked_literal ip_address idna ipv4 lower (c ∷ t) ≡ false
      → ip_address (idna_host idna (c ∷ t)) ≡ none
      → IsAton (idna_host idna (c ∷ t)) n
      → is_ip_blocked ip_address (ipv4 n) ≡ false
  unfolding is_blocked_literal inet_aton_mapped
  literal-form c t n h name a =
      let e = to_aton (idna_host idna (c ∷ t)) n a in
      rw (name, e, is_blocked_literal, inet_aton_mapped) at h

  literal_ok :
      (c : ℕ) (t : Text)
      → ((a : Address)
          → ip_address (idna_host idna (c ∷ t)) ≡ some a
          → is_ip_blocked ip_address (idna_host idna (c ∷ t)) ≡ false)
      → ((n : ℕ)
          → ip_address (idna_host idna (c ∷ t)) ≡ none
          → IsAton (idna_host idna (c ∷ t)) n
          → is_ip_blocked ip_address (ipv4 n) ≡ false)
      → is_blocked_literal ip_address idna ipv4 lower (c ∷ t) ≡ false
  unfolding is_blocked_literal inet_aton_mapped
  literal_ok c t address form = elim (Option-cases (ip_address (idna_host idna (c ∷ t)))) [
    | inr (a, known) ↦ rw (known, is_blocked_literal) (address a known)
    | inl name ↦ elim (Option-cases (inet_aton (idna_host idna (c ∷ t)))) [
      | inl no_form ↦ rw (name, no_form, is_blocked_literal, inet_aton_mapped) refl
      | inr (n, e) ↦
          rw (name, e, is_blocked_literal, inet_aton_mapped)
            (form n name ((inet_aton_iff _ n).0 e).0)
    ]
  ]

  to_port : (any : Bool) (port : Port) → check_port any port ≡ accepted → IsOpenPort any port
  unfolding check_port
  to_port any no_port e = tt
  to_port any invalid_port e = ground arith
  to_port any (at_port n) e = ground arith

  of_port : (any : Bool) (port : Port) → IsOpenPort any port → check_port any port ≡ accepted
  unfolding check_port
  of_port any no_port e = refl
  of_port any invalid_port e = absurd e
  of_port any (at_port n) e = ground arith

  to_safe :
      (any : Bool) (url : Url)
      → validate_url ip_address idna ipv4 lower any url ≡ accepted
      → IsSafe any url
  unfolding validate_url check_host
  to_safe any url e = elim (Bool-cases (elem url.scheme allowed_schemes)) [
    | inr other ↦ absurd (ground arith)
    | inl scheme ↦ elim (Option-cases url.hostname) [
      | inl no_host ↦ absurd (ground arith)
      | inr ([], named) ↦ absurd (ground arith)
      | inr (c ∷ t, named) ↦
          elim (Bool-cases (
            elem (lower (c ∷ t)) metadata_ips
            || elem (lower (idna_host idna (c ∷ t))) metadata_ips)) [
              | inl service ↦ absurd (ground arith)
              | inr plain ↦
                  elim (Bool-cases (is_blocked_literal ip_address idna ipv4 lower (c ∷ t))) [
                    | inl literal ↦ absurd (ground arith)
                    | inr fine ↦ record {
                      scheme = scheme;
                      host = c ∷ t;
                      named = named;
                      not_blank = λ e. cc;
                      name = ground arith;
                      ascii_name = ground arith;
                      address = λ a. literal-address (c ∷ t) a fine;
                      form = λ n. literal-form c t n fine;
                      port =
                          to_port any url.port
                            (rw (scheme, named, plain, fine, validate_url, check_host) at e);
                    }
                  ]
            ]
    ]
  ]

  of_host :
      (any : Bool) (url : Url) (c : ℕ) (t : Text) (s : IsSafe any url)
      → s.host ≡ c ∷ t
      → validate_url ip_address idna ipv4 lower any url ≡ accepted
  unfolding validate_url check_host
  of_host any url c t s e =
      let named : url.hostname ≡ some (c ∷ t) = rw (← e) s.named in
      let name : elem (lower (c ∷ t)) metadata_ips ≡ false = rw (← e) s.name in
      let ascii_name : elem (lower (idna_host idna (c ∷ t))) metadata_ips ≡ false =
        rw (← e) s.ascii_name in
      let fine = literal_ok c t (rw (← e) s.address) (rw (← e) s.form) in
      rw (s.scheme, named, name, ascii_name, fine, validate_url, check_host)
        (of_port any url.port s.port)

  of_safe :
      (any : Bool) (url : Url)
      → IsSafe any url
      → validate_url ip_address idna ipv4 lower any url ≡ accepted
  of_safe any url s = elim (List-cases s.host) [
    | inl blank ↦ absurd (s.not_blank blank)
    | inr (c, t, e) ↦ of_host any url c t s e
  ]

  -- A URL passes exactly where its scheme is http or https, its host is not blank and names no metadata
  -- service, neither as it is nor as the codec writes it, its port is allowed, and what the codec writes
  -- is no blocked address, nor, where it is no address, the parts of a
  -- blocked one in a form of inet_aton.
  pub validate_url_iff :
      (any : Bool) (url : Url)
      → (validate_url ip_address idna ipv4 lower any url ≡ accepted) ↔ IsSafe any url
  validate_url_iff any url = (to_safe any url, of_safe any url)
