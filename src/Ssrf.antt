-- ===== src/Ssrf.antt =====
-- packages/agent-core/src/agent_core/tools/_ssrf.py: the guard of outbound requests. The parser of
-- addresses, the codec of host names, the parser of URLs and the resolver are the standard library's,
-- and parameters here.
pub mod Numeric
pub mod Guard
mod Tests
use agents_universe.Prelude.{
  ℕ, zero, suc, ◌+◌, ◌-◌, ◌*◌, ◌≡◌, Bool, true, false, ◌&&◌, ◌||◌, not, Option, none, some, List,
  [], ◌∷◌, ltb, leb, ◌==◌, if◌then◌else◌, length, keep,
}
use agents_universe.Prelude.Text.{
  Text, codes, strip, isascii, split_on, starts_with, ends_with, contains,
}
use agents_universe.Prelude.TextSet.{elem}
use agents_universe.Prelude.Fallible.{◌>>=◌, each}

-- What the guard reads of an `ipaddress` object.
pub record Address : Type 0 where
  pub is_loopback : Bool
  pub is_private : Bool
  pub is_link_local : Bool
  pub is_multicast : Bool
  pub is_reserved : Bool
  pub is_unspecified : Bool
  pub is_global : Bool
  -- the text of `ipv4_mapped`, of an IPv6 address that has one
  pub mapped : Option Text

abbrev pub metadata_ips : List Text
metadata_ips =
    codes "169.254.169.254" ∷ codes "fd00:ec2::254" ∷ codes "metadata.google.internal" ∷ []

unfoldable pub is_special : Address → Bool
is_special a =
    a.is_loopback
    || (a.is_private
        || (a.is_link_local
            || (a.is_multicast || (a.is_reserved || (a.is_unspecified || not a.is_global)))))

-- _is_ip_blocked(), with a bound on the mapped addresses that it looks into.
unfoldable pub is_ip_blocked_in : (Text → Option Address) → ℕ → Text → Bool
is_ip_blocked_in ip_address zero ip = true
is_ip_blocked_in ip_address (suc depth) ip = elim (ip_address ip) [
  | none ↦ true
  | some a ↦ is_special a || elim a.mapped [
    | none ↦ elem ip metadata_ips
    | some v4 ↦ is_ip_blocked_in ip_address depth v4
  ]
]

-- The address that is mapped is an IPv4 one, which maps none.
unfoldable pub is_ip_blocked : (Text → Option Address) → Text → Bool
is_ip_blocked ip_address ip = is_ip_blocked_in ip_address 2 ip

-- The forms of inet_aton.

unfoldable pub idna_host : (Text → Option Text) → Text → Text
idna_host idna host =
    if isascii host then host else (elim (idna host) [ none ↦ host | some ascii ↦ ascii ])

-- The value of a digit, in bases up to 16.
unfoldable pub digit : ℕ → Option ℕ
digit c =
    if leb b'0' c && leb c b'9'
    then some (c - b'0')
    else if leb b'a' c && leb c b'f'
    then some (c - 87)
    else if leb b'A' c && leb c b'F'
    then some (c - 55)
    else none

-- The digits behind `value`, in the base.
unfoldable pub digits_from : ℕ → ℕ → Text → Option ℕ
digits_from base value [] = some value
digits_from base value (c ∷ t) = digit c >>= λ d.
    let rest = digits_from base (value * base + d) t in if ltb d base then rest else none

unfoldable pub all_digits : ℕ → Text → Option ℕ
all_digits base [] = none
all_digits base (c ∷ t) = digits_from base 0 (c ∷ t)

unfoldable pub is_x : ℕ → Bool
is_x c = c == b'x' || c == b'X'

-- `text.lower().startswith("0x")`
unfoldable pub is_hex : Text → Bool
is_hex [] = false
is_hex (a ∷ []) = false
is_hex (a ∷ b ∷ t) = a == b'0' && is_x b

unfoldable pub behind_prefix : Text → Text
behind_prefix [] = []
behind_prefix (a ∷ []) = []
behind_prefix (a ∷ b ∷ t) = t

-- int(text, base), of a text of digits, letters to `f` and `x`, where base 16 takes a prefix `0x`.
unfoldable pub int_of : ℕ → Text → Option ℕ
int_of base text =
    let t = strip text in
    if base == 16 && is_hex t then all_digits base (behind_prefix t) else all_digits base t

unfoldable pub has_leading_zero : Text → Bool
has_leading_zero [] = false
has_leading_zero (a ∷ []) = false
has_leading_zero (a ∷ b ∷ t) = a == b'0'

unfoldable pub component : Text → Option ℕ
component part =
    (if is_hex part
      then int_of 16 (behind_prefix part)
      else if has_leading_zero part
      then int_of 8 part
      else int_of 10 part)
    >>= λ value. if leb value 0xffffffff then some value else none

-- `1 << (8 * n)`
unfoldable pub bytes : ℕ → ℕ
bytes zero = 1
bytes (suc n) = 256 * bytes n

-- The loop over the components: all but the last are bytes, and the last fills the bytes that are
-- left.
unfoldable pub join_from : ℕ → ℕ → List ℕ → Option ℕ
join_from address remaining [] = none
join_from address remaining (last ∷ []) =
    if leb (bytes remaining) last then none else some (address * bytes remaining + last)
join_from address remaining (value ∷ next ∷ rest) =
    let joined = join_from (address * 256 + value) (remaining - 1) (next ∷ rest) in
    if ltb 0xff value then none else joined

-- `_NUMERIC_HOST_RE`, whose `$` also takes a line break at the end.
unfoldable pub is_numeric_char : ℕ → Bool
is_numeric_char c =
    (leb b'0' c && leb c b'9')
    || ((leb b'a' c && leb c b'f') || ((leb b'A' c && leb c b'F') || (is_x c || c == b'.')))

unfoldable pub is_numeric_rest : Text → Bool
is_numeric_rest [] = true
is_numeric_rest (c ∷ []) = is_numeric_char c || c == 10
is_numeric_rest (c ∷ d ∷ t) = is_numeric_char c && is_numeric_rest (d ∷ t)

unfoldable pub is_numeric_host : Text → Bool
is_numeric_host [] = false
is_numeric_host (c ∷ t) = is_numeric_char c && is_numeric_rest t

abbrev dot : Text
dot = b'.' ∷ []

-- The number that _inet_aton_mapped() gives to `ipaddress.IPv4Address`.
unfoldable pub inet_aton : Text → Option ℕ
inet_aton host =
    if ltb 64 (length host) || not (is_numeric_host host)
    then none
    else if starts_with dot host || (ends_with dot host || contains host (codes ".."))
    then none
    else if ltb 4 (length (split_on b'.' host))
    then none
    else each component (split_on b'.' host) >>= join_from 0 4

unfoldable pub inet_aton_mapped : (Text → Option Text) → (ℕ → Text) → Text → Option Text
inet_aton_mapped idna ipv4 [] = none
inet_aton_mapped idna ipv4 (c ∷ t) =
    inet_aton (idna_host idna (c ∷ t)) >>= λ address. some (ipv4 address)

-- URLs.

pub data Port : Type 0 where
  no_port invalid_port : Port
  at_port : ℕ → Port

-- What `urlparse` makes of a URL.
pub record Url : Type 0 where
  pub scheme : Text
  pub hostname : Option Text
  pub port : Port

pub data Verdict : Type 0 where
  accepted : Verdict
  blocked_scheme no_hostname blocked_metadata blocked_ip bad_port blocked_port : Verdict

abbrev pub allowed_schemes : List Text
allowed_schemes = codes "http" ∷ codes "https" ∷ []

unfoldable pub has_number : ℕ → List ℕ → Bool
has_number n [] = false
has_number n (m ∷ ms) = m == n || has_number n ms

abbrev pub allowed_ports : List ℕ
allowed_ports = 80 ∷ 443 ∷ 8080 ∷ 8443 ∷ 8000 ∷ 3000 ∷ 5000 ∷ 9090 ∷ 5173 ∷ 4173 ∷ 5174 ∷ []

unfoldable pub check_port : Bool → Port → Verdict
check_port any no_port = accepted
check_port any invalid_port = bad_port
check_port any (at_port n) = if any || has_number n allowed_ports then accepted else blocked_port

module _ (ip_address : Text → Option Address) (idna : Text → Option Text) (ipv4 : ℕ → Text)
    (lower : Text → Text) where
  -- The try block of validate_url(): a literal address, or a form of inet_aton.
  unfoldable pub is_blocked_literal : Text → Bool
  is_blocked_literal host = elim (ip_address (idna_host idna host)) [
    | some a ↦ is_ip_blocked ip_address (idna_host idna host)
    | none ↦ elim (inet_aton_mapped idna ipv4 host) [
      | none ↦ false
      | some mapped ↦ is_ip_blocked ip_address mapped
    ]
  ]

  unfoldable pub check_host : Text → Bool → Port → Verdict
  check_host [] any port = no_hostname
  check_host (c ∷ t) any port =
      if elem (lower (c ∷ t)) metadata_ips || elem (lower (idna_host idna (c ∷ t))) metadata_ips
      then blocked_metadata
      else if is_blocked_literal (c ∷ t)
      then blocked_ip
      else check_port any port

  -- validate_url() and validate_redirect()
  unfoldable pub validate_url : Bool → Url → Verdict
  validate_url any url =
      if elem url.scheme allowed_schemes
      then (elim url.hostname [ none ↦ no_hostname | some host ↦ check_host host any url.port ])
      else blocked_scheme

  -- validate_resolved_ip(): whether it raises nothing.
  unfoldable pub validate_resolved_ip : Text → Bool
  validate_resolved_ip ip = not (is_ip_blocked ip_address ip)

  -- resolve_and_validate(), of what `getaddrinfo` returns; it raises where it has no safe address.
  unfoldable pub resolve_and_validate : Option (List Text) → Option (List Text)
  resolve_and_validate none = none
  resolve_and_validate (some []) = none
  resolve_and_validate (some (ip ∷ ips)) =
      elim (keep (λ ip. not (is_ip_blocked ip_address ip)) (ip ∷ ips)) [
        | [] ↦ none
        | safe ∷ more ↦ some (safe ∷ more)
      ]
