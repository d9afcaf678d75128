-- ===== src/Ssrf/Tests.antt =====
-- The guard of outbound requests on small inputs.
use agents_universe.Prelude.{
  ℕ, ◌<◌, ◌≡◌, ◌↔◌, refl, true, false, Option, none, some, List, [], ◌∷◌, if◌then◌else◌, ◌==◌,
}
use agents_universe.Prelude.Text.{
  Text, codes, isascii, strip, lstrip, split_on, starts_with, ends_with, contains,
}
use agents_universe.Prelude.TextSet.{same, elem}
use agents_universe.Prelude.Fallible.{each}
use agents_universe.Ssrf.{
  Address, Url, no_port, blocked_ip, is_special, is_ip_blocked, is_ip_blocked_in, idna_host, digit,
  digits_from, all_digits, is_x, is_hex, behind_prefix, int_of, has_leading_zero, component, bytes,
  join_from, is_numeric_char, is_numeric_rest, is_numeric_host, inet_aton, inet_aton_mapped,
  check_host, is_blocked_literal, validate_url, accepted,
}
use agents_universe.Ssrf.Numeric.{IsAton, inet_aton_iff}
use agents_universe.Ssrf.Guard.{IsSafe, validate_url_iff}

abbrev local : Address
local = record {
  is_loopback = true;
  is_private = true;
  is_link_local = false;
  is_multicast = false;
  is_reserved = false;
  is_unspecified = false;
  is_global = false;
  mapped = none;
}

abbrev addresses : Text → Option Address
addresses ip = if same ip (codes "127.0.0.1") then some local else none

abbrev dotted : ℕ → Text
dotted n = if n == 2_130_706_433 then codes "127.0.0.1" else []

abbrev url : Text → Url
url host = record { scheme = codes "http"; hostname = some host; port = no_port }

-- The address of the machine itself, in three spellings.
spellings :
    ◌≡◌ {A = List (Option ℕ)}
      (inet_aton (codes "2130706433")
        ∷ inet_aton (codes "0x7f.1")
        ∷ inet_aton (codes "0177.0.1")
        ∷ [])
      (some 2_130_706_433 ∷ some 2_130_706_433 ∷ some 2_130_706_433 ∷ [])
unfolding inet_aton is_numeric_host is_numeric_rest is_numeric_char is_x starts_with ends_with
    contains split_on each component is_hex behind_prefix has_leading_zero int_of all_digits
    digits_from digit strip lstrip join_from bytes
spellings = refl

inet_aton_iff_example :
    (inet_aton (codes "0x7f.1") ≡ some 2_130_706_433)
    ↔ (IsAton (codes "0x7f.1") 2_130_706_433 × (2_130_706_433 < 4_294_967_296))
inet_aton_iff_example = inet_aton_iff (codes "0x7f.1") 2_130_706_433

blocked_spelling :
    validate_url addresses (λ host. none) dotted (λ t. t) false (url (codes "0x7f.1")) ≡ blocked_ip
unfolding validate_url check_host is_blocked_literal is_ip_blocked is_ip_blocked_in is_special
    idna_host isascii inet_aton_mapped same elem inet_aton is_numeric_host is_numeric_rest
    is_numeric_char is_x starts_with ends_with contains split_on each component is_hex behind_prefix
    has_leading_zero int_of all_digits digits_from digit strip lstrip join_from bytes
blocked_spelling = refl

validate_url_iff_example :
    (validate_url addresses (λ host. none) dotted (λ t. t) false (url (codes "0x7f.1")) ≡ accepted)
    ↔ IsSafe addresses (λ host. none) dotted (λ t. t) false (url (codes "0x7f.1"))
validate_url_iff_example =
    validate_url_iff addresses (λ host. none) dotted (λ t. t) false (url (codes "0x7f.1"))
