-- ===== src/Server/IpFilter/Tests.antt =====
-- The address filter on concrete lists, and instances of its theorems.
use cccam_3_0_1_by_sharillas.Base.{
  ℕ, ◌≡◌, ◌⊎◌, ◌↔◌, refl, true, some, none, List, [], ◌∷◌, arith, length, ◌==◌,
}
use cccam_3_0_1_by_sharillas.Server.IpFilter.{
  Address, little, big, parse_ip_entry, octets_from, after_octet, octet_of, span_digits, is_digit,
  digits_value, load_ip_list, entries, tokens, is_separator, ip_allowed,
}
use cccam_3_0_1_by_sharillas.Server.IpFilter.Parsing.{dotted, parse_ip_entry-dotted}
use cccam_3_0_1_by_sharillas.Server.IpFilter.Matching.{InSome, ip_allowed_big, ip_allowed-Networks}

-- "10.1, 7" and "300".
loaded : load_ip_list (49 ∷ 48 ∷ 46 ∷ 49 ∷ 44 ∷ 32 ∷ 55 ∷ []) ≡ (10 ∷ 1 ∷ []) ∷ (7 ∷ []) ∷ []
unfolding load_ip_list entries tokens is_separator parse_ip_entry octets_from after_octet octet_of
    span_digits is_digit digits_value
loaded = refl

too_large : parse_ip_entry (51 ∷ 48 ∷ 48 ∷ []) ≡ none
unfolding parse_ip_entry octets_from octet_of span_digits is_digit digits_value
too_large = refl

parse_ip_entry-dotted_example : parse_ip_entry (dotted (192 ∷ 168 ∷ [])) ≡ some (192 ∷ 168 ∷ [])
parse_ip_entry-dotted_example = parse_ip_entry-dotted 192 (168 ∷ []) (omega arith) (omega arith)

abbrev host : Address
host = record { first = 192; second = 168; third = 1; fourth = 20 }

abbrev home : List (List ℕ)
home = (192 ∷ 168 ∷ []) ∷ []

ip_allowed_big_example :
    (ip_allowed big home [] host ≡ true) ↔ ((InSome host [] → ⊥) × ((home ≡ []) ⊎ InSome host home))
ip_allowed_big_example = ip_allowed_big home [] host (omega arith) (omega arith) tt

ip_allowed-Networks_example : ip_allowed little home [] host ≡ (length home == 0)
ip_allowed-Networks_example =
    ip_allowed-Networks home [] host (omega arith) (omega arith) tt (λ h. omega (arith, h))
