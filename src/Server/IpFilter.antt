-- ===== src/Server/IpFilter.antt =====
-- src/core/cccam3_server.c: the lists of allowed and of denied addresses, parse_ip_entry,
-- server_load_ip_lists, ip_match and server_ip_allowed. A text is the list of its bytes without the
-- final 0. An address is the 4 bytes of sin_addr, first octet first, in the order in which
-- htonl and the network store them; the number that the code compares is what the machine reads
-- from these bytes, so the byte order of the machine is an argument.
pub mod Parsing
pub mod Matching
mod Tests
use cccam_3_0_1_by_sharillas.Base.{
  ℕ, suc, zero, ◌+◌, ◌-◌, ◌*◌, ◌/◌, ◌^◌, Bool, true, false, ◌&&◌, ◌||◌, not, Option, none, some,
  List, [], ◌∷◌, ◌++◌, ltb, leb, ◌==◌, if◌then◌else◌, length, take,
}

abbrev pub max_ip_entries : ℕ
max_ip_entries = 64

unfoldable pub is_digit : ℕ → Bool
is_digit c = leb 48 c && leb c 57

-- The digits at the start of a text, and what follows them.
unfoldable pub span_digits : List ℕ → List ℕ × List ℕ
span_digits [] = ([], [])
span_digits (c ∷ cs) = let r = span_digits cs in if is_digit c then (c ∷ r.0, r.1) else ([], c ∷ cs)

-- `v = v * 10 + (*q - '0')` over the digits.
unfoldable pub digits_value : ℕ → List ℕ → ℕ
digits_value v [] = v
digits_value v (c ∷ cs) = digits_value (v * 10 + (c - 48)) cs

-- The octet that the digits spell, if there are 1 to 3 and it is at most 255.
unfoldable pub octet_of : List ℕ → Option ℕ
unfolding digits_value
octet_of digits =
    if length digits == 0 || ltb 3 (length digits)
    then none
    else (let v = digits_value 0 digits in if ltb 255 v then none else some v)

abbrev prepend : ℕ → Option (List ℕ) → Option (List ℕ)
prepend v none = none
prepend v (some vs) = some (v ∷ vs)

-- What follows an octet: the end of the text, or a point and `more` octets.
unfoldable pub after_octet : ℕ → (List ℕ → Option (List ℕ)) → List ℕ → Option (List ℕ)
after_octet v more [] = some (v ∷ [])
after_octet v more (c ∷ cs) = if c == 46 then prepend v (more cs) else none

-- The loop of `parse_ip_entry` while fewer than 4 octets are read, `n` more being allowed, and its
-- tests after the loop. The last of them, for a text that ends in a point, is not written: where
-- fewer than 4 octets were read, the byte before the end of the text is a digit of the last one.
unfoldable pub octets_from : ℕ → List ℕ → Option (List ℕ)
octets_from zero [] = some []
octets_from zero (c ∷ cs) = none
octets_from (suc n) p = elim (octet_of (span_digits p).0) [
  | none ↦ none
  | some v ↦ after_octet v (octets_from n) (span_digits p).1
]

-- `parse_ip_entry`: the octets that the text gives, whose number is the return value.
unfoldable pub parse_ip_entry : List ℕ → Option (List ℕ)
unfolding octets_from
parse_ip_entry entry = if length entry == 0 then none else octets_from 4 entry

-- ", \\t", at which strtok_r cuts.
unfoldable pub is_separator : ℕ → Bool
is_separator c = c == 44 || (c == 32 || c == 9)

abbrev push_token : List ℕ → List (List ℕ) → List (List ℕ)
push_token [] ts = ts
push_token (c ∷ cs) ts = (c ∷ cs) ∷ ts

-- The tokens of strtok_r, after the bytes of the one that has begun.
unfoldable pub tokens : List ℕ → List ℕ → List (List ℕ)
tokens begun [] = push_token begun []
tokens begun (c ∷ cs) =
    let on = tokens (begun ++ c ∷ []) cs in
    let off = tokens [] cs in if is_separator c then push_token begun off else on

-- The entries of a list that parse, at most `room` of them.
unfoldable pub entries : ℕ → List (List ℕ) → List (List ℕ)
entries room [] = []
entries zero (t ∷ ts) = []
entries (suc room) (t ∷ ts) = elim (parse_ip_entry t) [
  | none ↦ entries (suc room) ts
  | some octets ↦ octets ∷ entries room ts
]

-- One half of `server_load_ip_lists`: the text of the configuration is copied into 256 bytes.
unfoldable pub load_ip_list : List ℕ → List (List ℕ)
load_ip_list text = entries max_ip_entries (tokens [] (take 255 text))

pub data Endian : Type 0 where
  little big : Endian

-- The uint32_t that the machine reads from 4 bytes.
unfoldable pub word : Endian → ℕ → ℕ → ℕ → ℕ → ℕ
word little a b c d = a + b * 2 ^ 8 + c * 2 ^ 16 + d * 2 ^ 24
word big a b c d = a * 2 ^ 24 + b * 2 ^ 16 + c * 2 ^ 8 + d

-- `x & mask`, whose mask has the highest `prefix` bytes of four: the others are cleared.
unfoldable pub masked : ℕ → ℕ → ℕ
masked zero x = 0
masked (suc zero) x = x / 2 ^ 24 * 2 ^ 24
masked (suc (suc zero)) x = x / 2 ^ 16 * 2 ^ 16
masked (suc (suc (suc zero))) x = x / 2 ^ 8 * 2 ^ 8
masked (suc (suc (suc (suc n)))) x = x

-- An address, octet by octet.
pub record Address : Type 0 where
  pub first : ℕ
  pub second : ℕ
  pub third : ℕ
  pub fourth : ℕ

unfoldable pub address_word : Endian → Address → ℕ
unfolding word
address_word e a = word e a.first a.second a.third a.fourth

-- What `parse_ip_entry` stores: the octets that the entry does not give are 0.
unfoldable pub stored : List ℕ → Address
stored [] = record { first = 0; second = 0; third = 0; fourth = 0 }
stored (a ∷ []) = record { first = a; second = 0; third = 0; fourth = 0 }
stored (a ∷ b ∷ []) = record { first = a; second = b; third = 0; fourth = 0 }
stored (a ∷ b ∷ c ∷ []) = record { first = a; second = b; third = c; fourth = 0 }
stored (a ∷ b ∷ c ∷ d ∷ rest) = record { first = a; second = b; third = c; fourth = d }

-- The test of one round of `ip_match`.
unfoldable pub entry_matches : Endian → Address → List ℕ → Bool
unfolding masked address_word stored
entry_matches e ip octets =
    masked (length octets) (address_word e ip)
    == masked (length octets) (address_word e (stored octets))

unfoldable pub ip_match : Endian → Address → List (List ℕ) → Bool
ip_match e ip [] = false
ip_match e ip (octets ∷ rest) = let more = ip_match e ip rest in entry_matches e ip octets || more

-- `server_ip_allowed`
unfoldable pub ip_allowed : Endian → List (List ℕ) → List (List ℕ) → Address → Bool
ip_allowed e allow deny ip =
    if not (length deny == 0) && ip_match e ip deny
    then false
    else not (not (length allow == 0) && not (ip_match e ip allow))
