-- ===== src/Server/IpFilter/Matching.antt =====
-- Which addresses an entry matches, in both byte orders.
use cccam_3_0_1_by_sharillas.Base.{
  ℕ, ◌≤◌, ◌<◌, ◌≡◌, ◌≢◌, ◌↔◌, ◌⊎◌, refl, true, false, List, [], ◌∷◌, ◌==◌, length, All, arith, inl,
  inr, Bool-cases, sym, ◌∙◌,
}
use mathlib.Core.Bool.{false≢true}
use cccam_3_0_1_by_sharillas.Server.IpFilter.{
  Endian, little, big, Address, word, masked, address_word, stored, entry_matches, ip_match,
  ip_allowed,
}

abbrev pub IsAddress : Address → Type 0
IsAddress a = (a.first < 256) × (a.second < 256) × (a.third < 256) × (a.fourth < 256)

-- The address lies in the network that the octets name: it starts with them.
abbrev pub InNetwork : Address → List ℕ → Type 0
InNetwork ip [] = Unit
InNetwork ip (a ∷ []) = ip.first ≡ a
InNetwork ip (a ∷ b ∷ []) = (ip.first ≡ a) × (ip.second ≡ b)
InNetwork ip (a ∷ b ∷ c ∷ []) = (ip.first ≡ a) × (ip.second ≡ b) × (ip.third ≡ c)
InNetwork ip (a ∷ b ∷ c ∷ d ∷ rest) =
    (ip.first ≡ a) × (ip.second ≡ b) × (ip.third ≡ c) × (ip.fourth ≡ d)

-- On a machine that stores the highest byte first, an entry matches the addresses of its network.
entry_matches_big :
    (ip : Address) (octets : List ℕ)
    → IsAddress ip
    → All (λ v. v < 256) octets
    → (entry_matches big ip octets ≡ true) ↔ InNetwork ip octets
unfolding entry_matches masked address_word word stored
entry_matches_big ip [] h o = ground arith
entry_matches_big ip (a ∷ []) h o = ground arith
entry_matches_big ip (a ∷ b ∷ []) h o = ground arith
entry_matches_big ip (a ∷ b ∷ c ∷ []) h o = ground arith
entry_matches_big ip (a ∷ b ∷ c ∷ d ∷ rest) h o = ground arith

-- The octets that a machine compares that stores the lowest byte first: the last ones of the
-- address, as many as the entry has, with the last of the 4 bytes that it stored.
abbrev pub EndsAs : Address → List ℕ → Type 0
EndsAs ip [] = Unit
EndsAs ip (a ∷ []) = ip.fourth ≡ 0
EndsAs ip (a ∷ b ∷ []) = (ip.third ≡ 0) × (ip.fourth ≡ 0)
EndsAs ip (a ∷ b ∷ c ∷ []) = (ip.second ≡ b) × (ip.third ≡ c) × (ip.fourth ≡ 0)
EndsAs ip (a ∷ b ∷ c ∷ d ∷ rest) =
    (ip.first ≡ a) × (ip.second ≡ b) × (ip.third ≡ c) × (ip.fourth ≡ d)

pub entry_matches_little :
    (ip : Address) (octets : List ℕ)
    → IsAddress ip
    → All (λ v. v < 256) octets
    → (entry_matches little ip octets ≡ true) ↔ EndsAs ip octets
unfolding entry_matches masked address_word word stored
entry_matches_little ip [] h o = ground arith
entry_matches_little ip (a ∷ []) h o = ground arith
entry_matches_little ip (a ∷ b ∷ []) h o = ground arith
entry_matches_little ip (a ∷ b ∷ c ∷ []) h o = ground arith
entry_matches_little ip (a ∷ b ∷ c ∷ d ∷ rest) h o = ground arith

abbrev pub Entries : List (List ℕ) → Type 0
Entries = All (λ octets. All (λ v. v < 256) octets)

-- The address lies in one of the networks.
abbrev pub InSome : Address → List (List ℕ) → Type 0
InSome ip [] = ⊥
InSome ip (octets ∷ rest) = InNetwork ip octets ⊎ InSome ip rest

ip_match_big :
    (ip : Address) (list : List (List ℕ))
    → IsAddress ip
    → Entries list
    → (ip_match big ip list ≡ true) ↔ InSome ip list
unfolding ip_match
ip_match_big ip [] h o = ((λ e. cc), λ e. absurd e)
ip_match_big ip (octets ∷ rest) h o =
    let here = entry_matches_big ip octets h o.0 in
    let there = ip_match_big ip rest h o.1 in
    elim (Bool-cases (entry_matches big ip octets)) [
      | inl t ↦ ((λ e. inl (here.0 t)), λ e. rw t refl)
      | inr f ↦ rw f (
        (λ e. inr (there.0 e)),
        λ e. elim e [ inl n ↦ absurd (false≢true (sym f ∙ here.1 n)) | inr m ↦ there.1 m ],
      )
    ]

denied_nonempty :
    (e : Endian) (allow : List (List ℕ)) (d : List ℕ) (ds : List (List ℕ)) (ip : Address)
    → ip_match e ip (d ∷ ds) ≡ true
    → ip_allowed e allow (d ∷ ds) ip ≡ false
unfolding ip_allowed
denied_nonempty e allow d ds ip h = ground arith

allowed_denied :
    (e : Endian) (allow deny : List (List ℕ)) (ip : Address)
    → ip_match e ip deny ≡ true
    → ip_allowed e allow deny ip ≡ false
unfolding ip_allowed ip_match
allowed_denied e allow [] ip h = absurd (cc)
allowed_denied e allow (d ∷ ds) ip h = denied_nonempty e allow d ds ip h

allowed_any :
    (e : Endian) (deny : List (List ℕ)) (ip : Address)
    → ip_match e ip deny ≡ false
    → ip_allowed e [] deny ip ≡ true
unfolding ip_allowed
allowed_any e deny ip h = ground arith

allowed_some :
    (e : Endian) (a : List ℕ) (allow deny : List (List ℕ)) (ip : Address)
    → ip_match e ip deny ≡ false
    → ip_allowed e (a ∷ allow) deny ip ≡ ip_match e ip (a ∷ allow)
unfolding ip_allowed
allowed_some e a allow deny ip h = ground arith

ip_allowed_outside :
    (allow deny : List (List ℕ)) (ip : Address)
    → IsAddress ip
    → Entries allow
    → ip_match big ip deny ≡ false
    → (InSome ip deny → ⊥)
    → (ip_allowed big allow deny ip ≡ true)
      ↔ ((InSome ip deny → ⊥) × ((allow ≡ []) ⊎ InSome ip allow))
ip_allowed_outside [] deny ip h oa f outside =
    ((λ e. (outside, inl refl)), λ c. allowed_any big deny ip f)
ip_allowed_outside (a ∷ allow) deny ip h oa f outside =
    let listed = ip_match_big ip (a ∷ allow) h oa in
    let same = allowed_some big a allow deny ip f in
    (
      (λ e. (outside, inr (listed.0 (sym same ∙ e)))),
      λ c. elim c.1 [ inl empty ↦ absurd (cc) | inr m ↦ same ∙ listed.1 m ],
    )

-- On a machine that stores the highest byte first the filter is what its two lists say: an address
-- is let in exactly if it lies in no network that is denied, and, where any are allowed, in one
-- of these.
pub ip_allowed_big :
    (allow deny : List (List ℕ)) (ip : Address)
    → IsAddress ip
    → Entries allow
    → Entries deny
    → (ip_allowed big allow deny ip ≡ true)
      ↔ ((InSome ip deny → ⊥) × ((allow ≡ []) ⊎ InSome ip allow))
ip_allowed_big allow deny ip h oa od = elim (Bool-cases (ip_match big ip deny)) [
  | inl t ↦
      let shut = allowed_denied big allow deny ip t in
      (
        (λ e. absurd (false≢true (sym shut ∙ e))),
        λ c. absurd (c.0 ((ip_match_big ip deny h od).0 t)),
      )
  | inr f ↦
      let outside : InSome ip deny → ⊥ =
        λ m. false≢true (sym f ∙ (ip_match_big ip deny h od).1 m) in
      ip_allowed_outside allow deny ip h oa f outside
]

-- Entries of fewer than 4 octets.
abbrev pub Networks : List (List ℕ) → Type 0
Networks = All (λ octets. (0 < length octets) × (length octets ≤ 3) × All (λ v. v < 256) octets)

EndsAs-network :
    (ip : Address) (octets : List ℕ)
    → 0 < length octets
    → length octets ≤ 3
    → EndsAs ip octets
    → ip.fourth ≡ 0
EndsAs-network ip [] a b e = absurd (omega (arith, a))
EndsAs-network ip (v ∷ []) a b e = e
EndsAs-network ip (v ∷ w ∷ []) a b e = e.1
EndsAs-network ip (v ∷ w ∷ x ∷ []) a b e = e.2
EndsAs-network ip (v ∷ w ∷ x ∷ y ∷ rest) a b e = absurd (omega (arith, b))

-- On a machine that stores the lowest byte first, as x86 and ARM do, an entry of fewer than 4 octets
-- matches no address whose last octet is not 0.
ip_match_network :
    (ip : Address) (list : List (List ℕ))
    → IsAddress ip
    → Networks list
    → ip.fourth ≢ 0
    → ip_match little ip list ≡ false
unfolding ip_match
ip_match_network ip [] h n host = refl
ip_match_network ip (octets ∷ rest) h n host = elim (Bool-cases (entry_matches little ip octets)) [
  | inl t ↦
      absurd
        (host (EndsAs-network ip octets n.0.0 n.0.1 ((entry_matches_little ip octets h n.0.2).0 t)))
  | inr f ↦ rw f (ip_match_network ip rest h n.1 host)
]

-- With lists of networks only, the filter of such a machine denies no address that does not end in
-- 0, whatever networks are denied, and lets none in once any network is allowed.
pub ip_allowed-Networks :
    (allow deny : List (List ℕ)) (ip : Address)
    → IsAddress ip
    → Networks allow
    → Networks deny
    → ip.fourth ≢ 0
    → ip_allowed little allow deny ip ≡ (length allow == 0)
unfolding ip_allowed
ip_allowed-Networks allow deny ip h na nd host =
    ground (arith, ip_match_network ip allow h na host, ip_match_network ip deny h nd host)
