-- ===== src/Readers/Dedup.antt =====
-- The ring of EMM hashes in cccam3_card_manager.c. The two arrays are functions of the slot.
use cccam_3_0_1_by_sharillas.Base.{
  ℕ, zero, suc, ◌+◌, ◌-◌, ◌*◌, ◌%◌, ◌^◌, ◌≤◌, ◌<◌, ◌≡◌, refl, Bool, true, false, ◌&&◌, ◌||◌, List,
  [], ◌∷◌, arith, ltb, ◌==◌, if◌then◌else◌, length, bit_xor, Bool-cases, ==_iff, ap, ◌∙◌, inl, inr,
}

abbrev pub dedup_slots : ℕ
dedup_slots = 64

abbrev pub dedup_window : ℕ
dedup_window = 60

pub record Ring : Type 0 where
  pub hash : ℕ → ℕ
  pub time : ℕ → ℕ
  pub slot : ℕ

-- FNV-1a over 64 bits.
pub emm_hash_from : ℕ → List ℕ → ℕ
emm_hash_from h [] = h
emm_hash_from h (b ∷ bs) = emm_hash_from (bit_xor h b * 0x100000001b3 % 2 ^ 64) bs

unfoldable pub emm_hash : List ℕ → ℕ
unfolding emm_hash_from
emm_hash bytes = emm_hash_from 0xcbf29ce484222325 bytes

unfoldable pub matches : Ring → ℕ → ℕ → ℕ → Bool
matches g h now i = g.hash i == h && ltb (now - g.time i) dedup_window

-- The loop over the slots below `n`.
unfoldable pub seen_below : Ring → ℕ → ℕ → ℕ → Bool
seen_below g h now zero = false
seen_below g h now (suc n) = seen_below g h now n || matches g h now n

unfoldable pub seen_recently : Ring → ℕ → ℕ → Bool
seen_recently g h now = seen_below g h now dedup_slots

abbrev pub update : (ℕ → ℕ) → ℕ → ℕ → ℕ → ℕ
update f i v j = if i == j then v else f j

unfoldable pub remember : Ring → ℕ → ℕ → Ring
remember g h now = record {
  hash = update g.hash g.slot h;
  time = update g.time g.slot now;
  slot = (g.slot + 1) % dedup_slots;
}

-- A history of hashes, each with the time at which it was stored, the oldest first.
unfoldable pub remember_all : Ring → List (ℕ × ℕ) → Ring
remember_all g [] = g
remember_all g ((h, now) ∷ rest) = remember_all (remember g h now) rest

update_self : (f : ℕ → ℕ) (i v : ℕ) → update f i v i ≡ v
update_self f i v = ground arith

seen_at :
    (g : Ring) (h now i n : ℕ)
    → i < n
    → g.hash i ≡ h
    → now - g.time i < dedup_window
    → seen_below g h now n ≡ true
unfolding seen_below matches
seen_at g h now i zero lt e t = absurd (omega arith)
seen_at g h now i (suc n) lt e t = elim (Bool-cases (i == n)) [
  | inl same ↦
      let here : i ≡ n = (==_iff i n).0 same in ground (arith, ap g.hash here, ap g.time here)
  | inr other ↦ ground (arith, seen_at g h now i n)
]

-- A slot is not written again until the ring has gone round.
remember_all-keeps :
    (g : Ring) (ks : List (ℕ × ℕ)) (i k : ℕ)
    → g.slot < dedup_slots
    → i < dedup_slots
    → (i + dedup_slots - g.slot) % dedup_slots ≡ k
    → length ks ≤ k
    → ((remember_all g ks).hash i ≡ g.hash i) × ((remember_all g ks).time i ≡ g.time i)
unfolding remember_all remember
remember_all-keeps g [] i k s b d l = (refl, refl)
remember_all-keeps g ((h, now) ∷ ks) i k s b d l =
    let rest =
      remember_all-keeps (remember g h now) ks i (k - 1) (omega arith) b (omega arith)
        (omega arith) in
    ground (arith, rest)

-- An EMM that was remembered is taken for a duplicate for less than a minute, as long as at most 63
-- others have been remembered since.
pub seen-remember :
    (g : Ring) (h at_time now : ℕ) (ks : List (ℕ × ℕ))
    → g.slot < dedup_slots
    → length ks ≤ 63
    → now < at_time + dedup_window
    → seen_recently (remember_all (remember g h at_time) ks) h now ≡ true
unfolding seen_recently remember
seen-remember g h at_time now ks s l t =
    let (same_hash, same_time) =
      remember_all-keeps (remember g h at_time) ks g.slot 63 (omega arith) s (omega arith) l in
    let time_kept : (remember_all (remember g h at_time) ks).time g.slot ≡ at_time =
      same_time ∙ update_self g.time g.slot at_time in
    seen_at (remember_all (remember g h at_time) ks) h now g.slot dedup_slots s
      (same_hash ∙ update_self g.hash g.slot h) (omega (arith, time_kept))
