-- ===== src/Fat12/Fat.antt =====
-- The table of clusters: `fat12_get_next_cluster`, and the format that it reads.
use Prim.Native.Nat.{bit_and}
use cyb_os.Prelude.{
  ℕ, zero, suc, ◌+◌, ◌*◌, ◌/◌, ◌%◌, ◌^◌, ◌<◌, ◌≡◌, refl, ◌∙◌, arith, List, [], ◌∷◌, Option, none,
  some, get_elem?, ◌==◌, if◌then◌else◌, ap,
}
use cyb_os.Word.Bits.{bit_and-ones}

-- A `Uint16` in memory, the low byte first; `none` is a read past the end.
unfoldable pub u16_at : List ℕ → ℕ → Option ℕ
u16_at [] offset = none
u16_at (low ∷ []) offset = none
u16_at (low ∷ high ∷ bytes) zero = some (low + high * 256)
u16_at (low ∷ high ∷ bytes) (suc offset) = u16_at (high ∷ bytes) offset

-- Twelve bits of the two bytes: the low ones for an even cluster.
unfoldable pub entry_bits : (cluster next_cluster : ℕ) → ℕ
entry_bits cluster next_cluster =
    if bit_and cluster 1 == 0 then bit_and next_cluster 4095 else next_cluster / 2 ^ 4

unfoldable pub entry_of : (cluster : ℕ) → Option ℕ → Option ℕ
unfolding entry_bits
entry_of cluster none = none
entry_of cluster (some next_cluster) = some (entry_bits cluster next_cluster)

unfoldable pub fat12_get_next_cluster : (fat : List ℕ) → (cluster : ℕ) → Option ℕ
unfolding u16_at entry_of
fat12_get_next_cluster fat cluster = entry_of cluster (u16_at fat (cluster + cluster / 2))

-- The format: two entries of twelve bits in three bytes.
unfoldable pub pack : List ℕ → List ℕ
pack [] = []
pack (a ∷ []) = a % 256 ∷ a / 256 ∷ []
pack (a ∷ b ∷ entries) = a % 256 ∷ (a / 256 + b % 16 * 16) ∷ b / 16 ∷ pack entries

-- Twelve bits each.
unfoldable pub AllEntries : List ℕ → Type 0
AllEntries [] = Unit
AllEntries (a ∷ entries) = (a < 2 ^ 12) × AllEntries entries

-- Three bytes further on.
u16_at-skip :
    (a b c : ℕ) (bytes : List ℕ) (offset : ℕ)
    → u16_at (a ∷ b ∷ c ∷ bytes) (suc (suc (suc offset))) ≡ u16_at bytes offset
unfolding u16_at
u16_at-skip a b c [] zero = refl
u16_at-skip a b c [] (suc offset) = refl
u16_at-skip a b c (x ∷ bytes) offset = refl

even_entry : (i : ℕ) → bit_and (suc (suc i)) 1 ≡ bit_and i 1
even_entry i = omega (arith, bit_and-ones 1 i, bit_and-ones 1 (suc (suc i)))

entry_of-step : (i : ℕ) (o : Option ℕ) → entry_of (suc (suc i)) o ≡ entry_of i o
unfolding entry_of entry_bits
entry_of-step i none = refl
entry_of-step i (some next_cluster) = rw (even_entry i) refl

-- A cluster two places on is read three bytes on.
next_pair :
    (a b c : ℕ) (bytes : List ℕ) (i : ℕ)
    → fat12_get_next_cluster (a ∷ b ∷ c ∷ bytes) (suc (suc i)) ≡ fat12_get_next_cluster bytes i
unfolding fat12_get_next_cluster
next_pair a b c bytes i =
    let further : suc (suc i) + suc (suc i) / 2 ≡ suc (suc (suc (i + i / 2))) = omega arith in
    entry_of-step i (u16_at (a ∷ b ∷ c ∷ bytes) (suc (suc i) + suc (suc i) / 2))
    ∙ ap (λ o. entry_of i (u16_at (a ∷ b ∷ c ∷ bytes) o)) further
    ∙ ap (entry_of i) (u16_at-skip a b c bytes (i + i / 2))

-- The first two entries.
first_entry :
    (a b : ℕ) (bytes : List ℕ)
    → fat12_get_next_cluster (a ∷ b ∷ bytes) 0 ≡ some (entry_bits 0 (a + b * 256))
unfolding fat12_get_next_cluster entry_of u16_at
first_entry a b bytes = refl

second_entry :
    (a b c : ℕ) (bytes : List ℕ)
    → fat12_get_next_cluster (a ∷ b ∷ c ∷ bytes) 1 ≡ some (entry_bits 1 (b + c * 256))
unfolding fat12_get_next_cluster entry_of u16_at
second_entry a b c bytes = refl

last_bits : (a : ℕ) → a < 2 ^ 12 → entry_bits 0 (a % 256 + a / 256 * 256) ≡ a
unfolding entry_bits
last_bits a l = omega (arith, bit_and-ones 12 (a % 256 + a / 256 * 256), l)

even_bits : (a h : ℕ) → a < 2 ^ 12 → entry_bits 0 (a % 256 + (a / 256 + h % 16 * 16) * 256) ≡ a
unfolding entry_bits
even_bits a h l =
    let masked = bit_and-ones 12 (a % 256 + (a / 256 + h % 16 * 16) * 256) in
    omega (arith, masked, l)

odd_bits :
    (a b : ℕ) → a < 2 ^ 12 → b < 2 ^ 12 → entry_bits 1 (a / 256 + b % 16 * 16 + b / 16 * 256) ≡ b
unfolding entry_bits
odd_bits a b l m = omega (arith, l, m)

-- For every list of entries of twelve bits, packed two in three bytes, and every cluster that has an entry,
-- `fat12_get_next_cluster` reads that entry.
pub fat12_get_next_cluster-pack :
    (entries : List ℕ) (cluster e : ℕ)
    → AllEntries entries
    → get_elem? entries cluster ≡ some e
    → fat12_get_next_cluster (pack entries) cluster ≡ some e
unfolding pack AllEntries
fat12_get_next_cluster-pack [] cluster e all h = absurd (ground (arith, h))
fat12_get_next_cluster-pack (a ∷ []) zero e (l, all) h =
    first_entry (a % 256) (a / 256) [] ∙ ap some (last_bits a l) ∙ h
fat12_get_next_cluster-pack (a ∷ []) (suc cluster) e all h = absurd (ground (arith, h))
fat12_get_next_cluster-pack (a ∷ b ∷ entries) zero e (l, (m, all)) h =
    first_entry (a % 256) (a / 256 + b % 16 * 16) (b / 16 ∷ pack entries)
    ∙ ap some (even_bits a b l)
    ∙ h
fat12_get_next_cluster-pack (a ∷ b ∷ entries) (suc zero) e (l, (m, all)) h =
    second_entry (a % 256) (a / 256 + b % 16 * 16) (b / 16) (pack entries)
    ∙ ap some (odd_bits a b l m)
    ∙ h
fat12_get_next_cluster-pack (a ∷ b ∷ entries) (suc (suc cluster)) e (l, (m, all)) h =
    next_pair (a % 256) (a / 256 + b % 16 * 16) (b / 16) (pack entries) cluster
    ∙ fat12_get_next_cluster-pack entries cluster e all h
