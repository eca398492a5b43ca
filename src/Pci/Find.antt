-- ===== src/Pci/Find.antt =====
-- The searches against a reference: the first entry of the rest of the list that is enabled and fits.
use cyb_os.Prelude.{
  ℕ, zero, suc, ◌+◌, ◌-◌, ◌<◌, ◌≤◌, ◌≡◌, refl, arith, Bool, not, ◌&&◌, ◌==◌, if◌then◌else◌, Option,
  none, some, [], ◌∷◌, get_elem?, length, length-set, set, drop, ap, ◌∙◌, ◌⊎◌, inl, inr, Bool-cases,
}
use cyb_os.Prelude.Run.{ok, fault}
use native.Mathlib.Nat.{zero-add}
use native.Mathlib.Decide.{dec_lt}
use cyb_os.Pci.{
  PciDevice, PciList, free_slot_from, pci_max_devices, matches, cleared, find_from,
  pci_find_next_class,
}

-- Each entry knows its place, as `pci_init` sets it.
abbrev pub IsIndexed : PciList → Type 0
IsIndexed s =
    (length s ≡ pci_max_devices) × ((i : ℕ) (d : PciDevice) → get_elem? s i ≡ some d → d.index ≡ i)

-- The place of the first entry that is enabled and fits; the list begins at place `i`.
abbrev pub first_enabled : (PciDevice → Bool) → ℕ → PciList → Option ℕ
first_enabled fits i [] = none
first_enabled fits i (d ∷ rest) =
    if fits d && not (d.enabled == 0) then some i else first_enabled fits (i + 1) rest

-- The place behind that of `dev`.
abbrev pub behind : Option ℕ → ℕ
behind none = 0
behind (some i) = i + 1

get_elem?-cleared :
    (count k i : ℕ) (d : PciDevice) → get_elem? (cleared count k) i ≡ some d → d.index ≡ k + i
unfolding cleared
get_elem?-cleared zero k i d e = cc
get_elem?-cleared (suc count) k zero d e = ground arith
get_elem?-cleared (suc count) k (suc i) d e = omega (arith, get_elem?-cleared count (k + 1) i d e)

length-cleared : (count k : ℕ) → length (cleared count k) ≡ count
unfolding cleared
length-cleared zero k = refl
length-cleared (suc count) k = ap suc (length-cleared count (k + 1))

-- The list that `pci_init` begins with, and an entry that keeps its place.
pub cleared-IsIndexed : IsIndexed (cleared pci_max_devices 0)
cleared-IsIndexed = (
  length-cleared pci_max_devices 0,
  λ i d e. get_elem?-cleared pci_max_devices 0 i d e ∙ zero-add i,
)

get_elem?-set_index :
    (s : PciList) (i j : ℕ) (dev d : PciDevice)
    → get_elem? (set s i dev) j ≡ some d
    → ((i ≡ j) × (d ≡ dev)) ⊎ (get_elem? s j ≡ some d)
get_elem?-set_index [] i j dev d e = inr e
get_elem?-set_index (x ∷ s) zero zero dev d e = inl (refl, cc)
get_elem?-set_index (x ∷ s) zero (suc j) dev d e = inr e
get_elem?-set_index (x ∷ s) (suc i) zero dev d e = inr e
get_elem?-set_index (x ∷ s) (suc i) (suc j) dev d e = elim (get_elem?-set_index s i j dev d e) [
  | inl (same, f) ↦ inl (ap suc same, f)
  | inr f ↦ inr f
]

pub set-IsIndexed :
    (s : PciList) (i : ℕ) (dev : PciDevice) → dev.index ≡ i → IsIndexed s → IsIndexed (set s i dev)
set-IsIndexed s i dev own is = (
  length-set s i dev ∙ is.0,
  λ j d e. elim (get_elem?-set_index s i j dev d e) [ inl (same, f) ↦ cc | inr f ↦ is.1 j d f ],
)

-- A slot that is free is one of the list.
pub free_slot_from-bound :
    (list : PciList) (i j : ℕ) → free_slot_from list i ≡ some j → j < i + length list
unfolding free_slot_from
free_slot_from-bound [] i j e = absurd (ground (arith, e))
free_slot_from-bound (d ∷ list) i j e = elim (Bool-cases (d.enabled == 0)) [
  | inl free ↦
      let here : (some i) ≡ (some j) = ground (arith, free, e) in
      omega (arith, ap (λ (o : Option ℕ). elim o as (λ _. ℕ) [ none ↦ 0 | some k ↦ k ]) here)
  | inr used ↦
      let there : free_slot_from list (i + 1) ≡ some j = ground (arith, used, e) in
      omega (arith, free_slot_from-bound list (i + 1) j there)
]

drop_step :
    (s : PciList) (i : ℕ)
    → i < length s
    → (d : PciDevice) × (get_elem? s i ≡ some d) × (drop i s ≡ d ∷ drop (suc i) s)
drop_step [] i h = elim h [ ]
drop_step (d ∷ s) zero h = (d, refl, refl)
drop_step (d ∷ s) (suc i) h = drop_step s i (omega arith)

drop-length : (s : PciList) (i : ℕ) → length s ≤ i → drop i s ≡ []
drop-length [] zero h = refl
drop-length [] (suc i) h = refl
drop-length (d ∷ s) zero h = absurd (omega arith)
drop-length (d ∷ s) (suc i) h = drop-length s i (omega arith)

get_elem?-past : (s : PciList) (i : ℕ) → length s ≤ i → get_elem? s i ≡ none
get_elem?-past [] i h = refl
get_elem?-past (d ∷ s) zero h = absurd (omega arith)
get_elem?-past (d ∷ s) (suc i) h = get_elem?-past s i (omega arith)

add-one : (i : ℕ) → i + 1 ≡ suc i
add-one i = omega arith

find_from-first :
    (fuel : ℕ) (fits : PciDevice → Bool) (i : ℕ) (s : PciList)
    → IsIndexed s
    → i < pci_max_devices
    → pci_max_devices < fuel + i
    → find_from fuel fits i s ≡ ok (first_enabled fits i (drop i s)) s
unfolding find_from
find_from-first zero fits i s is lt k = absurd (omega arith)
find_from-first (suc fuel) fits i s is lt k =
    let (d, here, rest) = drop_step s i (omega (arith, is.0)) in
    let e : d.index ≡ i = is.1 i d here in
    let next : d.index + 1 ≡ suc i = omega arith in
    elim (dec_lt (suc i) pci_max_devices) [
      | yes more ↦
          let ih : find_from fuel fits (d.index + 1) s
              ≡ ok (first_enabled fits (i + 1) (drop (suc i) s)) s =
            rw next (rw (add-one i) (find_from-first fuel fits (suc i) s is more (omega arith))) in
          ground (arith, here, rest, ih)
      | no last ↦
          let none_left : drop (suc i) s ≡ [] = drop-length s (suc i) (omega (arith, is.0)) in
          ground (arith, here, rest, none_left)
    ]

-- On a list in which each entry knows its place, `pci_find_next_class` comes to its end in as many rounds as there are
-- entries and one more, for every device to go on from but the last one. It returns what the reference does: the first
-- entry behind the device (or of the whole list) that is enabled and has the class and the subclass, and NULL if
-- there is none.
pub pci_find_next_class-first :
    (fuel : ℕ) (dev class subclass : Option ℕ) (s : PciList)
    → IsIndexed s
    → behind dev < pci_max_devices
    → pci_max_devices < fuel
    → pci_find_next_class fuel dev class subclass s
      ≡ ok
          (first_enabled
            (λ d. matches class d.class && matches subclass d.subclass)
            (behind dev)
            (drop (behind dev) s))
          s
unfolding pci_find_next_class
pci_find_next_class-first fuel none class subclass s is lt k =
    find_from-first fuel (λ d. matches class d.class && matches subclass d.subclass) 0 s is lt
      (omega arith)
pci_find_next_class-first fuel (some i) class subclass s is lt k =
    let (d, here, rest) = drop_step s i (omega (arith, is.0)) in
    let e : d.index ≡ i = is.1 i d here in
    let found =
      find_from-first fuel (λ (d : PciDevice). matches class d.class && matches subclass d.subclass)
        (i + 1) s is lt (omega arith) in
    ground (arith, here, e, found)

-- The device in the last entry, of which `pci_find_next_class` reads the one behind it.
pub pci_find_next_class_fault :
    (fuel : ℕ) (class subclass : Option ℕ) (s : PciList)
    → IsIndexed s
    → 0 < fuel
    → pci_find_next_class fuel (some (pci_max_devices - 1)) class subclass s ≡ fault
unfolding pci_find_next_class find_from
pci_find_next_class_fault zero class subclass s is k = absurd (omega arith)
pci_find_next_class_fault (suc fuel) class subclass s is k =
    let (d, here, rest) = drop_step s 254 (omega (arith, is.0)) in
    let e : d.index ≡ 254 = is.1 254 d here in
    let out : get_elem? s 255 ≡ none = get_elem?-past s 255 (omega (arith, is.0)) in
    ground (arith, here, e, out)
