-- ===== src/Pci/Scan.antt =====
-- What the scan of the buses leaves in the list, and a search after it.
use cyb_os.Prelude.Run.{Run, ok, fault, panic, out_of_fuel, Cmd}
use cyb_os.Port.{Io}
use cyb_os.Pci.{PciList}
use cyb_os.Pci.Find.{IsIndexed}

-- It comes to its end with `P` of the state, or in a panic.
unfoldable pub EndsOrPanics : {S A : Type 0} → (S → Type 0) → Run S A → Type 0
EndsOrPanics P (ok a s) = P s
EndsOrPanics P fault = ⊥
EndsOrPanics P panic = Unit
EndsOrPanics P out_of_fuel = ⊥

-- A piece of code that, from a list in which each entry knows its place, ends with such a list or in a panic.
abbrev pub Keeps : {A : Type 0} → Cmd (Io PciList) A → Type 0
Keeps m = (s : Io PciList) → IsIndexed s.own → EndsOrPanics (λ s'. IsIndexed s'.own) (m s)
