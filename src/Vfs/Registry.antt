-- ===== src/Vfs/Registry.antt =====
-- The table of file systems: registration in vfs.c. The loops run over the slots of the table.
pub mod Slots
pub mod Removal
use cyb_os.Prelude.{
  ℕ, suc, ◌+◌, ◌%◌, ◌^◌, Bool, true, false, ◌&&◌, List, [], ◌∷◌, Option, none, some, ltb, ◌==◌,
  if◌then◌else◌,
}
use cyb_os.Klib.Text.{strcmp}
use cyb_os.Vfs.Types.{Name, Info, System}

-- The test that the loops share.
abbrev pub is_system : Name → System → Bool
is_system tag slot = slot.enabled && strcmp tag slot.info.tag == 0

unfoldable pub vfs_is_registered : Name → List System → Bool
vfs_is_registered tag [] = false
vfs_is_registered tag (slot ∷ systems) =
    if is_system tag slot then true else vfs_is_registered tag systems

unfoldable pub vfs_register_filesystem : Info → List System → Bool × List System
vfs_register_filesystem info [] = (false, [])
vfs_register_filesystem info (slot ∷ systems) =
    let rest = vfs_register_filesystem info systems in
    if slot.enabled
    then (rest.0, slot ∷ rest.1)
    else (true, record { enabled = true; info = info; mount_count = 0 } ∷ systems)

unfoldable pub vfs_unregister_filesystem : Name → List System → Bool × List System
vfs_unregister_filesystem tag [] = (false, [])
vfs_unregister_filesystem tag (slot ∷ systems) =
    let rest = vfs_unregister_filesystem tag systems in
    if is_system tag slot
    then if ltb 0 slot.mount_count
      then (false, slot ∷ systems)
      else (true, record slot { enabled = false } ∷ systems)
    else (rest.0, slot ∷ rest.1)

-- The index stands for the address of the slot.
unfoldable pub vfs_get_vfs_system : Name → List System → Option ℕ
vfs_get_vfs_system tag [] = none
vfs_get_vfs_system tag (slot ∷ systems) =
    if is_system tag slot
    then some 0
    else elim (vfs_get_vfs_system tag systems) [ none ↦ none | some i ↦ some (suc i) ]
