-- ===== src/Vfs/Registry/Removal.antt =====
-- `vfs_unregister_filesystem`, which spares a file system in use.
use cyb_os.Prelude.{
  ℕ, zero, suc, ◌≡◌, refl, true, false, List, [], ◌∷◌, arith, ltb, if◌then◌else◌, none, some,
  get_elem?,
}
use cyb_os.Vfs.Types.{Name, System}
use cyb_os.Vfs.Registry.{vfs_unregister_filesystem, vfs_get_vfs_system}

-- The list with its element `i` changed by `f`.
abbrev pub at : (System → System) → ℕ → List System → List System
at f i [] = []
at f zero (slot ∷ systems) = f slot ∷ systems
at f (suc i) (slot ∷ systems) = slot ∷ at f i systems

-- Unregistering frees the slot that `vfs_get_vfs_system` finds, and no other, provided that no mount uses it;
-- it fails and changes nothing when a mount does or when the tag is not registered.
pub vfs_unregister_filesystem_lem :
    (tag : Name) (systems : List System)
    → vfs_unregister_filesystem tag systems ≡ (elim (vfs_get_vfs_system tag systems) [
      | none ↦ (false, systems)
      | some i ↦ elim (get_elem? {A = System} systems i) [
        | none ↦ (false, systems)
        | some slot ↦
            if ltb 0 slot.mount_count
            then (false, systems)
            else (true, at (λ s. record s { enabled = false }) i systems)
      ]
    ])
unfolding vfs_unregister_filesystem vfs_get_vfs_system
vfs_unregister_filesystem_lem tag [] = refl
vfs_unregister_filesystem_lem tag (slot ∷ systems) =
    ground (arith, vfs_unregister_filesystem_lem tag systems)
