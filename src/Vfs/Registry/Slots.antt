-- ===== src/Vfs/Registry/Slots.antt =====
-- Registering and unregistering a file system.
use cyb_os.Prelude.{
  ◌≡◌, refl, Bool, true, false, ◌&&◌, ◌||◌, not, List, [], ◌∷◌, arith, ◌==◌, length,
}
use cyb_os.Klib.Text.{strcmp}
use cyb_os.Vfs.Types.{Name, Info, System}
use cyb_os.Vfs.Registry.{vfs_is_registered, vfs_register_filesystem}

-- Whether every slot is taken.
abbrev pub is_full : List System → Bool
is_full [] = true
is_full (slot ∷ systems) = slot.enabled && is_full systems

-- `vfs_register_filesystem` succeeds exactly when a slot is free. Then the new tag is registered,
-- beside every tag that was, the table is as long as before; and a full table stays as it is.
pub vfs_register_filesystem_lem :
    (info : Info) (systems : List System) (tag : Name)
    → let (done, systems') = vfs_register_filesystem info systems in
      (done ≡ not (is_full systems))
      × (vfs_is_registered tag systems'
          ≡ (vfs_is_registered tag systems || (done && strcmp tag info.tag == 0)))
      × (length systems' ≡ length systems)
      × (done ≡ false → systems' ≡ systems)
unfolding vfs_register_filesystem vfs_is_registered
vfs_register_filesystem_lem info [] tag = (refl, refl, refl, λ _. refl)
vfs_register_filesystem_lem info (slot ∷ systems) tag =
    ground (arith, vfs_register_filesystem_lem info systems tag)
