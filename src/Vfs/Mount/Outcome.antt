-- ===== src/Vfs/Mount/Outcome.antt =====
-- The outcomes of `sys_mount` of vfs.c, and what a path through the new mount leads to.
use cyb_os.Prelude.{
  ℕ, ◌≡◌, refl, true, false, ◌∷◌, ◌++◌, arith, ltb, ◌==◌, length, inl, inr, ◌⊎◌, Option, none, some,
  get_elem?,
}
use cyb_os.Prelude.Run.{ok, fault}
use cyb_os.Klib.Text.Order.{strcmp_refl}
use cyb_os.Vfs.Types.{Name, Node, MountPoint, System, Vfs, Drivers}
use cyb_os.Vfs.Registry.{vfs_get_vfs_system}
use cyb_os.Vfs.Lookup.{find_mount, follow, vfs_get_node_from_path}
use cyb_os.Vfs.Lookup.Colon.{Lacks, vsf_get_mount_lem}
use cyb_os.Vfs.Mount.{is_remount, find_slot, count_mount, change_mount, find_device, sys_mount}
use cyb_os.Vfs.Mount.Table.{find_mount-changed, change_mount-get, filled, fill_slot-failed}

module _ (drivers : Drivers) where
  -- Without the remount option, `sys_mount` of a name that is mounted, or of a file system that is not
  -- registered, fails and changes nothing, whatever the device path is.
  pub sys_mount-refuses :
      (fuel : ℕ) (garbage : Node) (device_path : Option Name) (fs_type mount path : Name)
      (mount_options : ℕ) (v : Vfs) (i : ℕ)
      → (vfs_get_vfs_system fs_type v.systems ≡ none)
        ⊎ ((is_remount mount_options ≡ false) × (find_mount mount v.mounts ≡ some i))
      → sys_mount drivers fuel garbage device_path fs_type mount path mount_options v ≡ ok false v
  unfolding sys_mount
  sys_mount-refuses fuel garbage device_path fs_type mount path mount_options v i (inl h) =
      ground arith
  sys_mount-refuses fuel garbage device_path fs_type mount path mount_options v i (inr (h, taken)) =
      ground arith

  -- A remount of a mount without a device, whose name has at most nine bytes and no colon, and whose own slot is the one
  -- that the search for a slot finds, as when no slot in front of it is free: if the file system is registered and its
  -- mount refuses, the slot loses its root and stays enabled, and the next look at an absolute path of that
  -- mount reads through NULL.
  pub sys_mount-remount_fault :
      (fuel fuel' : ℕ) (garbage : Node) (fs_type mount path below : Name) (mount_options : ℕ)
      (v : Vfs) (system i : ℕ) (s : System) (mount_fs : Option ℕ → Name → Option Node)
      (slot : MountPoint)
      → vfs_get_vfs_system fs_type v.systems ≡ some system
      → get_elem? v.systems system ≡ some s
      → (s.info.mountops == 0) ≡ false
      → drivers.mount s.info.mountops ≡ some mount_fs
      → mount_fs none path ≡ none
      → ltb (length mount) 10 ≡ true
      → is_remount mount_options ≡ true
      → find_slot true mount v.mounts ≡ some i
      → find_mount mount v.mounts ≡ some i
      → get_elem? v.mounts i ≡ some slot
      → Lacks b':' mount
      → (let v' = record v {
        systems = count_mount system v.systems;
        mounts = change_mount i (filled system none mount none) v.mounts;
      } in
          (sys_mount drivers fuel garbage none fs_type mount path mount_options v ≡ ok false v')
          × (vfs_get_node_from_path drivers fuel' garbage (mount ++ (b':' ∷ b'/' ∷ below)) v'
              ≡ fault))
  unfolding sys_mount find_device vfs_get_node_from_path follow
  sys_mount-remount_fault fuel fuel' garbage fs_type mount path below mount_options v system i s
        mount_fs slot registered held ops driver failed short again free found here clean =
      (
        ground (
          arith,
          fill_slot-failed drivers i system none mount path v s mount_fs short held ops driver
              failed,
        ),
        ground (
          arith,
          vsf_get_mount_lem mount (b'/' ∷ below)
              (record v {
                systems = count_mount system v.systems;
                mounts = change_mount i (filled system none mount none) v.mounts;
              })
              clean,
          find_mount-changed mount (filled system none mount none) v.mounts i (λ slot. refl)
              (λ slot. strcmp_refl mount) found,
          change_mount-get (filled system none mount none) v.mounts i slot here,
        ),
      )
