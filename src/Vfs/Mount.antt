-- ===== src/Vfs/Mount.antt =====
-- `sys_mount` of vfs.c.
pub mod Table
pub mod Outcome
use Prim.Native.Nat.{bit_and}
use cyb_os.Prelude.{
  ℕ, zero, suc, ◌+◌, ◌%◌, ◌^◌, Bool, true, false, ◌&&◌, not, List, [], ◌∷◌, Option, none, some, ltb,
  ◌==◌, if◌then◌else◌, get_elem?, set, length,
}
use cyb_os.Prelude.Run.{fault, Cmd, pure, ◌>>=◌, ◌>>◌, gets, modify, return}
use cyb_os.Klib.Text.{strcmp}
use cyb_os.Vfs.Types.{Name, Node, kind, System, MountPoint, Vfs, Drivers, fs_blockdevice}
use cyb_os.Vfs.Registry.{vfs_get_vfs_system}
use cyb_os.Vfs.Lookup.{find_mount, vfs_get_node_from_path}

-- `mount_options & MOUNTOPTION_REMOUNT`
abbrev pub is_remount : ℕ → Bool
is_remount mount_options = not (bit_and mount_options 1 == 0)

-- The first slot that the last loop does not skip.
unfoldable pub find_slot : Bool → Name → List MountPoint → Option ℕ
find_slot remount mount [] = none
find_slot remount mount (slot ∷ mounts) =
    if slot.enabled && (if remount then not (strcmp slot.mount mount == 0) else true)
    then elim (find_slot remount mount mounts) [ none ↦ none | some i ↦ some (suc i) ]
    else some 0

-- `mount_count++` of slot `i`.
unfoldable pub count_mount : ℕ → List System → List System
count_mount i [] = []
count_mount zero (slot ∷ systems) =
    record slot { mount_count = (slot.mount_count + 1) % 2 ^ 32 } ∷ systems
count_mount (suc i) (slot ∷ systems) = slot ∷ count_mount i systems

-- A change of slot `i` of the mount table.
unfoldable pub change_mount : ℕ → (MountPoint → MountPoint) → List MountPoint → List MountPoint
change_mount i f [] = []
change_mount zero f (slot ∷ mounts) = f slot ∷ mounts
change_mount (suc i) f (slot ∷ mounts) = slot ∷ change_mount i f mounts

module _ (drivers : Drivers) where
  -- The device that `device_path` names: `none` when the call fails, `some none` for no device.
  unfoldable pub find_device : ℕ → Node → Option Name → Cmd Vfs (Option (Option ℕ))
  find_device fuel garbage none = pure (some none)
  find_device fuel garbage (some device_path) = do
    found ← vfs_get_node_from_path drivers fuel garbage device_path
    pure (elim found [
      | none ↦ none
      | some dev_node ↦
          if kind dev_node == fs_blockdevice
          then elim (drivers.device_get_device dev_node.major_num dev_node.minor_num) [
            | none ↦ none
            | some dev ↦ some (some dev)
          ]
          else none
    ])

  -- The body of the last loop at slot `i`. `mount` is copied into an array of 10 bytes.
  unfoldable pub fill_slot : (i system : ℕ) → Option ℕ → (mount path : Name) → Cmd Vfs Bool
  fill_slot i system dev mount path = do
    modify (λ v. record v {
      systems = count_mount system v.systems;
      mounts = change_mount i (λ slot. record slot { dev = dev; system = system }) v.mounts;
    })
    if ltb (length mount) 10 then return else (λ _. fault)
    modify
        (λ v. record v { mounts = change_mount i (λ slot. record slot { mount = mount }) v.mounts })
    systems ← gets (λ v. v.systems)
    elim (get_elem? {A = System} systems system) [
      | none ↦ λ _. fault
      | some slot ↦
          elim (if slot.info.mountops == 0 then none else drivers.mount slot.info.mountops) [
            | none ↦ pure false
            | some mount_fs ↦ elim (mount_fs dev path) [
              | none ↦
                  modify (λ v. record v {
                    mounts = change_mount i (λ s. record s { supernode = none }) v.mounts;
                  })
                  >> pure false
              | some supernode ↦
                  modify (λ v. record v {
                    mounts =
                        change_mount i
                          (λ s. record s { supernode = some supernode; enabled = true }) v.mounts;
                  })
                  >> pure true
            ]
          ]
    ]

  unfoldable pub sys_mount : ℕ → Node → Option Name → (fs_type mount path : Name) → ℕ → Cmd Vfs Bool
  unfolding find_device
  sys_mount fuel garbage device_path fs_type mount path mount_options = do
    systems ← gets (λ v. v.systems)
    mounts ← gets (λ v. v.mounts)
    elim (vfs_get_vfs_system fs_type systems) [
      | none ↦ pure false
      | some system ↦ elim (if is_remount mount_options then none else find_mount mount mounts) [
        | some taken ↦ pure false
        | none ↦ do
          found ← find_device fuel garbage device_path
          elim found [
            | none ↦ pure false
            | some dev ↦ elim (find_slot (is_remount mount_options) mount mounts) [
              | none ↦ pure false
              | some i ↦ fill_slot i system dev mount path
            ]
          ]
      ]
    ]
