-- ===== src/Vfs/Mount/Table.antt =====
-- What `sys_mount` does to the mount table.
use cyb_os.Prelude.{
  ℕ, zero, suc, ◌+◌, ◌%◌, ◌^◌, ◌≡◌, refl, ap, true, false, List, [], ◌∷◌, arith, ltb, ◌==◌, length,
  Option, none, some, get_elem?,
}
use cyb_os.Prelude.Run.{ok}
use cyb_os.Klib.Text.{strcmp}
use cyb_os.Vfs.Types.{Name, Node, MountPoint, System, Vfs, Drivers}
use cyb_os.Vfs.Lookup.{find_mount}
use cyb_os.Vfs.Mount.{find_slot, count_mount, change_mount, fill_slot}

change_mount-twice :
    (f g : MountPoint → MountPoint) (i : ℕ) (mounts : List MountPoint)
    → change_mount i f (change_mount i g mounts) ≡ change_mount i (λ slot. f (g slot)) mounts
unfolding change_mount
change_mount-twice f g i [] = refl
change_mount-twice f g zero (slot ∷ mounts) = refl
change_mount-twice f g (suc i) (slot ∷ mounts) =
    ap (λ l. slot ∷ l) (change_mount-twice f g i mounts)

-- The count leaves what the slot says of the file system.
count_mount-get :
    (i : ℕ) (systems : List System) (s : System)
    → get_elem? systems i ≡ some s
    → get_elem? (count_mount i systems) i
      ≡ some (record s { mount_count = (s.mount_count + 1) % 2 ^ 32 })
unfolding count_mount
count_mount-get i [] s h = ground arith
count_mount-get zero (slot ∷ systems) s h = ground arith
count_mount-get (suc i) (slot ∷ systems) s h = count_mount-get i systems s h

-- The first slot that is free is the first one of the name once it holds the name, when no other did.
pub find_mount-change :
    (name : Name) (f : MountPoint → MountPoint) (mounts : List MountPoint) (i : ℕ)
    → ((slot : MountPoint) → (f slot).enabled ≡ true)
    → ((slot : MountPoint) → strcmp (f slot).mount name ≡ 0)
    → find_mount name mounts ≡ none
    → find_slot false name mounts ≡ some i
    → find_mount name (change_mount i f mounts) ≡ some i
unfolding change_mount find_mount find_slot
find_mount-change name f [] i on named fresh free = ground arith
find_mount-change name f (slot ∷ mounts) zero on named fresh free =
    ground (arith, on slot, named slot)
find_mount-change name f (slot ∷ mounts) (suc i) on named fresh free =
    ground (arith, find_mount-change name f mounts i on named)

-- A changed slot that keeps its name is still the first one of it.
pub find_mount-changed :
    (name : Name) (f : MountPoint → MountPoint) (mounts : List MountPoint) (i : ℕ)
    → ((slot : MountPoint) → (f slot).enabled ≡ slot.enabled)
    → ((slot : MountPoint) → strcmp (f slot).mount name ≡ 0)
    → find_mount name mounts ≡ some i
    → find_mount name (change_mount i f mounts) ≡ some i
unfolding change_mount find_mount
find_mount-changed name f [] i on named found = ground arith
find_mount-changed name f (slot ∷ mounts) zero on named found = ground (arith, on slot, named slot)
find_mount-changed name f (slot ∷ mounts) (suc i) on named found =
    ground (arith, find_mount-changed name f mounts i on named)

pub change_mount-get :
    (f : MountPoint → MountPoint) (mounts : List MountPoint) (i : ℕ) (slot : MountPoint)
    → get_elem? mounts i ≡ some slot
    → get_elem? (change_mount i f mounts) i ≡ some (f slot)
unfolding change_mount
change_mount-get f [] i slot h = ground arith
change_mount-get f (s ∷ mounts) zero slot h =
    ap (λ o. elim o [ none ↦ none | some t ↦ some (f t) ]) h
change_mount-get f (s ∷ mounts) (suc i) slot h = change_mount-get f mounts i slot h

-- A slot as `sys_mount` fills it.
abbrev pub filled : ℕ → Option ℕ → Name → Option Node → MountPoint → MountPoint
filled system dev mount root slot = record slot {
  mount = mount;
  system = system;
  dev = dev;
  supernode = root;
}

-- The three changes of a slot in one.
change_mount-filled :
    (f : MountPoint → MountPoint) (i system : ℕ) (dev : Option ℕ) (mount : Name)
    (mounts : List MountPoint)
    → change_mount i f (
        change_mount i
          (λ slot. record slot { mount = mount })
          (change_mount i (λ slot. record slot { dev = dev; system = system }) mounts))
      ≡ change_mount i
          (λ slot. f (record slot { mount = mount; system = system; dev = dev }))
          mounts
unfolding change_mount
change_mount-filled f i system dev mount [] = refl
change_mount-filled f zero system dev mount (slot ∷ mounts) = refl
change_mount-filled f (suc i) system dev mount (slot ∷ mounts) =
    ap (λ l. slot ∷ l) (change_mount-filled f i system dev mount mounts)

module _ (drivers : Drivers) (i system : ℕ) (dev : Option ℕ) (mount path : Name) (v : Vfs)
    (s : System) (mount_fs : Option ℕ → Name → Option Node) (short : ltb (length mount) 10 ≡ true)
    (held : get_elem? v.systems system ≡ some s) (ops : (s.info.mountops == 0) ≡ false)
    (driver : drivers.mount s.info.mountops ≡ some mount_fs) where
  pub fill_slot-failed :
      mount_fs dev path ≡ none
      → fill_slot drivers i system dev mount path v
        ≡ ok false (record v {
          systems = count_mount system v.systems;
          mounts = change_mount i (filled system dev mount none) v.mounts;
        })
  unfolding fill_slot
  fill_slot-failed h = ground (
    arith,
    count_mount-get system v.systems s held,
    change_mount-filled (λ slot. record slot { supernode = none }) i system dev mount v.mounts,
  )

  pub fill_slot-done :
      (root : Node)
      → mount_fs dev path ≡ some root
      → fill_slot drivers i system dev mount path v
        ≡ ok true (record v {
          systems = count_mount system v.systems;
          mounts =
              change_mount i
                (λ slot. record (filled system dev mount (some root) slot) { enabled = true })
                v.mounts;
        })
  unfolding fill_slot
  fill_slot-done root h = ground (
    arith,
    count_mount-get system v.systems s held,
    change_mount-filled (λ slot. record slot { supernode = some root; enabled = true }) i system dev
        mount v.mounts,
  )
