-- ===== src/Device.antt =====
-- The list of devices of device.c.
pub mod Unlink
use cyb_os.Prelude.{
  ℕ, zero, suc, ◌+◌, Bool, true, false, ◌&&◌, List, [], ◌∷◌, Option, none, some, ◌==◌,
  if◌then◌else◌,
}
use cyb_os.Prelude.Run.{Run, ok, fault, panic, out_of_fuel, Cmd, pure, ◌>>=◌, ◌>>◌, gets, modify}
use cyb_os.Vfs.Types.{Name, Node, Vfs, Drivers, fs_blockdevice}
use cyb_os.Vfs.Lookup.{vfs_get_node_from_path}
use cyb_os.Vfs.Dispatch.{FileOps, vfs_mknod}

-- `device_t`, less its functions; `next` is an address, 0 is NULL.
pub record Device : Type 0 where
  pub major_num : ℕ
  pub minor_num : ℕ
  pub next : ℕ

-- The devices in memory, the head of the list, the tables of the VFS, and the state of the file systems.
pub record Devices (S : Type 0) : Type 0 where
  pub devices : ℕ → Device
  pub ll_devices : ℕ
  pub vfs : Vfs
  pub files : S

-- `DEVICE:/`
abbrev pub device_root : Name
device_root = b'D' ∷ b'E' ∷ b'V' ∷ b'I' ∷ b'C' ∷ b'E' ∷ b':' ∷ b'/' ∷ []

module _ {S : Type 0} where
  abbrev pub device_at : ℕ → Cmd (Devices S) Device
  device_at dev s = if dev == 0 then fault else ok (s.devices dev) s

  abbrev pub set_next : (dev next : ℕ) → Cmd (Devices S) (Unit {0})
  set_next dev next s =
      if dev == 0
      then fault
      else ok tt (record s {
        devices = λ p. if p == dev then record (s.devices dev) { next = next } else s.devices p;
      })

  unfoldable pub device_init : Cmd (Devices S) (Unit {0})
  device_init = modify (λ s. record s { ll_devices = 0 })

  -- The loops that compare the numbers: the device from `dev` on that has them, or NULL.
  unfoldable pub find_device_from : ℕ → (major_num minor_num dev : ℕ) → Cmd (Devices S) ℕ
  find_device_from zero major_num minor_num dev = λ _. out_of_fuel
  find_device_from (suc fuel) major_num minor_num dev = do
    let rest = (do d ← device_at dev; find_device_from fuel major_num minor_num d.next)
    if dev == 0 then pure 0 else (do
      d ← device_at dev
      if d.major_num == major_num && d.minor_num == minor_num then pure dev else rest)

  unfoldable pub device_get_device : ℕ → (major_num minor_num : ℕ) → Cmd (Devices S) ℕ
  device_get_device fuel major_num minor_num = do
    dev ← gets (λ s. s.ll_devices)
    find_device_from fuel major_num minor_num dev

  unfoldable pub last_device : ℕ → ℕ → Cmd (Devices S) ℕ
  last_device zero dev = λ _. out_of_fuel
  last_device (suc fuel) dev = do
    d ← device_at dev
    let rest = last_device fuel d.next
    if d.next == 0 then pure dev else rest

  -- The loop of `device_unregister`; `prev` is 0 at first.
  unfoldable pub unlink_from : ℕ → (dev prev tmp : ℕ) → Cmd (Devices S) Bool
  unlink_from zero dev prev tmp = λ _. out_of_fuel
  unlink_from (suc fuel) dev prev tmp = do
    let rest = (do t ← device_at tmp; unlink_from fuel dev tmp t.next)
    if tmp == 0 then pure false else (do
      t ← device_at tmp
      d ← device_at dev
      if t.major_num == d.major_num && t.minor_num == d.minor_num
          then (if prev == 0 then pure true else (set_next prev t.next >> pure true))
          else rest)

  unfoldable pub device_unregister : ℕ → ℕ → Cmd (Devices S) Bool
  device_unregister fuel dev = unlink_from fuel dev 0 dev

  -- The node of the device. When the lookup fails, `node` is what it was, which nothing initialises.
  unfoldable pub make_node :
      Drivers
      → (ℕ → FileOps S)
      → ℕ
      → (garbage : Node) → Name
      → (major_num minor_num : ℕ) → Cmd (Devices S) (Unit {0})
  make_node drivers ops fuel garbage filename major_num minor_num s =
      elim (vfs_get_node_from_path drivers fuel garbage device_root s.vfs) [
        | ok found v ↦
            let node : Node = elim found [ none ↦ garbage | some n ↦ n ] in
            ok tt (record s {
              vfs = v;
              files = vfs_mknod ops node filename fs_blockdevice major_num minor_num s.files;
            })
        | fault ↦ fault
        | panic ↦ panic
        | out_of_fuel ↦ out_of_fuel
      ]

  unfoldable pub device_register :
      Drivers → (ℕ → FileOps S) → ℕ → (garbage : Node) → (dev : ℕ) → Name → Cmd (Devices S) Bool
  device_register drivers ops fuel garbage dev filename = do
    first ← gets (λ s. s.ll_devices)
    d ← device_at dev
    let finish = make_node drivers ops fuel garbage filename d.major_num d.minor_num >> pure true
    if first == 0
        then (do modify (λ s. record s { ll_devices = dev }); set_next dev 0; finish)
        else (do
          known ← find_device_from fuel d.major_num d.minor_num first
          if known == 0
              then (do last ← last_device fuel first; set_next last dev; set_next dev 0; finish)
              else pure false)
