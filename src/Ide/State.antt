-- ===== src/Ide/State.antt =====
-- The structures of ide.h and ide_partitions.h.
use cyb_os.Prelude.{
  ℕ, ◌+◌, ◌==◌, ◌&&◌, Bool, if◌then◌else◌, Option, none, some, List, [], ◌∷◌, ◌++◌, length, take,
  drop, ltb,
}
use cyb_os.Prelude.Run.{ok, fault, Cmd, gets, modify}
use cyb_os.Vfs.Types.{Name}
use cyb_os.Port.{Io}

-- Where a channel and a drive are: `&ide_controllers[c].channel[n].drive[d]`.
pub record Place : Type 0 where
  pub controller : ℕ
  pub channel : ℕ
  pub drive : ℕ

pub data DriveType : Type 0 where
  ata : DriveType
  atapi : DriveType

-- `ide_drive_t`, less the way back to its channel.
pub record Drive : Type 0 where
  pub enabled : Bool
  pub type : DriveType
  pub size : ℕ
  pub signature : ℕ
  pub capabilities : ℕ
  pub command_sets : ℕ
  pub model : List ℕ
  pub lba48 : Bool
  pub databuf : List ℕ

-- `ide_channel_t`, less its drives.
pub record Channel : Type 0 where
  pub base : ℕ
  pub dev_ctl : ℕ
  pub no_int : ℕ
  pub bm_ide : ℕ

-- `ide_partition_t`
pub record Partition : Type 0 where
  pub drive : Place
  pub lba_start : ℕ
  pub lba_end : ℕ
  pub lba_size : ℕ
  pub bootable : ℕ
  pub system_id : ℕ

-- What `device->data` points to.
pub data Target : Type 0 where
  drive : Place → Target
  partition : Partition → Target

-- A device that the driver has registered.
pub record Registered : Type 0 where
  pub major_num : ℕ
  pub minor_num : ℕ
  pub target : Target
  pub filename : Name

pub record Ide : Type 0 where
  pub channels : (controller channel : ℕ) → Channel
  pub drives : Place → Drive
  pub controllers_enabled : ℕ → Bool
  pub irq_invoked : ℕ
  pub partitions_count : ℕ
  pub registered : List Registered

abbrev pub dev_major_ide : ℕ
dev_major_ide = 2

abbrev pub dev_major_hdc : ℕ
dev_major_hdc = 3

abbrev pub ide_sector_size : ℕ
ide_sector_size = 512

abbrev pub max_ide_controllers : ℕ
max_ide_controllers = 10

abbrev pub ide_controller_max_channels : ℕ
ide_controller_max_channels = 4

abbrev pub same_place : Place → Place → Bool
same_place p q = p.controller == q.controller && (p.channel == q.channel && p.drive == q.drive)

abbrev pub channel_of : Place → Cmd (Io Ide) Channel
channel_of place = gets (λ s. s.own.channels place.controller place.channel)

abbrev pub drive_at : Place → Cmd (Io Ide) Drive
drive_at place = gets (λ s. s.own.drives place)

abbrev pub set_channel : (controller channel : ℕ) → Channel → Cmd (Io Ide) (Unit {0})
set_channel controller channel to = modify (λ s. record s {
  own = record s.own {
    channels = λ c n. if c == controller && n == channel then to else s.own.channels c n;
  };
})

abbrev pub set_drive : Place → Drive → Cmd (Io Ide) (Unit {0})
set_drive place to = modify (λ s. record s {
  own = record s.own { drives = λ p. if same_place p place then to else s.own.drives p };
})

-- The device with these numbers, as the list of device.c keeps it.
unfoldable pub find_registered : (major_num minor_num : ℕ) → List Registered → Option Target
find_registered major_num minor_num [] = none
find_registered major_num minor_num (r ∷ rest) =
    if r.major_num == major_num && r.minor_num == minor_num
    then some r.target
    else find_registered major_num minor_num rest

-- `device_register`: numbers that are known are refused.
unfoldable pub register : Registered → Cmd (Io Ide) (Unit {0})
unfolding find_registered
register device = modify (λ s. record s {
  own = record s.own {
    registered = elim (find_registered device.major_num device.minor_num s.own.registered) [
      | none ↦ s.own.registered ++ (device ∷ [])
      | some _ ↦ s.own.registered
    ];
  };
})

-- The bytes that a read puts at a place of a buffer; past its end is a fault.
unfoldable pub write_at : {S : Type 0} → (position : ℕ) → (bytes buffer : List ℕ) → Cmd S (List ℕ)
write_at position bytes buffer s =
    if ltb (length buffer) (position + length bytes)
    then fault
    else ok (take position buffer ++ (bytes ++ drop (position + length bytes) buffer)) s
