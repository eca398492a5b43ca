-- ===== src/Floppy/State.antt =====
-- The structures of floppy.h, and what the driver cannot see of the controller.
use cyb_os.Prelude.{ℕ, ◌==◌, ◌&&◌, Bool, if◌then◌else◌, Option, none, some, List, [], ◌∷◌}
use cyb_os.Prelude.Run.{Cmd, gets, modify}
use cyb_os.Port.{Access, Io, Hardware}

-- `fdc_driveinfo_t`
pub record DriveInfo : Type 0 where
  pub driveinfo : ℕ
  pub max_cylinder : ℕ
  pub max_head : ℕ
  pub sectors_per_track : ℕ
  pub gap3 : ℕ
  pub sector_dtl : ℕ
  pub step_rate : ℕ
  pub load_time : ℕ
  pub unload_time : ℕ
  pub use_pio : ℕ

abbrev pub no_info : DriveInfo
no_info = record {
  driveinfo = 0;
  max_cylinder = 0;
  max_head = 0;
  sectors_per_track = 0;
  gap3 = 0;
  sector_dtl = 0;
  step_rate = 0;
  load_time = 0;
  unload_time = 0;
  use_pio = 0;
}

-- `driveinfo`, the table by type.
abbrev pub driveinfo_table : List DriveInfo
driveinfo_table =
    no_info
    ∷ no_info
    ∷ no_info
    ∷ no_info
    ∷ record {
      driveinfo = 0;
      max_cylinder = 80;
      max_head = 2;
      sectors_per_track = 18;
      gap3 = 27;
      sector_dtl = 2;
      step_rate = 2;
      load_time = 8;
      unload_time = 5;
      use_pio = 0;
    }
    ∷ no_info
    ∷ no_info
    ∷ no_info
    ∷ []

-- `fdc_result_t`
pub record FdcResult : Type 0 where
  pub st0 : ℕ
  pub st1 : ℕ
  pub st2 : ℕ
  pub track : ℕ
  pub head : ℕ
  pub sector : ℕ
  pub size : ℕ

-- `fdc_drive_t`, less the way back to its controller.
pub record FdcDrive : Type 0 where
  pub drive_num : ℕ
  pub drive_type : ℕ
  pub cur_cylinder : ℕ
  pub cur_head : ℕ
  pub cur_sector : ℕ
  pub driveinfo : DriveInfo
  pub result : FdcResult

-- `fdc_t`, less its drives; the address and the size of the DMA buffer.
pub record Fdc : Type 0 where
  pub controller_num : ℕ
  pub base_address : ℕ
  pub version : ℕ
  pub dma_buffer : ℕ
  pub dma_size : ℕ

-- `&fdc[c].drives[d]`
pub record DrivePlace : Type 0 where
  pub controller : ℕ
  pub drive : ℕ

pub record Floppy : Type 0 where
  pub fdc : ℕ → Fdc
  pub drives : DrivePlace → FdcDrive
  pub current_drive : DrivePlace
  pub received_irq : Bool
  -- Whether `_current_task` is set, and whether interrupts are enabled.
  pub has_task : Bool
  pub ints_enabled : Bool
  -- The devices of the driver: the minor number and the drive.
  pub registered : List (ℕ × DrivePlace)

-- The ports, whether an interrupt comes after the accesses so far, and the DMA buffer after them.
pub record Controller : Type 0 where
  pub ports : Hardware
  pub interrupt : List Access → Bool
  pub transferred : List Access → List ℕ

abbrev pub own : {A : Type 0} → (Floppy → A) → Cmd (Io Floppy) A
own f = gets (λ s. f s.own)

abbrev pub change : (Floppy → Floppy) → Cmd (Io Floppy) (Unit {0})
change f = modify (λ s. record s { own = f s.own })

-- `_currentDrive`, and its controller.
abbrev pub current : Cmd (Io Floppy) FdcDrive
current = own (λ f. f.drives f.current_drive)

abbrev pub current_fdc : Cmd (Io Floppy) Fdc
current_fdc = own (λ f. f.fdc f.current_drive.controller)

abbrev pub set_drive : DrivePlace → FdcDrive → Cmd (Io Floppy) (Unit {0})
set_drive place to = change (λ f. record f {
  drives =
      λ p. if p.controller == place.controller && p.drive == place.drive then to else f.drives p;
})

abbrev pub set_fdc : ℕ → Fdc → Cmd (Io Floppy) (Unit {0})
set_fdc c to = change (λ f. record f { fdc = λ n. if n == c then to else f.fdc n })

-- The drive of a minor number, as the list of device.c keeps it.
unfoldable pub find_minor : ℕ → List (ℕ × DrivePlace) → Option DrivePlace
find_minor minor [] = none
find_minor minor ((m, place) ∷ rest) = if m == minor then some place else find_minor minor rest
