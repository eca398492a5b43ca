-- ===== src/Floppy/Geometry.antt =====
-- Cylinders, heads and sectors.
use native.Mathlib.Nat.{mod-lt, div-add-mod, div-lt_iff_lt-mul, mul_comm}
use cyb_os.Prelude.{ℕ, ◌+◌, ◌-◌, ◌*◌, ◌/◌, ◌%◌, ◌≤◌, ◌<◌, ◌≡◌, arith, some}
use cyb_os.Floppy.State.{DriveInfo}
use cyb_os.Floppy.Drive.{fdc_convert_lba_to_chs}

put_together :
    (q u r spt heads : ℕ) {t lba : ℕ}
    → spt * heads * q + t ≡ lba
    → spt * u + r ≡ t
    → (q * heads + u) * spt + (r + 1 - 1) ≡ lba
put_together q u r spt heads e f = grind arith

-- For a drive with heads and sectors and a sector of the disk: the cylinder, the head and the sector (which counts from
-- 1) that `fdc_convert_LBA_to_CHS` works out are those of the disk, and the sectors in front of that place are as many
-- as the number says.
pub fdc_convert_lba_to_chs_lem :
    (info : DriveInfo) (lba : ℕ)
    → 0 < info.sectors_per_track
    → 0 < info.max_head
    → lba < info.max_cylinder * (info.sectors_per_track * info.max_head)
    → (c h s : ℕ) × (fdc_convert_lba_to_chs info lba ≡ some (c, h, s))
      × (c < info.max_cylinder)
      × (h < info.max_head)
      × (1 ≤ s)
      × (s ≤ info.sectors_per_track)
      × ((c * info.max_head + h) * info.sectors_per_track + (s - 1) ≡ lba)
unfolding fdc_convert_lba_to_chs
fdc_convert_lba_to_chs_lem info lba spt heads lt =
    let per = info.sectors_per_track * info.max_head in
    let pos : 0 < per = grind arith in
    let tmp = lba % per in
    let split = div-add-mod lba per in
    let again = div-add-mod tmp info.sectors_per_track in
    let tmp_lt : tmp < per = mod-lt lba pos in
    let rest_lt : tmp % info.sectors_per_track < info.sectors_per_track = mod-lt tmp spt in
    (
      lba / per,
      tmp / info.sectors_per_track,
      tmp % info.sectors_per_track + 1,
      ground arith,
      (div-lt_iff_lt-mul pos).1 lt,
      (div-lt_iff_lt-mul spt).1 (rw (mul_comm info.max_head info.sectors_per_track) tmp_lt),
      omega arith,
      omega arith,
      put_together (lba / per) (tmp / info.sectors_per_track) (tmp % info.sectors_per_track)
          info.sectors_per_track info.max_head split again,
    )
