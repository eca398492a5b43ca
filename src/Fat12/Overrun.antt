-- ===== src/Fat12/Overrun.antt =====
-- The table that `fat12_mount` reads does not fit its buffer.
use cyb_os.Prelude.{
  ℕ, zero, suc, ◌+◌, ◌*◌, ◌%◌, ◌^◌, ◌<◌, ◌≡◌, refl, none, if◌then◌else◌, arith, List, [], length,
  ltb, ◌==◌, true, false, replicate, length-replicate,
}
use cyb_os.Prelude.Run.{ok, fault}
use cyb_os.Fat12.Info.{Bpb, FatInfo, read_bpb, fat_info, read_fat, with_fat, fat12_mount}

module _ (disk : (offset size : ℕ) → List ℕ) where
  -- The first sector is written past the end of a buffer that is too small for it.
  read_fat_fault :
      (rounds : ℕ) (info : FatInfo) (fat : List ℕ)
      → length (
          disk
            ((info.fat_offset + 0) % 2 ^ 32 * info.bpb.bytes_per_sector % 2 ^ 32)
            info.bpb.bytes_per_sector)
        ≡ info.bpb.bytes_per_sector
      → length fat < info.bpb.bytes_per_sector
      → 0 < rounds
      → read_fat disk rounds 0 info fat ≡ fault
  unfolding read_fat
  read_fat_fault zero info fat e l r = absurd (omega (arith, r))
  read_fat_fault (suc rounds) info fat e l r =
      let whole = same_length _ _ e in let beyond = too_short _ _ l in rw (whole, beyond) refl
    where
      same_length : (a b : ℕ) → a ≡ b → (a == b) ≡ true
      same_length a b h = ground arith

      too_short : (a b : ℕ) → a < b → ltb a (0 * 512 + b) ≡ true
      too_short a b h = ground arith

  with_fat_fault :
      (info : FatInfo)
      → length (
          disk
            ((info.fat_offset + 0) % 2 ^ 32 * info.bpb.bytes_per_sector % 2 ^ 32)
            info.bpb.bytes_per_sector)
        ≡ info.bpb.bytes_per_sector
      → info.fat_size_bytes < info.bpb.bytes_per_sector
      → 0 < info.fat_size_sectors
      → with_fat disk info ≡ fault
  unfolding with_fat
  with_fat_fault info e l r =
      let small : length (replicate {A = ℕ} info.fat_size_bytes 0) < info.bpb.bytes_per_sector =
        omega (arith, l, length-replicate {A = ℕ} info.fat_size_bytes 0) in
      rw (read_fat_fault info.fat_size_sectors info (replicate info.fat_size_bytes 0) e small r)
        refl

  -- `fat12_mount` of a disk that can be read, with sectors of 512 bytes and a table of 1 to 255 of them, writes past
  -- the end of the table's buffer: `fatSizeBytes` has eight bits, and so is 0.
  pub fat12_mount_fault :
      ((offset size : ℕ) → length (disk offset size) ≡ size)
      → (read_bpb (disk 0 512)).bytes_per_sector ≡ 512
      → 0 < (read_bpb (disk 0 512)).sectors_per_fat
      → (read_bpb (disk 0 512)).sectors_per_fat < 256
      → fat12_mount disk ≡ fault
  unfolding fat12_mount
  fat12_mount_fault reads bytes some_sectors few =
      go (disk 0 512) (reads 0 512) (read_bpb (disk 0 512)) bytes some_sectors few
    where
      whole : (n : ℕ) → n ≡ 512 → (n == 512) ≡ true
      whole n h = ground arith

      not_zero : (n : ℕ) → n ≡ 512 → (n == 0) ≡ false
      not_zero n h = ground arith

      info_fault :
          (bpb : Bpb)
          → bpb.bytes_per_sector ≡ 512
          → 0 < bpb.sectors_per_fat
          → bpb.sectors_per_fat < 256
          → with_fat disk (fat_info bpb) ≡ fault
      info_fault bpb b s f =
          with_fat_fault (fat_info bpb) (reads _ _) (rw b (omega arith)) (omega (arith, s, f))

      go :
          (sector : List ℕ)
          → length sector ≡ 512
          → (bpb : Bpb) → bpb.bytes_per_sector ≡ 512
          → 0 < bpb.sectors_per_fat
          → bpb.sectors_per_fat < 256
          → (if length sector == 512
              then if bpb.bytes_per_sector == 0 then fault else with_fat disk (fat_info bpb)
              else ok none [])
            ≡ fault
      go sector e bpb b s f = rw (whole _ e, not_zero _ b) (info_fault bpb b s f)
