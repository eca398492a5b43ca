-- ===== src/Fat12/Info.antt =====
-- The boot sector and what `fat12_mount` takes from it.
use cyb_os.Prelude.{
  ℕ, zero, suc, ◌+◌, ◌-◌, ◌*◌, ◌/◌, ◌%◌, ◌^◌, List, [], ◌++◌, Option, none, some, get_or, length,
  take, drop, replicate, ltb, ◌==◌, if◌then◌else◌,
}
use cyb_os.Prelude.Run.{Run, ok, fault, Cmd, pure, ◌>>=◌, gets}

-- `fat12_bpb_t`, less the fields that no code reads.
pub record Bpb : Type 0 where
  pub bytes_per_sector : ℕ
  pub sectors_per_cluster : ℕ
  pub reserved_sectors : ℕ
  pub number_of_fats : ℕ
  pub num_dir_entries : ℕ
  pub num_sectors : ℕ
  pub sectors_per_fat : ℕ
  pub hidden_sectors : ℕ

-- `fat12_fatinfo_t`, less `rootEntrySectors`, which no code sets.
pub record FatInfo : Type 0 where
  pub num_sectors : ℕ
  pub fat_offset : ℕ
  pub fat_size_bytes : ℕ
  pub fat_size_sectors : ℕ
  pub fat_entry_size_bits : ℕ
  pub num_root_entries : ℕ
  pub num_root_entries_per_sector : ℕ
  pub root_offset : ℕ
  pub root_size_sectors : ℕ
  pub data_offset : ℕ
  pub bpb : Bpb
  pub fat : List ℕ

-- Numbers in memory, the low byte first.
abbrev pub byte2 : List ℕ → ℕ → ℕ
byte2 bytes offset = get_or bytes offset 0 + get_or bytes (offset + 1) 0 * 2 ^ 8

abbrev pub byte4 : List ℕ → ℕ → ℕ
byte4 bytes offset = byte2 bytes offset + byte2 bytes (offset + 2) * 2 ^ 16

-- The packed record at the start of the boot sector.
unfoldable pub read_bpb : List ℕ → Bpb
read_bpb sector = record {
  bytes_per_sector = byte2 sector 11;
  sectors_per_cluster = get_or sector 13 0;
  reserved_sectors = byte2 sector 14;
  number_of_fats = get_or sector 16 0;
  num_dir_entries = byte2 sector 17;
  num_sectors = byte2 sector 19;
  sectors_per_fat = byte2 sector 22;
  hidden_sectors = byte4 sector 28;
}

-- `numSectors`, `fatSizeBytes` and `fatSizeSectors` are `Uint8`, the others `Uint32`. A sector of no bytes divides by zero, a
-- fault.
unfoldable pub fat_info : Bpb → FatInfo
fat_info bpb =
    let root_offset = bpb.number_of_fats * bpb.sectors_per_fat + 1 in
    let root_size_sectors = bpb.num_dir_entries * 32 / bpb.bytes_per_sector in
    record {
      num_sectors = bpb.num_sectors % 2 ^ 8;
      fat_offset = (bpb.reserved_sectors + bpb.hidden_sectors) % 2 ^ 32;
      fat_size_bytes = bpb.bytes_per_sector * bpb.sectors_per_fat % 2 ^ 8;
      fat_size_sectors = bpb.sectors_per_fat % 2 ^ 8;
      fat_entry_size_bits = 8;
      num_root_entries = bpb.num_dir_entries;
      num_root_entries_per_sector = bpb.bytes_per_sector / 32;
      root_offset = root_offset;
      root_size_sectors = root_size_sectors;
      data_offset = (root_offset + root_size_sectors + 2 ^ 32 - 2) % 2 ^ 32;
      bpb = bpb;
      fat = [];
    }

-- `disk` is what the device reads: the bytes at an offset, as many as are asked for or fewer.
module _ (disk : (offset size : ℕ) → List ℕ) where
  -- The loop over the sectors of the table, from sector `i` on; they go to every 512th byte of it. Bytes past its end are a
  -- fault; `none` is a sector that cannot be read.
  unfoldable pub read_fat : (rounds i : ℕ) → FatInfo → Cmd (List ℕ) (Option (Unit {0}))
  read_fat zero i info fat = pure (some tt) fat
  read_fat (suc rounds) i info fat =
      let size = info.bpb.bytes_per_sector in
      let sector = disk ((info.fat_offset + i) % 2 ^ 32 * size % 2 ^ 32) size in
      let rest =
        read_fat rounds (i + 1) info
          (take (i * 512) fat ++ (sector ++ drop (i * 512 + size) fat)) in
      if length sector == size
      then if ltb (length fat) (i * 512 + size) then fault else rest
      else pure none fat

  -- The table of this disk.
  unfoldable pub with_fat : FatInfo → Run (List ℕ) (Option FatInfo)
  unfolding read_fat
  with_fat info =
      (do
        found ← read_fat info.fat_size_sectors 0 info
        fat ← gets (λ fat. fat)
        elim found [ none ↦ pure none | some _ ↦ pure (some (record info { fat = fat })) ])
        (replicate info.fat_size_bytes 0)

  -- `fs_data` of the mount, or `none` when it fails. Memory is there: `kmalloc` never returns NULL.
  unfoldable pub fat12_mount : Run (List ℕ) (Option FatInfo)
  unfolding read_bpb fat_info with_fat
  fat12_mount =
      let sector = disk 0 512 in
      let bpb = read_bpb sector in
      if length sector == 512
      then if bpb.bytes_per_sector == 0 then fault else with_fat (fat_info bpb)
      else ok none []
