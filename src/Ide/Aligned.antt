-- ===== src/Ide/Aligned.antt =====
-- Reads of whole sectors through `ide_block_read`.
use mathlib.Core.List.{append_assoc}
use cyb_os.Prelude.{
  ℕ, zero, suc, ◌+◌, ◌*◌, ◌/◌, ◌%◌, ◌^◌, ◌≤◌, ◌<◌, ◌≡◌, refl, ap, ◌∙◌, arith, false, some, List, [],
  ◌∷◌, ◌++◌, length, length-append, length-drop, take, drop, ltb,
}
use cyb_os.Prelude.Run.{ok}
use cyb_os.Port.{Io, Hardware}
use cyb_os.Ide.State.{Ide, Place, Drive, drive, dev_major_ide, find_registered, write_at}
use cyb_os.Ide.Block.{sector_to, full_sectors, read_sectors_from, ide_block_read}
use cyb_os.Ide.Disk.{IsDisk, bytes_from, sector_bytes, CanRead, Kept, ide_sector_read-disk}

length-bytes_from : (f : ℕ → ℕ) (k count : ℕ) → length (bytes_from f k count) ≡ 2 * count
unfolding bytes_from
length-bytes_from f k zero = refl
length-bytes_from f k (suc count) = omega (arith, length-bytes_from f (suc k) count)

length-sector_bytes : (disk : ℕ → ℕ → ℕ) (sector : ℕ) → length (sector_bytes disk sector) ≡ 512
unfolding sector_bytes
length-sector_bytes disk sector = length-bytes_from (disk sector) 0 256

take-length_append : (xs ys : List ℕ) → take (length xs) (xs ++ ys) ≡ xs
take-length_append [] ys = refl
take-length_append (x ∷ xs) ys = ap (λ (t : List ℕ). x ∷ t) (take-length_append xs ys)

drop-length_append : (xs ys : List ℕ) (n : ℕ) → drop (length xs + n) (xs ++ ys) ≡ drop n ys
drop-length_append [] ys n = ap (λ (t : ℕ). drop t ys) (omega arith)
drop-length_append (x ∷ xs) ys n =
    let e : length (x ∷ xs) + n ≡ suc (length xs + n) = omega arith in
    rw e (drop-length_append xs ys n)

-- A write behind the part that is done.
write_at-append :
    {S : Type 0} (s : S) (done bytes rest : List ℕ)
    → length bytes ≤ length rest
    → write_at (length done) bytes (done ++ rest) s
      ≡ ok (done ++ (bytes ++ drop (length bytes) rest)) s
unfolding write_at
write_at-append s done bytes rest le =
    let fits : ltb (length (done ++ rest)) (length done + length bytes) ≡ false =
      ground (arith, length-append done rest) in
    rw (fits, take-length_append done rest, drop-length_append done rest (length bytes)) refl

-- The bytes of `count` sectors from one on.
unfoldable pub sectors_from : (ℕ → ℕ → ℕ) → (sector count : ℕ) → List ℕ
sectors_from disk sector zero = []
sectors_from disk sector (suc count) =
    sector_bytes disk sector ++ sectors_from disk (suc sector) count

module _ (hardware : Hardware) (disk : ℕ → ℕ → ℕ) (size fuel : ℕ) (place : Place)
    (is : IsDisk hardware disk place.drive size fuel) where
  sector_to-disk :
      (lba : ℕ) (s : Io Ide) (done rest : List ℕ)
      → CanRead s.own place
      → lba < 2 ^ 28
      → lba < size
      → size ≤ (s.own.drives place).size
      → 512 ≤ length rest
      → (s' : Io Ide) × (sector_to hardware fuel place lba (length done) (done ++ rest) s
          ≡ ok (done ++ (sector_bytes disk lba ++ drop 512 rest)) s')
        × Kept place s.own s'.own
  unfolding sector_to
  sector_to-disk lba s done rest can lt has_it le room =
      let (s', read, kept) =
        ide_sector_read-disk hardware disk place.drive size fuel is place lba s can refl lt has_it
          le in
      let bytes = sector_bytes disk lba in
      let long = length-sector_bytes disk lba in
      let put = write_at-append s' done bytes rest (omega (arith, long)) in
      (s', ground (arith, read, put, long), kept)

  full_sectors-disk :
      (rounds : ℕ) (lba : ℕ) (s : Io Ide) (done rest : List ℕ)
      → CanRead s.own place
      → lba + rounds ≤ 2 ^ 28
      → lba + rounds ≤ size
      → size ≤ (s.own.drives place).size
      → length rest ≡ rounds * 512
      → (s' : Io Ide) × (full_sectors hardware fuel rounds place lba (length done) (done ++ rest) s
          ≡ ok (done ++ sectors_from disk lba rounds) s')
        × Kept place s.own s'.own
  unfolding full_sectors sectors_from
  full_sectors-disk zero lba s done [] can lt has_them le room = (s, refl, (refl, refl, can))
  full_sectors-disk zero lba s done (r ∷ rest) can lt has_them le room = absurd (omega arith)
  full_sectors-disk (suc rounds) lba s done rest can lt has_them le room =
      let bytes = sector_bytes disk lba in
      let long = length-sector_bytes disk lba in
      let (s1, first, kept1) =
        sector_to-disk lba s done rest can (omega arith) (omega arith) le (omega arith) in
      let same_size : (s1.own.drives place).size ≡ (s.own.drives place).size =
        ap (λ (t : Place → Drive). (t place).size) kept1.0 in
      let (s2, others, kept2) =
        full_sectors-disk rounds (suc lba) s1 (done ++ bytes) (drop 512 rest) kept1.2 (omega arith)
          (omega arith) (omega (arith, same_size)) (omega (arith, length-drop 512 rest)) in
      let next : (lba + 1) % 2 ^ 32 ≡ suc lba = omega arith in
      let place_of : length done + 512 ≡ length (done ++ bytes) =
        omega (arith, length-append done bytes, long) in
      (
        s2,
        rw
            (
              first,
              next,
              place_of,
              ← append_assoc done bytes (drop 512 rest),
              ← append_assoc done bytes (sectors_from disk (suc lba) rounds),
            )
            others,
        (kept2.0 ∙ kept1.0, kept2.1 ∙ kept1.1, kept2.2),
      )

  -- A read of `count` whole sectors from sector `first` on, through the device of an enabled ATA drive on the first channel
  -- with addresses of 28 bits, that ends within the first 4 GB and within a disk which is not larger than the size of the
  -- drive. The drive is the one with that disk: it is never busy for `fuel` statuses in a row, and when one of its
  -- sectors is asked for, with its own number in the register of the drive, it gives that sector without an error
  -- once it is not busy (`IsDisk`). Then `ide_block_read`, with `fuel` rounds for each wait, comes to its end, returns
  -- the size that it was asked for, and leaves in a buffer of that size the bytes of those sectors, one behind the
  -- other. The drives and the registered devices stay as they are, and the drive can be read again.
  pub ide_block_read-sectors :
      (minor first count : ℕ) (s : Io Ide) (buffer : List ℕ)
      → find_registered dev_major_ide minor s.own.registered ≡ some (drive place)
      → CanRead s.own place
      → first + count ≤ 2 ^ 23
      → first + count ≤ size
      → size ≤ (s.own.drives place).size
      → length buffer ≡ count * 512
      → (s' : Io Ide) × (ide_block_read hardware fuel dev_major_ide minor
            (first * 512)
            (count * 512)
            buffer
            s
          ≡ ok (count * 512, sectors_from disk first count) s')
        × Kept place s.own s'.own
  unfolding ide_block_read read_sectors_from
  ide_block_read-sectors minor first count s buffer known can few has_them le room =
      let (s', read, kept) =
        full_sectors-disk count first s [] buffer can (omega arith) has_them le room in
      let start : first * 512 / 512 ≡ first = omega arith in
      let aligned : first * 512 % 512 ≡ 0 = omega arith in
      let full : count * 512 / 512 ≡ count = omega arith in
      let none_left : count * 512 % 512 ≡ 0 = omega arith in
      (s', ground (arith, known, can.1, read, start, aligned, full, none_left), kept)
