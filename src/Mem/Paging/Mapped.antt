-- ===== src/Mem/Paging/Mapped.antt =====
-- What a mapping makes of an address.
use Prim.Native.Nat.{bit_or}
use cyb_os.Prelude.{
  ℕ, ◌+◌, ◌*◌, ◌/◌, ◌%◌, ◌^◌, ◌<◌, ◌≡◌, ◌∙◌, arith, Bool, true, false, ◌==◌, refl, if◌then◌else◌,
  length,
}
use cyb_os.Prelude.Run.{ok}
use cyb_os.Word.Bits.{bit_and-ones, bit_or-shifted}
use cyb_os.Mem.State.{Mem, page_of, put, on_bitmap}
use cyb_os.Mem.Bitmap.Mark.{used, bm_set-used}
use cyb_os.Mem.Kmem.{get_physical_address}
use cyb_os.Mem.Kmem.Blocks.{page_of_lem}
use cyb_os.Mem.Paging.{ensure_table, map_virtual_memory}

page_of-entry :
    (src flags : ℕ)
    → src < 2 ^ 32
    → flags < 2 ^ 12
    → page_of (bit_or (src / 2 ^ 12 * 2 ^ 12 % 2 ^ 32) flags) ≡ src / 2 ^ 12 * 2 ^ 12
page_of-entry src flags h small =
    let whole : src / 2 ^ 12 * 2 ^ 12 % 2 ^ 32 ≡ src / 2 ^ 12 * 2 ^ 12 = omega (arith, h) in
    let sum = bit_or-shifted 12 (src / 2 ^ 12) flags small in
    rw (whole, sum)
      (page_of_lem (src / 2 ^ 12 * 2 ^ 12 + flags) (omega (arith, h, small)) ∙ omega (arith, small))

-- The pages once the entry is written.
abbrev mapped_pages : (directory src_address dst_address pagelevels : ℕ) → Mem → Mem
mapped_pages directory src_address dst_address pagelevels s =
    let table = (s.directories directory).tables (dst_address / 2 ^ 12 / 1024) in
    record s {
      pages = put s.pages table (
          put (s.pages table) (dst_address / 2 ^ 12 % 1024)
            (bit_or (src_address / 2 ^ 12 * 2 ^ 12 % 2 ^ 32) pagelevels));
    }

-- `get_physical_address` of an address that `map_virtual_memory` has mapped, with or without the frame in the bitmap: the
-- frame of the source with the offset of the address, whatever the flags, which lie below 4 KB. The directory has a
-- physical address, and a table for the address. With `set_bitmap` the frame is one of the bitmap, with words of 32
-- bits, and it is taken afterwards; without it the bitmap stays as it is.
pub get_physical_address-map_virtual_memory :
    (fuel directory src_address dst_address pagelevels : ℕ) (set_bitmap : Bool) (s : Mem)
    → src_address < 2 ^ 32
    → pagelevels < 2 ^ 12
    → ((s.directories directory).physical_address == 0) ≡ false
    → ((s.directories directory).tables (dst_address / 2 ^ 12 / 1024) == 0) ≡ false
    → (set_bitmap ≡ true
        → (s.bitmap.bitsize ≡ 32) × (src_address / 2 ^ 12 / 32 < length s.bitmap.map))
    → (s' : Mem) × (map_virtual_memory fuel directory src_address dst_address pagelevels set_bitmap
          s
        ≡ ok tt s')
      × (get_physical_address directory dst_address s'
          ≡ ok (src_address / 2 ^ 12 * 2 ^ 12 + dst_address % 2 ^ 12) s')
      × (if set_bitmap then used s'.bitmap.map (src_address / 2 ^ 12) ≡ 1 else s'.bitmap ≡ s.bitmap)
unfolding map_virtual_memory get_physical_address ensure_table put on_bitmap
get_physical_address-map_virtual_memory fuel directory src_address dst_address pagelevels false s h
      flags here there room =
    (
      mapped_pages directory src_address dst_address pagelevels s,
      ground arith,
      ground (arith, page_of-entry src_address pagelevels h flags, bit_and-ones 12 dst_address),
      refl,
    )
get_physical_address-map_virtual_memory fuel directory src_address dst_address pagelevels true s h
      flags here there room =
    let frame = src_address / 2 ^ 12 in
    let (bits, inside) = room refl in
    let (map', sets, taken) = bm_set-used frame frame s.bitmap bits inside in
    (
      record (mapped_pages directory src_address dst_address pagelevels s) {
        bitmap = record s.bitmap { map = map' };
      },
      ground (arith, sets),
      ground (arith, page_of-entry src_address pagelevels h flags, bit_and-ones 12 dst_address),
      ground (arith, taken),
    )
