-- ===== src/Cybfs/Slice.antt =====
-- What `cybfs_read` reads.
use cyb_os.Prelude.{
  ℕ, ◌+◌, ◌-◌, ◌%◌, ◌^◌, ◌≤◌, ◌<◌, ◌≡◌, refl, ap, ◌∙◌, arith, List, ◌++◌, some, get_elem?, length,
  take, drop, min, ltb, if◌then◌else◌, false,
}
use cyb_os.Prelude.Run.{ok}
use cyb_os.Vfs.Types.{Node}
use cyb_os.Cybfs.Layout.{CybFile}
use cyb_os.Cybfs.{cybfs_read, read_slot, read_file}

-- For a file whose memory has its length, an offset in the file or at its end, a sum of offset and size below 2^32, and a
-- buffer of the size that is asked for: `cybfs_read` returns the smaller of the size and what the file has from the offset
-- on, and puts those bytes at the start of the buffer, which stays as it is behind them.
pub cybfs_read-slice :
    (nodes : List CybFile) (node : Node) (offset size : ℕ) (buffer : List ℕ) (file : CybFile)
    → get_elem? nodes node.inode_nr ≡ some file
    → file.length ≤ length file.data_bytes
    → offset ≤ file.length
    → offset + size < 2 ^ 32
    → size ≤ length buffer
    → let count = min size (file.length - offset) in
      cybfs_read nodes node offset size buffer
      ≡ ok count (take count (drop offset file.data_bytes) ++ drop count buffer)
unfolding cybfs_read read_slot read_file
cybfs_read-slice nodes node offset size buffer file at whole inside small room =
    ap (λ o. read_slot o offset size buffer) at
    ∙ rw
        (
          count_is,
          no_ltb file.length offset inside,
          no_ltb (length file.data_bytes) (offset + count) (omega (arith, whole, inside)),
          no_ltb (length buffer) count (omega (arith, room)),
        )
        refl
  where
    count : ℕ
    count = min size (file.length - offset)

    no_ltb : (a b : ℕ) → b ≤ a → ltb a b ≡ false
    no_ltb a b l = ground arith

    count_is :
        (if ltb file.length ((offset + size) % 2 ^ 32) then file.length - offset else size) ≡ count
    count_is = ground (arith, inside, small)
