-- ===== src/Ext2/Entries.antt =====
-- A directory of ext2, written and read.
use mathlib.Core.List.{append_assoc}
use cyb_os.Prelude.{
  ℕ, zero, suc, ◌+◌, ◌/◌, ◌-◌, ◌%◌, ◌^◌, ◌<◌, ◌≡◌, ◌∙◌, refl, ap, arith, List, [], ◌∷◌, ◌++◌,
  Option, none, some, get_elem?, length, length-append, take, drop, ltb, ◌==◌, false,
}
use cyb_os.Prelude.Run.{Run, ok}
use cyb_os.Fat12.Info.{byte2, byte4}
use cyb_os.Ext2.Directory.{DirEntry, entry_at, at_entry, nth_dir_entry}

-- An entry with bytes behind its name, which ext2 uses to fill it up. The last one has the number 0.
unfoldable pub write_entry : (inode_nr : ℕ) → (name padding : List ℕ) → List ℕ
write_entry inode_nr name padding =
    let rec_len = 8 + (length name + length padding) in
    inode_nr % 256
    ∷ inode_nr / 256 % 256
    ∷ inode_nr / 65536 % 256
    ∷ inode_nr / 16777216
    ∷ rec_len % 256
    ∷ rec_len / 256
    ∷ length name
    ∷ 0
    ∷ (name ++ padding)

unfoldable pub write_entries : List (ℕ × List ℕ × List ℕ) → List ℕ
unfolding write_entry
write_entries [] = 0 ∷ 0 ∷ 0 ∷ 0 ∷ 0 ∷ 0 ∷ 0 ∷ 0 ∷ []
write_entries ((inode_nr, name, padding) ∷ entries) =
    write_entry inode_nr name padding ++ write_entries entries

unfoldable pub AreEntries : List (ℕ × List ℕ × List ℕ) → Type 0
AreEntries [] = Unit
AreEntries ((inode_nr, name, padding) ∷ entries) =
    (0 < inode_nr)
    × (inode_nr < 2 ^ 32)
    × (length name < 256)
    × (length padding < 2 ^ 16 - 264)
    × AreEntries entries

take-whole : (xs ys : List ℕ) → take (length xs) (xs ++ ys) ≡ xs
take-whole [] ys = refl
take-whole (x ∷ xs) ys = ap (λ t. x ∷ t) (take-whole xs ys)

drop-whole : (xs ys : List ℕ) → drop (length xs) (xs ++ ys) ≡ ys
drop-whole [] ys = refl
drop-whole (x ∷ xs) ys = drop-whole xs ys

drop-by : (xs ys : List ℕ) (n : ℕ) → n ≡ length xs → drop n (xs ++ ys) ≡ ys
drop-by xs ys n e = ap (λ k. drop k (xs ++ ys)) e ∙ drop-whole xs ys

-- An entry of this number and name.
record Reads (inode_nr : ℕ) (name : List ℕ) (e : DirEntry) : Type 0 where
  number : e.inode_nr ≡ inode_nr
  name_of : e.name ≡ name
  name_length : e.name_len ≡ length name

-- The entry that is written reads back, with what follows it behind its length.
record ReadsAt (inode_nr : ℕ) (name padding behind : List ℕ) : Type 0 where
  entry : DirEntry
  at : entry_at (write_entry inode_nr name padding ++ behind) ≡ some entry
  reads : Reads inode_nr name entry
  next : drop entry.rec_len (write_entry inode_nr name padding ++ behind) ≡ behind

entry_at-write :
    (inode_nr : ℕ) (name padding behind : List ℕ)
    → inode_nr < 2 ^ 32
    → length name < 256
    → length padding < 2 ^ 16 - 264
    → ReadsAt inode_nr name padding behind
unfolding entry_at write_entry
entry_at-write inode_nr name padding behind l m k = record {
  entry = record {
    inode_nr = byte4 bytes 0;
    rec_len = byte2 bytes 4;
    name_len = length name;
    name = take (length name) ((name ++ padding) ++ behind);
  };
  at = rw (long_enough (length ((name ++ padding) ++ behind))) refl;
  reads = record {
    number = omega (arith, l);
    name_of =
        ap (take (length name)) (append_assoc name padding behind)
        ∙ take-whole name (padding ++ behind);
    name_length = refl;
  };
  next =
      drop-by (write_entry inode_nr name padding) behind (byte2 bytes 4)
        (omega (arith, m, k, length-append name padding));
}
  where
    bytes : List ℕ
    bytes = write_entry inode_nr name padding ++ behind

    long_enough : (n : ℕ) → ltb (suc (suc (suc (suc (suc (suc (suc (suc n)))))))) 8 ≡ false
    long_enough n = ground arith

content : Option (ℕ × List ℕ × List ℕ) → ℕ × List ℕ × List ℕ
content none = (0, [], [])
content (some entry) = entry

some_number : (n i : ℕ) → n ≡ i → 0 < i → (n == 0) ≡ false
some_number n i e p = ground arith

at_some :
    (o : Option DirEntry) (e : DirEntry) (go_on : DirEntry → Run (Unit {0}) (Option DirEntry))
    → o ≡ some e
    → (e.inode_nr == 0) ≡ false
    → at_entry o go_on ≡ go_on e
unfolding at_entry
at_some o e go_on at live = rw (at, live) refl

first_step :
    (bytes : List ℕ) (e : DirEntry)
    → entry_at bytes ≡ some e
    → (e.inode_nr == 0) ≡ false
    → nth_dir_entry 0 bytes ≡ ok (some e) tt
unfolding nth_dir_entry
first_step bytes e at live = at_some (entry_at bytes) e _ at live

next_step :
    (index : ℕ) (bytes : List ℕ) (e : DirEntry)
    → entry_at bytes ≡ some e
    → (e.inode_nr == 0) ≡ false
    → nth_dir_entry (suc index) bytes ≡ nth_dir_entry index (drop e.rec_len bytes)
unfolding nth_dir_entry
next_step index bytes e at live = at_some (entry_at bytes) e _ at live

-- For every list of entries with numbers that are not 0, names of less than 256 bytes and any bytes behind the name, up to
-- a length of the entry in 16 bits, written one behind the other with an entry of number 0 at the end: `ext2_readdir`'s loop over the entries gives the entry at the index, with its number
-- and its name, where there is one.
pub nth_dir_entry-write :
    (entries : List (ℕ × List ℕ × List ℕ)) (index inode_nr : ℕ) (name padding : List ℕ)
    → AreEntries entries
    → get_elem? entries index ≡ some (inode_nr, name, padding)
    → (e : DirEntry) × (nth_dir_entry index (write_entries entries) ≡ ok (some e) tt)
      × (e.inode_nr ≡ inode_nr)
      × (e.name ≡ name)
      × (e.name_len ≡ length name)
unfolding AreEntries write_entries content
nth_dir_entry-write [] index inode_nr name padding all h = absurd (ground (arith, h))
nth_dir_entry-write ((i, n, pad) ∷ entries) zero inode_nr name padding (p, l, m, k, all) h =
    let first = entry_at-write i n pad (write_entries entries) l m k in
    let live = some_number first.entry.inode_nr i first.reads.number p in
    (
      first.entry,
      first_step (write_entry i n pad ++ write_entries entries) first.entry first.at live,
      first.reads.number ∙ ap (λ o. (content o).0) h,
      first.reads.name_of ∙ ap (λ o. (content o).1) h,
      first.reads.name_length ∙ ap (λ o. length (content o).1) h,
    )
nth_dir_entry-write ((i, n, pad) ∷ entries) (suc index) inode_nr name padding (p, l, m, k, all) h =
    let first = entry_at-write i n pad (write_entries entries) l m k in
    let live = some_number first.entry.inode_nr i first.reads.number p in
    let (e, runs, a, b, c) = nth_dir_entry-write entries index inode_nr name padding all h in
    (
      e,
      next_step index (write_entry i n pad ++ write_entries entries) first.entry first.at live
          ∙ ap (nth_dir_entry index) first.next
          ∙ runs,
      a,
      b,
      c,
    )
