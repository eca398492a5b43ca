-- ===== src/Vfs/Lookup/Path.antt =====
-- `vfs_get_node_from_path` as a whole: it returns, and what it returns.
use cyb_os.Prelude.{
  ℕ, zero, suc, ◌+◌, ◌≤◌, ◌<◌, ◌≡◌, refl, Bool, true, false, [], ◌∷◌, arith, ltb, ◌==◌,
  if◌then◌else◌, length, Option, none, some, get_elem?,
}
use cyb_os.Prelude.Run.{Cmd, ok, fault, panic, out_of_fuel, Run, ◌>>=◌, ◌>>◌, pure, gets, return}
use cyb_os.Klib.Text.{strncpy, strcmp}
use cyb_os.Vfs.Types.{Name, Node, kind, MountPoint, Vfs, Drivers, fs_directory}
use cyb_os.Vfs.Lookup.{
  span_until, skip_until, find_mount, mount_buffer, vsf_get_mount, vfs_finddir, component_buffer,
  walk, follow, vfs_get_node_from_path,
}
use cyb_os.Vfs.Lookup.Walk.{skip_until-length}

-- Whether the fuel ran out.
abbrev pub is_cut : {A : Type 0} → Run Vfs A → Bool
is_cut (ok a v) = false
is_cut fault = false
is_cut panic = false
is_cut out_of_fuel = true

behind_le :
    (x : ℕ) (rest : Name)
    → length (skip_until b'/' (if x == b'/' then rest else x ∷ rest)) ≤ length rest
unfolding skip_until
behind_le x rest = ground (arith, skip_until-length b'/' rest)

module _ (drivers : Drivers) where
  walk-next :
      (fuel : ℕ) (garbage node : Node) (behind : Name) (is_dir fits stays up : Bool)
      (found : Option Node) (v : Vfs)
      → ((m : Node) → is_cut (walk drivers fuel garbage m behind v) ≡ false)
      → is_cut (
          (if is_dir
              then (if fits then return {S = Vfs} else (λ _. fault))
                >> (if stays
                    then walk drivers fuel garbage node behind
                    else if up
                    then (λ _. panic)
                    else elim found [
                      | none ↦ pure none
                      | some m ↦ walk drivers fuel garbage m behind
                    ])
              else pure none)
            v)
        ≡ false
  walk-next fuel garbage node behind false fits stays up found v ih = refl
  walk-next fuel garbage node behind true false stays up found v ih = refl
  walk-next fuel garbage node behind true true true up found v ih = ih node
  walk-next fuel garbage node behind true true false true found v ih = refl
  walk-next fuel garbage node behind true true false false none v ih = refl
  walk-next fuel garbage node behind true true false false (some m) v ih = ih m

  -- The loop ends, with a fuel above the length of the path.
  pub walk_total :
      (fuel : ℕ) (garbage node : Node) (c : Name) (v : Vfs)
      → length c < fuel
      → is_cut (walk drivers fuel garbage node c v) ≡ false
  unfolding walk
  walk_total zero garbage node c v h = absurd (omega (arith, h))
  walk_total (suc fuel) garbage node [] v h = refl
  walk_total (suc fuel) garbage node (x ∷ rest) v h =
      walk-next fuel garbage node (skip_until b'/' c) (kind node == fs_directory)
        (ltb (span_until b'/' c) component_buffer)
        (strcmp (strncpy c (span_until b'/' c)) (b'.' ∷ []) == 0)
        (strcmp (strncpy c (span_until b'/' c)) (b'.' ∷ b'.' ∷ []) == 0)
        (vfs_finddir drivers node (strncpy c (span_until b'/' c)) garbage) v
        (λ m. walk_total fuel garbage m (skip_until b'/' c) v (omega (arith, behind_le x rest, h)))
    where
      c : Name
      c = if x == b'/' then rest else x ∷ rest

  from_root :
      (fuel : ℕ) (garbage : Node) (v : Vfs) (i : ℕ) (c : Name)
      → length c < fuel
      → (root : Option Node)
      → is_cut (
          elim root as (λ _. Cmd Vfs (Option Node)) [
            | none ↦ λ _. fault
            | some supernode ↦ walk drivers fuel garbage (record supernode { mount = i + 1 }) c
          ]
            v)
        ≡ false
  from_root fuel garbage v i c h none = refl
  from_root fuel garbage v i c h (some supernode) =
      walk_total fuel garbage (record supernode { mount = i + 1 }) c v h

  from_supernode :
      (fuel : ℕ) (garbage : Node) (v : Vfs) (i : ℕ) (c : Name)
      → length c < fuel
      → (held : Option MountPoint)
      → is_cut (
          elim held as (λ _. Cmd Vfs (Option Node)) [
            | none ↦ λ _. fault
            | some slot ↦ elim slot.supernode as (λ _. Cmd Vfs (Option Node)) [
              | none ↦ λ _. fault
              | some supernode ↦ walk drivers fuel garbage (record supernode { mount = i + 1 }) c
            ]
          ]
            v)
        ≡ false
  from_supernode fuel garbage v i c h none = refl
  from_supernode fuel garbage v i c h (some slot) = from_root fuel garbage v i c h slot.supernode

  after_colon :
      (fuel : ℕ) (garbage : Node) (v : Vfs) (path : Name)
      → length path ≤ fuel
      → (found : Option ℕ)
      → is_cut
          (follow drivers fuel garbage (elim found [ none ↦ none | some i ↦ some (i, path) ]) v)
        ≡ false
  unfolding follow
  after_colon fuel garbage v path h none = refl
  after_colon fuel garbage v [] h (some i) = refl
  after_colon fuel garbage v (slash ∷ c) h (some i) = ground (
    arith,
    from_supernode fuel garbage v i c (omega (arith, h)) (get_elem? {A = MountPoint} v.mounts i),
  )

  from_colon :
      (fuel : ℕ) (garbage : Node) (v : Vfs) (name behind : Name) (fits : Bool)
      → length behind ≤ fuel
      → is_cut (
          (elim behind as (λ _. Cmd Vfs (Option (ℕ × Name))) [
            | [] ↦ pure none
            | colon ∷ path ↦
                (if fits then return {S = Vfs} else (λ _. fault))
                >> (gets (λ v. v.mounts) >>= λ mounts.
                    pure (elim (find_mount name mounts) [ none ↦ none | some i ↦ some (i, path) ]))
          ]
              >>= follow drivers fuel garbage)
            v)
        ≡ false
  from_colon fuel garbage v name [] fits h = after_colon fuel garbage v [] h none
  from_colon fuel garbage v name (colon ∷ path) false h = refl
  from_colon fuel garbage v name (colon ∷ path) true h =
      after_colon fuel garbage v path (omega (arith, h)) (find_mount name v.mounts)

  -- `vfs_get_node_from_path` never runs out of a fuel above the length of the path: its loop ends on every
  -- path, whatever the tables and the file systems hold.
  pub vfs_get_node_from_path_total :
      (fuel : ℕ) (garbage : Node) (path : Name) (v : Vfs)
      → length path < fuel
      → is_cut (vfs_get_node_from_path drivers fuel garbage path v) ≡ false
  unfolding vfs_get_node_from_path vsf_get_mount
  vfs_get_node_from_path_total fuel garbage path v h =
      from_colon fuel garbage v (strncpy path (span_until b':' path)) (skip_until b':' path)
        (ltb (span_until b':' path) mount_buffer) (omega (arith, skip_until-length b':' path, h))
