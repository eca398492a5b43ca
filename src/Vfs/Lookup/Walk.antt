-- ===== src/Vfs/Lookup/Walk.antt =====
-- The loop of `vfs_get_node_from_path`: it ends, and it follows the components of the path.
use cyb_os.Prelude.{
  ℕ, zero, suc, ◌≤◌, ◌<◌, ◌≡◌, refl, ◌∙◌, Bool, true, false, List, [], ◌∷◌, ◌++◌, arith, lt→ltb,
  ◌==◌, if◌then◌else◌, length, Option, none, some,
}
use cyb_os.Prelude.Run.{ok}
use cyb_os.Klib.Text.{strcmp}
use cyb_os.Vfs.Types.{Name, Node, kind, Vfs, Drivers, fs_directory}
use cyb_os.Vfs.Lookup.{span_until, skip_until, vfs_finddir, component_buffer, walk}
use cyb_os.Vfs.Lookup.Colon.{Lacks, span_until-append, skip_until-append, strncpy-append}

-- `/a/b` of the names `a` and `b`.
abbrev pub path_of : List Name → Name
path_of [] = []
path_of (name ∷ names) = b'/' ∷ (name ++ path_of names)

-- A name that fits the buffer, has no slash and is not `..`.
abbrev pub IsComponent : Name → Type 0
IsComponent name =
    Lacks b'/' name
    × (length name < component_buffer)
    × ((strcmp name (b'.' ∷ b'.' ∷ []) == 0) ≡ false)

abbrev pub AreComponents : List Name → Type 0
AreComponents [] = Unit {0}
AreComponents (name ∷ names) = IsComponent name × AreComponents names

span_until-path :
    (name : Name) (names : List Name)
    → Lacks b'/' name
    → span_until b'/' (name ++ path_of names) ≡ length name
unfolding span_until
span_until-path [] [] h = refl
span_until-path (x ∷ name) [] h = ground (arith, span_until-path name [] h.1)
span_until-path name (m ∷ names) h = span_until-append b'/' name (m ++ path_of names) h

skip_until-path :
    (name : Name) (names : List Name)
    → Lacks b'/' name
    → skip_until b'/' (name ++ path_of names) ≡ path_of names
unfolding skip_until
skip_until-path [] [] h = refl
skip_until-path (x ∷ name) [] h = rw h.0 (skip_until-path name [] h.1)
skip_until-path name (m ∷ names) h = skip_until-append b'/' name (m ++ path_of names) h

-- The bytes left after a component are no more than before.
pub skip_until-length : (c : ℕ) (str : List ℕ) → length (skip_until c str) ≤ length str
unfolding skip_until
skip_until-length c [] = omega arith
skip_until-length c (x ∷ str) = ground (arith, skip_until-length c str)

module _ (drivers : Drivers) where
  -- Where the names lead from a node: `.` stays, any other name is looked up in a directory.
  unfoldable pub resolve : (garbage node : Node) → List Name → Option Node
  resolve garbage node [] = some node
  resolve garbage node (name ∷ names) =
      if kind node == fs_directory
      then if strcmp name (b'.' ∷ []) == 0
        then resolve garbage node names
        else elim (vfs_finddir drivers node name garbage) [
          | none ↦ none
          | some found ↦ resolve garbage found names
        ]
      else none

  walk_step :
      (fuel : ℕ) (garbage node : Node) (name : Name) (names : List Name) (v : Vfs)
      → IsComponent name
      → walk drivers (suc fuel) garbage node (path_of (name ∷ names)) v ≡ (
          if kind node == fs_directory
          then if strcmp name (b'.' ∷ []) == 0
            then walk drivers fuel garbage node (path_of names) v
            else elim (vfs_finddir drivers node name garbage) [
              | none ↦ ok none v
              | some new_node ↦ walk drivers fuel garbage new_node (path_of names) v
            ]
          else ok none v)
  unfolding walk
  walk_step fuel garbage node name names v (clean, short, up) = ground (
    arith,
    span_until-path name names clean,
    skip_until-path name names clean,
    strncpy-append name (path_of names),
    lt→ltb (length name) component_buffer short,
    up,
  )

  walk_rest :
      (is_dir stays : Bool) (fuel : ℕ) (garbage node : Node) (names : List Name) (v : Vfs)
      → ((m : Node)
          → walk drivers fuel garbage m (path_of names) v ≡ ok (resolve garbage m names) v)
      → (found : Option Node)
      → (if is_dir
          then if stays then walk drivers fuel garbage node (path_of names) v else elim found [
            | none ↦ ok none v
            | some m ↦ walk drivers fuel garbage m (path_of names) v
          ]
          else ok none v)
        ≡ ok
            (if is_dir
              then if stays
                then resolve garbage node names
                else elim found [ none ↦ none | some m ↦ resolve garbage m names ]
              else none)
            v
  walk_rest false stays fuel garbage node names v ih found = refl
  walk_rest true true fuel garbage node names v ih found = ih node
  walk_rest true false fuel garbage node names v ih none = refl
  walk_rest true false fuel garbage node names v ih (some m) = ih m

  -- The loop follows the names of a path, when it has more fuel than there are names.
  pub walk_lem :
      (fuel : ℕ) (garbage node : Node) (names : List Name) (v : Vfs)
      → length names < fuel
      → AreComponents names
      → walk drivers fuel garbage node (path_of names) v ≡ ok (resolve garbage node names) v
  unfolding walk resolve
  walk_lem zero garbage node names v h good = absurd (omega (arith, h))
  walk_lem (suc fuel) garbage node [] v h good = refl
  walk_lem (suc fuel) garbage node (name ∷ names) v h (good, rest) =
      walk_step fuel garbage node name names v good
      ∙ walk_rest (kind node == fs_directory) (strcmp name (b'.' ∷ []) == 0) fuel garbage node names
          v (λ m. walk_lem fuel garbage m names v (omega (arith, h)) rest)
          (vfs_finddir drivers node name garbage)
