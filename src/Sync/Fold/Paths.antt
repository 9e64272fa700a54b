-- ===== src/Sync/Fold/Paths.antt =====
-- crates/ciss-sync/src/fold.rs: the paths of a fold, and the tree that its writes build.
use ciss.Prelude.{
  String, ◌≡◌, refl, sym, ap, ◌∙◌, true, false, ◌||◌, Option, none, some, [], ◌∷◌, map, inl, inr,
  arith, Bool-cases, str_eq_refl, str_eq, str_eq→eq, Within,
}
use ciss.Prelude.Map
use ciss.Prelude.Map.{Map, KeysUnique, get-insert, contains_key-some, contains_key-insert}
use ciss.Sync.Tree.{FileEntry, FsManifest, insert_entry}
use ciss.Sync.Fold.{all_paths, write_all, add_keys, add_heads}

module _ {V : Type 0} where
  Within-contains_key :
      (k : String) (m : Map V)
      → Map.contains_key k m ≡ true
      → Within k (map (λ (e : String × V). e.0) m)
  unfolding Map.contains_key Map.get
  Within-contains_key k [] has = cc
  Within-contains_key k ((j, v) ∷ m) has = elim (Bool-cases (str_eq j k)) [
    | inl same ↦ inl (sym (str_eq→eq j k same))
    | inr other ↦ inr (Within-contains_key k m (ground arith))
  ]

contains_key-add_keys :
    (path : String) (entries : Map FileEntry) (paths : Map (Unit {0}))
    → Map.contains_key path (add_keys entries paths)
      ≡ (Map.contains_key path entries || Map.contains_key path paths)
unfolding add_keys Map.contains_key Map.get
contains_key-add_keys path [] paths = refl
contains_key-add_keys path ((k, e) ∷ entries) paths = elim (Bool-cases (str_eq k path)) [
  | inl same ↦ ground (
    arith,
    contains_key-add_keys path entries (Map.insert k tt paths),
    contains_key-insert k path tt paths,
  )
  | inr other ↦ ground (
    arith,
    contains_key-add_keys path entries (Map.insert k tt paths),
    contains_key-insert k path tt paths,
  )
]

add_heads-keeps :
    (path : String) (heads : Map FsManifest) (paths : Map (Unit {0}))
    → Map.contains_key path paths ≡ true
    → Map.contains_key path (add_heads heads paths) ≡ true
unfolding add_heads
add_heads-keeps path [] paths has = has
add_heads-keeps path ((d, t) ∷ heads) paths has =
    add_heads-keeps path heads (add_keys t.entries paths)
      (ground (arith, contains_key-add_keys path t.entries paths))

add_heads-has :
    (device path : String) (tree : FsManifest) (heads : Map FsManifest) (paths : Map (Unit {0}))
    → Map.get device heads ≡ some tree
    → Map.contains_key path tree.entries ≡ true
    → Map.contains_key path (add_heads heads paths) ≡ true
unfolding add_heads Map.get
add_heads-has device path tree [] paths has there = cc
add_heads-has device path tree ((d, t) ∷ heads) paths has there =
    elim (Bool-cases (str_eq d device)) [
      | inl same ↦
          let this : t ≡ tree = ground arith in
          let here : Map.contains_key path t.entries ≡ true =
            ap (λ x. Map.contains_key path x.entries) this ∙ there in
          add_heads-keeps path heads (add_keys t.entries paths)
            (ground (arith, here, contains_key-add_keys path t.entries paths))
      | inr other ↦
          add_heads-has device path tree heads (add_keys t.entries paths) (ground arith) there
    ]

-- A path of the base is visited.
pub all_paths-base :
    (heads : Map FsManifest) (b : FsManifest) (path : String) (e : FileEntry)
    → Map.get path b.entries ≡ some e
    → Within path (all_paths heads (some b))
unfolding all_paths
all_paths-base heads b path e entry =
    Within-contains_key path (add_keys b.entries (add_heads heads [])) (
      ground (
        arith,
        contains_key-some path e b.entries entry,
        contains_key-add_keys path b.entries (add_heads heads []),
      ))

-- A path of some head is visited.
pub all_paths-has :
    (heads : Map FsManifest) (base : Option FsManifest) (device path : String) (tree : FsManifest)
    (e : FileEntry)
    → Map.get device heads ≡ some tree
    → Map.get path tree.entries ≡ some e
    → Within path (all_paths heads base)
unfolding all_paths Map.contains_key
all_paths-has heads none device path tree e has entry =
    Within-contains_key path (add_heads heads [])
      (add_heads-has device path tree heads [] has (contains_key-some path e tree.entries entry))
all_paths-has heads (some b) device path tree e has entry =
    let there =
      add_heads-has device path tree heads [] has (contains_key-some path e tree.entries entry) in
    Within-contains_key path (add_keys b.entries (add_heads heads []))
      (ground (arith, there, contains_key-add_keys path b.entries (add_heads heads [])))

write_all-keeps :
    (q : String) (writes : Map FileEntry) (tree : FsManifest)
    → Map.contains_key q writes ≡ false
    → Map.get q (write_all writes tree).entries ≡ Map.get q tree.entries
unfolding write_all insert_entry Map.contains_key Map.get
write_all-keeps q [] tree out = refl
write_all-keeps q ((k, e) ∷ writes) tree out =
    write_all-keeps q writes (insert_entry k e tree) (ground arith)
    ∙ ground (arith, get-insert k q e tree.entries)

-- A write to a path that no other write is to stands in the tree.
pub write_all-writes :
    (q : String) (e : FileEntry) (writes : Map FileEntry) (tree : FsManifest)
    → KeysUnique writes
    → Within (q, e) writes
    → Map.get q (write_all writes tree).entries ≡ some e
unfolding write_all insert_entry
write_all-writes q e [] tree u within = elim within [ ]
write_all-writes q e ((k, f) ∷ writes) tree (fresh, u) (inr later) =
    write_all-writes q e writes (insert_entry k f tree) u later
write_all-writes q e ((k, f) ∷ writes) tree (fresh, u) (inl same) =
    let same_key : q ≡ k = ap (λ (w : String × FileEntry). w.0) same in
    let same_entry : e ≡ f = ap (λ (w : String × FileEntry). w.1) same in
    write_all-keeps q writes (insert_entry k f tree)
      (ap (λ x. Map.contains_key x writes) same_key ∙ fresh)
    ∙ get-insert k q f tree.entries
    ∙ rw (same_key, str_eq_refl k) (ap some (sym same_entry))
