-- ===== src/Compression/Signature.antt =====
-- pkg/compression/compressor.go: `ComputeSubtreeSignature`, with the signature's cache. The order in
-- which a `range` visits the cache is an argument. The signature that a call returns is shared with
-- the cache, which is of no effect here, as a caller reads it at once.
use a.Prelude.{
  ℕ, ◌+◌, Bool, false, ◌&&◌, none, some, List, [], ◌∷◌, ◌++◌, ltb, ◌==◌, if◌then◌else◌, length,
}
use a.Golang.Counter.{add_u64}
use a.Golang.Dict.{lookup, insert, delete}
use a.Golang.Hash.{fnv64a, hex64}
use a.Golang.Int.{ℤ, pos, int64, lt_int}
use a.Golang.Slice.{Bytes}
use a.Golang.Text.{text, concat, bytes_eq}
use a.Model.Span.{Span}
use a.Model.Tree.{Tree, Forest, node, nil, cons, Sorter, sort_tree}
use a.Compression.State.{SubtreeSignature, CompressionStats, Cache, Compressor}

module _ {F : Type 0} where
  -- `countDepth`, and its loop over the children.
  unfoldable mutual
    pub count_depth : Tree (Span F) → ℕ
    count_depth (node span nil) = 1
    count_depth (node span (cons child rest)) = deepest_child (cons child rest) 0 + 1

    pub deepest_child : Forest (Span F) → ℕ → ℕ
    deepest_child nil max_child = max_child
    deepest_child (cons child rest) max_child =
        let d = count_depth child in deepest_child rest (if ltb max_child d then d else max_child)

  -- `buildSubtreeStructure` of a span whose children are sorted, and the operations that it appends.
  unfoldable mutual
    pub build_subtree_structure : Tree (Span F) → Bytes → List Bytes → Bytes × List Bytes
    build_subtree_structure (node span nil) indent operations = (
      concat (indent ∷ span.service_name ∷ text ":" ∷ span.operation ∷ text "\n" ∷ []),
      operations ++ (span.operation ∷ []),
    )
    build_subtree_structure (node span (cons child rest)) indent operations =
        let (below, operations) =
          build_children (cons child rest) (indent ++ text "  ")
            (operations ++ (span.operation ∷ [])) in
        (
          concat (
              indent
              ∷ span.service_name
              ∷ text ":"
              ∷ span.operation
              ∷ text "[\n"
              ∷ below
              ∷ indent
              ∷ text "]"
              ∷ text "\n"
              ∷ []),
          operations,
        )

    pub build_children : Forest (Span F) → Bytes → List Bytes → Bytes × List Bytes
    build_children nil indent operations = ([], operations)
    build_children (cons child rest) indent operations =
        let (first, operations) = build_subtree_structure child indent operations in
        let (others, operations) = build_children rest indent operations in
        (first ++ others, operations)

  -- The signature of a tree whose children are sorted.
  unfoldable pub signature_of : Tree (Span F) → SubtreeSignature
  signature_of root =
      let (structure, operations) = build_subtree_structure root [] [] in
      record {
        hash = hex64 (fnv64a structure);
        structure = structure;
        operations = operations;
        depth = count_depth root;
        count = 1;
      }

-- `evictOldCache` for the entries in the order of the range: the first key with a count of 1 that is
-- not empty, and the first key if there is none.
unfoldable pub oldest_key : Cache → Bytes → Bytes
oldest_key [] oldest = oldest
oldest_key ((k, v) ∷ entries) oldest =
    oldest_key entries (if v.count == 1 && bytes_eq oldest [] then k else oldest)

unfoldable pub evict_old_cache : (Cache → Cache) → Cache → Cache
evict_old_cache order cache =
    let oldest = oldest_key (order cache) [] in
    if bytes_eq oldest []
    then (elim (order cache) [ [] ↦ cache | (k, v) ∷ rest ↦ delete k cache ])
    else delete oldest cache

-- The cache behind a call, and whether its signature was there.
unfoldable pub cache_signature : (Cache → Cache) → ℤ → SubtreeSignature → Cache → Cache × Bool
cache_signature order max_cache_size sig cache = elim (lookup sig.hash cache) [
  | some existing ↦
      let count = add_u64 existing.count 1 in
      (insert sig.hash (record existing { count = count }) cache, lt_int (pos 1) (int64 count))
  | none ↦
      let room =
        if lt_int (pos (length cache)) max_cache_size then cache else evict_old_cache order cache in
      (insert sig.hash sig room, false)
]

module _ {F : Type 0} where
  abbrev pub count_lookup : Bool → CompressionStats F → CompressionStats F
  count_lookup is_duplicate stats =
      if is_duplicate
      then record stats { cache_hits = add_u64 stats.cache_hits 1 }
      else record stats { cache_misses = add_u64 stats.cache_misses 1 }

  -- `ComputeSubtreeSignature`, which sorts the children of every span below the root.
  unfoldable pub compute_subtree_signature :
      Sorter
      → (Cache → Cache)
      → Tree (Span F)
      → Compressor F
      → Tree (Span F) × SubtreeSignature × Compressor F
  compute_subtree_signature sorter order root c =
      let sorted = sort_tree sorter (λ s. s.start_time) root in
      let sig = signature_of sorted in
      let (cache, is_duplicate) = cache_signature order c.max_cache_size sig c.signature_cache in
      let c' : Compressor F = record c {
        signature_cache = cache;
        stats = count_lookup is_duplicate c.stats;
      } in
      (sorted, sig, c')
