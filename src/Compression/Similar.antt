-- ===== src/Compression/Similar.antt =====
-- pkg/compression/compressor.go: `FindSimilarTraces`. The order in which a `range` visits the cache is
-- an argument.
use a.Prelude.{
  ℕ, suc, ◌+◌, ◌-◌, Bool, true, ◌||◌, Option, none, some, List, [], ◌∷◌, ◌==◌, if◌then◌else◌,
  length,
}
use a.Golang.Dict.{lookup, insert}
use a.Golang.Float.{Float}
use a.Golang.Int.{pos}
use a.Golang.Slice.{Bytes}
use a.Golang.Text.{bytes_eq}
use a.Compression.State.{SubtreeSignature, Cache, Compressor}

-- The operations as a set.
unfoldable pub set_of : List Bytes → List (Bytes × Bool) → List (Bytes × Bool)
set_of [] m = m
set_of (op ∷ ops) m = set_of ops (insert op true m)

-- How many operations of a list are in a set, each as often as it stands in the list.
unfoldable pub count_common : List (Bytes × Bool) → List Bytes → ℕ
count_common m [] = 0
count_common m (op ∷ ops) =
    let rest = count_common m ops in
    elim (lookup op m) [ none ↦ rest | some b ↦ if b then suc rest else rest ]

module _ (fl : Float) where
  open fl use {F, fle, fdiv, of_int, lit}

  unfoldable pub compute_similarity : SubtreeSignature → SubtreeSignature → F
  compute_similarity a b =
      if length a.operations == 0 || length b.operations == 0
      then lit 0 0
      else (let set_a = set_of a.operations [] in
          let intersection = count_common set_a b.operations in
          let union = length set_a + length b.operations - intersection in
          if union == 0 then lit 0 0 else fdiv (of_int (pos intersection)) (of_int (pos union)))

  -- The loop of `FindSimilarTraces` over the entries of the cache.
  unfoldable pub similar_entries : SubtreeSignature → F → Cache → List SubtreeSignature
  similar_entries sig threshold [] = []
  similar_entries sig threshold ((k, existing) ∷ entries) =
      let rest = similar_entries sig threshold entries in
      if bytes_eq existing.hash sig.hash
      then rest
      else if fle threshold (compute_similarity sig existing)
      then existing ∷ rest
      else rest

  -- `FindSimilarTraces`; a nil signature is `none`.
  unfoldable pub find_similar_traces :
      (Cache → Cache) → Option SubtreeSignature → F → Compressor F → List SubtreeSignature
  find_similar_traces order none threshold c = []
  find_similar_traces order (some sig) threshold c =
      similar_entries sig threshold (order c.signature_cache)
