-- ===== src/Compression/Cache.antt =====
-- pkg/compression/compressor.go: the size of the cache of signatures.
use Prim.Native.Nat.{max}
use mathlib.Core.Bool.{false≢true}
use mathlib.Core.Logic.{∥∥₁_elim}
use mathlib.Core.List.{Perm, Mem, Memᴰ, mem-cons_self, mem-cons_of_mem}
use mathlib.Core.List.Perm
use native.Mathlib.Bridge.{le_prop}
use a.Prelude.{
  ℕ, suc, ◌+◌, ◌-◌, ◌%◌, ◌^◌, ◌≤◌, ◌<◌, ◌≡◌, refl, sym, subst, ◌∙◌, ap, ◌⊎◌, inl, inr, Bool, true,
  false, ◌&&◌, some, List, [], ◌∷◌, arith, length, All, Bool-cases, Option-cases, List-cases, ◌==◌,
}
use a.Golang.Counter.{add_u64}
use a.Golang.Dict.{lookup, insert, delete}
use a.Golang.Int.{ℤ, pos, negsuc, lt_int}
use a.Golang.Slice.{Bytes}
use a.Golang.Text.{bytes_eq}
use a.Golang.Text.Laws.{bytes_eq_iff, bytes_eq_refl}
use a.Model.Span.{Span}
use a.Model.Tree.{Tree, Sorter}
use a.Compression.State.{SubtreeSignature, CompressionStats, Cache, Compressor}
use a.Compression.Signature.{
  oldest_key, evict_old_cache, cache_signature, count_lookup, compute_subtree_signature,
}

module _ {V : Type 0} where
  length-delete : (k : Bytes) (m : List (Bytes × V)) → length (delete k m) ≤ length m
  unfolding delete
  length-delete k [] = omega arith
  length-delete k ((j, v) ∷ m) = ground (arith, length-delete k m)

  length-delete_mem :
      (e : Bytes × V) (m : List (Bytes × V)) → Memᴰ e m → length (delete e.0 m) < length m
  unfolding delete
  length-delete_mem e [] h = elim h [ ]
  length-delete_mem e ((j, v) ∷ m) (Memᴰ.head p) =
      let same : bytes_eq j e.0 ≡ true = (bytes_eq_iff j e.0).1 (sym (ap (λ x. x.0) p)) in
      let shorter = length-delete e.0 m in rw same (omega (arith, shorter))
  length-delete_mem e ((j, v) ∷ m) (Memᴰ.tail h) = ground (arith, length-delete_mem e m h)

  length-insert :
      (k : Bytes) (v : V) (m : List (Bytes × V)) → length (insert k v m) ≤ suc (length m)
  unfolding insert
  length-insert k v [] = omega arith
  length-insert k v ((j, w) ∷ m) = ground (arith, length-insert k v m)

  length-insert_over :
      (k : Bytes) (v w : V) (m : List (Bytes × V))
      → lookup k m ≡ some w
      → length (insert k v m) ≡ length m
  unfolding insert lookup
  length-insert_over k v w [] e = cc
  length-insert_over k v w ((j, u) ∷ m) e = ground (arith, e, length-insert_over k v w m)

-- The key that is deleted is one of the cache.
oldest_key-mem :
    (entries : Cache) (oldest : Bytes)
    → (oldest_key entries oldest ≡ oldest)
      ⊎ ((v : SubtreeSignature) × Mem (oldest_key entries oldest, v) entries)
unfolding oldest_key
oldest_key-mem [] oldest = inl refl
oldest_key-mem ((k, v) ∷ entries) oldest = elim (Bool-cases (v.count == 1 && bytes_eq oldest [])) [
  | inl e ↦
      rw (e, oldest_key)
        (elim (oldest_key-mem entries k) [
          | inl same ↦ inr (v, subst (λ j. Mem (j, v) ((k, v) ∷ entries)) (sym same) mem-cons_self)
          | inr (w, m) ↦ inr (w, mem-cons_of_mem (k, v) m)
        ])
  | inr e ↦
      rw (e, oldest_key)
        (elim (oldest_key-mem entries oldest) [
          | inl same ↦ inl same
          | inr (w, m) ↦ inr (w, mem-cons_of_mem (k, v) m)
        ])
]

length-delete_entry :
    (k : Bytes) (v : SubtreeSignature) (cache : Cache)
    → Mem (k, v) cache
    → length (delete k cache) < length cache
length-delete_entry k v cache m =
    ∥∥₁_elim {P = length (delete k cache) < length cache} m le_prop (length-delete_mem (k, v) cache)

module _ (order : Cache → Cache) (permutes : (cache : Cache) → Perm (order cache) cache) where
  -- Evicting makes a cache shorter that is not empty.
  length-evict_old_cache : (cache : Cache) → length (evict_old_cache order cache) ≤ length cache - 1
  unfolding evict_old_cache
  length-evict_old_cache cache = elim (Bool-cases (bytes_eq (oldest_key (order cache) []) [])) [
    | inl e ↦ elim (List-cases (order cache)) [
      | inl empty ↦
          let all_gone : [] ≡ cache =
            Perm.nil-eq (subst (λ c. Perm c cache) empty (permutes cache)) in
          rw (e, empty, evict_old_cache) (rw (sym all_gone) (omega arith))
      | inr ((k, v), rest, first) ↦
          let there : Mem (k, v) cache =
            (Perm.mem_iff (permutes cache)).0 (subst (Mem (k, v)) (sym first) mem-cons_self) in
          rw (e, first, evict_old_cache) (omega (arith, length-delete_entry k v cache there))
    ]
    | inr e ↦ elim (oldest_key-mem (order cache) []) [
      | inl same ↦ absurd (false≢true (sym e ∙ ap (λ k. bytes_eq k []) same ∙ bytes_eq_refl []))
      | inr (v, there) ↦
          rw (e, evict_old_cache)
            (omega (arith, length-delete_entry _ v cache ((Perm.mem_iff (permutes cache)).0 there)))
    ]
  ]

-- The most entries that a cache with a maximal size gets: one is put in even if that is 0 or less.
abbrev pub slots : ℤ → ℕ
slots (pos n) = max 1 n
slots (negsuc n) = 1

fits : (size : ℤ) (n : ℕ) → n ≤ slots size → lt_int (pos n) size ≡ true → suc n ≤ slots size
fits (pos m) n h e = ground (arith, e)
fits (negsuc m) n h e = cc

slots-positive : (size : ℤ) → 1 ≤ slots size
slots-positive (pos n) = omega arith
slots-positive (negsuc n) = omega arith

module _ (order : Cache → Cache) (permutes : (cache : Cache) → Perm (order cache) cache) where
  length-cache_signature :
      (size : ℤ) (sig : SubtreeSignature) (cache : Cache)
      → length cache ≤ slots size
      → length (cache_signature order size sig cache).0 ≤ slots size
  unfolding cache_signature
  length-cache_signature size sig cache h = elim (Option-cases (lookup sig.hash cache)) [
    | inr (existing, e) ↦
        rw (e, cache_signature)
          (omega (
            arith,
            h,
            length-insert_over sig.hash (record existing { count = add_u64 existing.count 1 })
                existing cache e,
          ))
    | inl e ↦ elim (Bool-cases (lt_int (pos (length cache)) size)) [
      | inl room ↦
          rw (e, room, cache_signature)
            (omega (arith, length-insert sig.hash sig cache, fits size (length cache) h room))
      | inr full ↦
          let evicted = evict_old_cache order cache in
          rw (e, full, cache_signature)
            (omega (
              arith,
              h,
              length-insert sig.hash sig evicted,
              length-evict_old_cache order permutes cache,
              slots-positive size,
            ))
    ]
  ]

module _ {F : Type 0} where
  -- The signatures of a sequence of spans, each with the order in which its call visits the cache.
  abbrev pub run : Sorter → List ((Cache → Cache) × Tree (Span F)) → Compressor F → Compressor F
  run sorter [] c = c
  run sorter ((order, root) ∷ calls) c =
      run sorter calls (compute_subtree_signature sorter order root c).2

  abbrev pub lookups : Compressor F → ℕ
  lookups c = (c.stats.cache_hits + c.stats.cache_misses) % 2 ^ 64

  lookups-count_lookup :
      (is_duplicate : Bool) (stats : CompressionStats F)
      → ((count_lookup is_duplicate stats).cache_hits
            + (count_lookup is_duplicate stats).cache_misses)
          % 2 ^ 64
        ≡ (stats.cache_hits + stats.cache_misses + 1) % 2 ^ 64
  lookups-count_lookup true stats = omega arith
  lookups-count_lookup false stats = omega arith

  -- Whatever spans are signed in whatever order a cache is visited, a cache that has at most as many
  -- entries as its maximal size, or at most one, stays so, and every call is counted as one hit or
  -- one miss, up to the wrap of the two counters.
  pub run-IsBounded :
      (sorter : Sorter) (calls : List ((Cache → Cache) × Tree (Span F))) (c : Compressor F)
      → All (λ call. (cache : Cache) → Perm (call.0 cache) cache) calls
      → length c.signature_cache ≤ slots c.max_cache_size
      → (length (run sorter calls c).signature_cache ≤ slots c.max_cache_size)
        × (lookups (run sorter calls c) ≡ (lookups c + length calls) % 2 ^ 64)
  unfolding compute_subtree_signature
  run-IsBounded sorter [] c orders h = (h, omega arith)
  run-IsBounded sorter ((order, root) ∷ calls) c (permutes, orders) h =
      let c' = (compute_subtree_signature sorter order root c).2 in
      let sig = (compute_subtree_signature sorter order root c).1 in
      let bound = length-cache_signature order permutes c.max_cache_size sig c.signature_cache h in
      let (more, count) = run-IsBounded sorter calls c' orders bound in
      let one =
        lookups-count_lookup (cache_signature order c.max_cache_size sig c.signature_cache).1
          c.stats in
      (more, omega (arith, count, one))
