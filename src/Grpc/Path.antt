-- ===== src/Grpc/Path.antt =====
-- pkg/protocol/parser.go: where `GRPCParser.Parse` takes the names of the service and the method
-- from.
use a.Prelude.{
  ℕ, suc, ◌^◌, ◌≤◌, ◌<◌, ◌≢◌, ◌≡◌, refl, sym, ◌∙◌, ap, arith, true, some, [], ◌∷◌, ◌++◌, ltb,
  length, get_or, drop, length-append, append_assoc, append-nil, All-append,
}
use a.Golang.Result.{ok}
use a.Golang.Slice.{Bytes}
use a.Golang.Split.{
  cut, split_at, Lacks, split_at-part, split_at-last, index_byte-skip, cut-skip, put_front,
  put_front_lem,
}
use a.Golang.Text.{has_prefix, index_byte, Unicode}
use a.Model.Span.{Span}
use a.Grpc.Parser.{GrpcMessage, name_by_path, start_of, scan_path, parse}
use a.Grpc.Names.{KeepsColons, names, parse-names}

some_left : (n : ℕ) → ltb 0 (suc n) ≡ true
some_left n = ground arith

get_or-append : (xs : Bytes) (y : ℕ) (ys : Bytes) → get_or (xs ++ (y ∷ ys)) (length xs) 0 ≡ y
get_or-append [] y ys = refl
get_or-append (x ∷ xs) y ys = get_or-append xs y ys

drop_past : (xs : Bytes) (y : ℕ) (ys : Bytes) → drop (suc (length xs)) (xs ++ (y ∷ ys)) ≡ ys
drop_past [] y ys = refl
drop_past (x ∷ xs) y ys = drop_past xs y ys

index_past :
    (b : ℕ) (xs : Bytes) (y : ℕ) (ys : Bytes)
    → Lacks b xs
    → y ≢ b
    → index_byte b (xs ++ (y ∷ b ∷ ys)) ≡ some (suc (length xs))
index_past b xs y ys h k =
    ap (index_byte b) (sym (append_assoc xs (y ∷ []) (b ∷ ys)))
    ∙ index_byte-skip b (xs ++ (y ∷ [])) ys (All-append (λ c. c ≢ b) xs (y ∷ []) h (k, tt))
    ∙ ap some (omega (arith, length-append xs (y ∷ [])))

at_zeros : (rest : Bytes) → cut (0 ∷ 0 ∷ 0 ∷ []) (0 ∷ 0 ∷ 0 ∷ rest) ≡ some ([], rest)
unfolding cut has_prefix
at_zeros rest = refl

cut_zeros :
    (path rest : Bytes)
    → Lacks 0 path
    → cut (0 ∷ 0 ∷ 0 ∷ []) (path ++ (0 ∷ 0 ∷ 0 ∷ rest)) ≡ some (path, rest)
cut_zeros path rest h =
    cut-skip 0 (0 ∷ 0 ∷ []) path (0 ∷ 0 ∷ 0 ∷ rest) h
    ∙ ap (put_front path) (at_zeros rest)
    ∙ put_front_lem path [] rest
    ∙ cc (append-nil path)

-- A payload with the path `/service/method` between zero bytes.
abbrev pub with_path : Bytes → Bytes → Bytes → Bytes → Bytes
with_path before service method rest =
    before ++ (0 ∷ (b'/' ∷ (service ++ (b'/' ∷ (method ++ (0 ∷ 0 ∷ 0 ∷ rest))))))

module _ (before service method rest : Bytes) where
  slash_at :
      Lacks b'/' before
      → index_byte b'/' (with_path before service method rest) ≡ some (suc (length before))
  slash_at h =
      index_past b'/' before 0 (service ++ (b'/' ∷ (method ++ (0 ∷ 0 ∷ 0 ∷ rest)))) h (ground arith)

  start_at :
      start_of (with_path before service method rest) (suc (length before)) ≡ suc (length before)
  unfolding start_of
  start_at =
      rw (get_or-append before 0 (b'/' ∷ (service ++ (b'/' ∷ (method ++ (0 ∷ 0 ∷ 0 ∷ rest)))))) refl

  path_at :
      Lacks 0 service
      → Lacks 0 method
      → cut (0 ∷ 0 ∷ 0 ∷ []) (drop (suc (length before)) (with_path before service method rest))
        ≡ some (b'/' ∷ (service ++ (b'/' ∷ method)), rest)
  path_at h k =
      let path : Bytes = b'/' ∷ (service ++ (b'/' ∷ method)) in
      let lacks : Lacks 0 path =
        (ground arith, All-append (λ c. c ≢ 0) service (b'/' ∷ method) h (ground arith, k)) in
      ap (cut (0 ∷ 0 ∷ 0 ∷ [])) (
        drop_past before 0 (b'/' ∷ (service ++ (b'/' ∷ (method ++ (0 ∷ 0 ∷ 0 ∷ rest)))))
        ∙ ap (◌∷◌ b'/') (sym (append_assoc service (b'/' ∷ method) (0 ∷ 0 ∷ 0 ∷ rest))))
      ∙ cut_zeros path rest lacks

  parts_of :
      Lacks b'/' service
      → Lacks b'/' method
      → split_at b'/' (b'/' ∷ (service ++ (b'/' ∷ method))) ≡ [] ∷ service ∷ method ∷ []
  parts_of h k =
      split_at-part b'/' [] (service ++ (b'/' ∷ method)) tt
      ∙ ap (◌∷◌ [])
          (split_at-part b'/' service method h ∙ ap (◌∷◌ service) (split_at-last b'/' method k))

  scan_path-with_path :
      (msg : GrpcMessage)
      → Lacks b'/' before
      → Lacks b'/' service × Lacks 0 service
      → Lacks b'/' method × Lacks 0 method
      → names (scan_path (with_path before service method rest) msg) ≡ ([], service)
  unfolding scan_path name_by_path
  scan_path-with_path msg h k l =
      rw (slash_at h, scan_path)
        (rw start_at (
          rw (path_at k.1 l.1) (
            rw (parts_of k.0 l.0) (
              rw (some_left (length before), some_left (length (service ++ (b'/' ∷ method))))
                refl))))

module _ (u : Unicode) (keeps : KeepsColons u) {F : Type 0} where
  -- On a payload of fewer than 2^32 bytes that holds, behind four bytes or more without a slash, the
  -- path `/service/method` between zero bytes, whose two parts have no slash and no zero byte, `Parse`
  -- returns an empty service and the service for the method, whatever header block it reads, if
  -- `ToLower` and `TrimSpace` make no colon.
  pub parse-with_path :
      (before service method rest : Bytes) (span : Span F)
      → 4 ≤ length before
      → Lacks b'/' before
      → Lacks b'/' service × Lacks 0 service
      → Lacks b'/' method × Lacks 0 method
      → length (with_path before service method rest) < 2 ^ 32
      → (r : GrpcMessage × Span F) × (parse u (with_path before service method rest) span ≡ ok r)
        × (names r.0 ≡ ([], service))
  parse-with_path before service method rest span long h k l short =
      let (r, e, found) =
        parse-names u keeps (with_path before service method rest) span
          (omega (
            arith,
            length-append before
                (0 ∷ (b'/' ∷ (service ++ (b'/' ∷ (method ++ (0 ∷ 0 ∷ 0 ∷ rest)))))),
          ))
          short in
      (r, e, found ∙ scan_path-with_path before service method rest _ h k l)
