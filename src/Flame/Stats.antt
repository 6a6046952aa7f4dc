-- ===== src/Flame/Stats.antt =====
-- pkg/flamegraph/flamegraph.go: `GetFrameStats`. A missing entry of the map is a nil pointer, whose
-- use is a panic.
use a.Prelude.{
  ℕ, ◌+◌, ◌<◌, ◌≡◌, refl, sym, ◌∙◌, ap, Bool, true, false, Option, none, some, List, [], ◌∷◌, ◌++◌,
  arith, if◌then◌else◌, Bool-cases, Option-cases, inl, inr,
}
use a.Golang.Dict.{lookup, insert, lookup-insert}
use a.Golang.Float.{Float}
use a.Golang.Result.{Result, ok, panic, ◌>>=◌}
use a.Golang.Slice.{Bytes}
use a.Golang.Text.{bytes_eq}
use a.Golang.Text.Laws.{bytes_eq_iff, bytes_eq_refl}
use a.Model.Tree.{Tree, Forest, node, nil, cons, label, labels, labels_all}
use a.Flame.Frame.{FlameFrame, FlameGraph}

pub record FrameStats (F : Type 0) : Type 0 where
  pub total_time : F
  pub self_time : F
  pub call_count : ℕ
  pub percentage : F

abbrev pub Stats : Type 0 → Type 0
Stats F = List (Bytes × FrameStats F)

module _ (fl : Float) where
  open fl use {F, fadd, fsub, fmul, fdiv, lit}

  abbrev pub percentage_of : F → F → F
  percentage_of time root_duration = fmul (fdiv time root_duration) (lit 100 0)

  -- The entry of a frame's name, with this frame.
  unfoldable pub begin_frame : F → FlameFrame F → Stats F → Stats F
  begin_frame root_duration frame stats = elim (lookup frame.name stats) [
    | some s ↦
        insert frame.name
          (record s {
            total_time = fadd s.total_time frame.duration;
            call_count = s.call_count + 1;
          })
          stats
    | none ↦
        insert frame.name
          (record {
            total_time = frame.duration;
            self_time = lit 0 0;
            call_count = 1;
            percentage = percentage_of frame.duration root_duration;
          })
          stats
  ]

  abbrev finished : F → FlameFrame F → F → FrameStats F → FrameStats F
  finished root_duration frame child_time s = record s {
    self_time = fsub frame.duration child_time;
    percentage = percentage_of s.total_time root_duration;
  }

  -- What the entry gets behind the children.
  unfoldable pub finish_frame : F → FlameFrame F → F → Stats F → Result (Stats F)
  finish_frame root_duration frame child_time stats = elim (lookup frame.name stats) [
    | none ↦ panic
    | some s ↦ ok (insert frame.name (finished root_duration frame child_time s) stats)
  ]

  -- `collectFrameStats`, and its loop over the children, which sums their durations.
  unfoldable mutual
    pub collect_frame_stats : F → Tree (FlameFrame F) → Stats F → Result (Stats F)
    collect_frame_stats root_duration (node frame children) stats = do
      (child_time, stats) ←
          collect_child_stats root_duration children (lit 0 0)
            (begin_frame root_duration frame stats)
      finish_frame root_duration frame child_time stats

    pub collect_child_stats : F → Forest (FlameFrame F) → F → Stats F → Result (F × Stats F)
    collect_child_stats root_duration nil child_time stats = ok (child_time, stats)
    collect_child_stats root_duration (cons child rest) child_time stats = do
      stats ← collect_frame_stats root_duration child stats
      collect_child_stats root_duration rest (fadd child_time (label child).duration) stats

  -- `GetFrameStats`
  unfoldable pub get_frame_stats : FlameGraph F → Result (Stats F)
  get_frame_stats fg = collect_frame_stats (label fg.root).duration fg.root []

  -- How often a frame of a name is counted, and how often it occurs.
  abbrev count_of : Option (FrameStats F) → ℕ
  count_of none = 0
  count_of (some s) = s.call_count

  abbrev pub calls : Bytes → Stats F → ℕ
  calls name stats = count_of (lookup name stats)

  abbrev one_if : Bool → ℕ
  one_if b = if b then 1 else 0

  abbrev pub occurrences : Bytes → List (FlameFrame F) → ℕ
  occurrences name [] = 0
  occurrences name (frame ∷ frames) = one_if (bytes_eq frame.name name) + occurrences name frames

  count_of-if :
      (b : Bool) (s : FrameStats F) (o : Option (FrameStats F))
      → count_of (if b then some s else o) ≡ (if b then s.call_count else count_of o)
  count_of-if true s o = refl
  count_of-if false s o = refl

  calls-insert :
      (key name : Bytes) (s : FrameStats F) (stats : Stats F)
      → calls name (insert key s stats)
        ≡ (if bytes_eq key name then s.call_count else calls name stats)
  calls-insert key name s stats =
      ap count_of (lookup-insert key name s stats)
      ∙ count_of-if (bytes_eq key name) s (lookup name stats)

  -- A frame counted where its name has been counted n times.
  calls-counted :
      (key name : Bytes) (s : FrameStats F) (stats : Stats F)
      → s.call_count ≡ 1 + calls key stats
      → calls name (insert key s stats) ≡ one_if (bytes_eq key name) + calls name stats
  calls-counted key name s stats e = elim (Bool-cases (bytes_eq key name)) [
    | inl same ↦
        let at : calls key stats ≡ calls name stats =
          ap (λ k. calls k stats) ((bytes_eq_iff key name).0 same) in
        calls-insert key name s stats ∙ rw same (e ∙ ap (λ n. 1 + n) at)
    | inr other ↦ calls-insert key name s stats ∙ rw other (omega arith)
  ]

  begin_frame-calls :
      (root : F) (frame : FlameFrame F) (stats : Stats F) (name : Bytes)
      → calls name (begin_frame root frame stats)
        ≡ one_if (bytes_eq frame.name name) + calls name stats
  unfolding begin_frame
  begin_frame-calls root frame stats name = elim (Option-cases (lookup frame.name stats)) [
    | inl e ↦
        rw (e, begin_frame)
          (calls-counted frame.name name _ stats (ap (λ o. 1 + count_of o) (sym e)))
    | inr (s, e) ↦
        let at : s.call_count ≡ calls frame.name stats = ap count_of (sym e) in
        rw (e, begin_frame) (calls-counted frame.name name _ stats (omega (arith, at)))
  ]

  uncounted :
      (key name : Bytes) (s : FrameStats F) (stats : Stats F)
      → calls key stats ≡ s.call_count
      → (if bytes_eq key name then s.call_count else calls name stats) ≡ calls name stats
  uncounted key name s stats e = elim (Bool-cases (bytes_eq key name)) [
    | inl same ↦ rw same (sym e ∙ ap (λ k. calls k stats) ((bytes_eq_iff key name).0 same))
    | inr other ↦ rw other refl
  ]

  -- The entry of a frame that is counted is there, and its count stays.
  finish_frame-calls :
      (root : F) (frame : FlameFrame F) (time : F) (stats : Stats F)
      → 0 < calls frame.name stats
      → (after : Stats F) × (finish_frame root frame time stats ≡ ok after)
        × ((name : Bytes) → calls name after ≡ calls name stats)
  unfolding finish_frame
  finish_frame-calls root frame time stats h = elim (Option-cases (lookup frame.name stats)) [
    | inl e ↦ let at : calls frame.name stats ≡ 0 = ap count_of e in absurd (omega (arith, h, at))
    | inr (s, e) ↦
        let same = λ (name : Bytes).
          calls-insert frame.name name (finished root frame time s) stats
          ∙ uncounted frame.name name s stats (ap count_of e) in
        rw (e, finish_frame) (insert frame.name (finished root frame time s) stats, refl, same)
  ]

  -- What collecting does to the counts.
  abbrev Counts : Stats F → List (FlameFrame F) → Stats F → Type 0
  Counts before frames after =
      (name : Bytes) → calls name after ≡ calls name before + occurrences name frames

  occurrences-append :
      (name : Bytes) (xs ys : List (FlameFrame F))
      → occurrences name (xs ++ ys) ≡ occurrences name xs + occurrences name ys
  occurrences-append name [] ys = omega arith
  occurrences-append name (x ∷ xs) ys = omega (arith, occurrences-append name xs ys)

  mutual
    unfolding collect_frame_stats labels

    collect_frame_stats-calls :
        (root : F) (t : Tree (FlameFrame F)) (stats : Stats F)
        → (after : Stats F) × (collect_frame_stats root t stats ≡ ok after)
          × Counts stats (labels t) after
    collect_frame_stats-calls root (node frame ts) stats =
        let (time, mid, e, counts) =
          collect_child_stats-calls root ts (lit 0 0) (begin_frame root frame stats) in
        let begun = begin_frame-calls root frame stats in
        let self : bytes_eq frame.name frame.name ≡ true = bytes_eq_refl frame.name in
        let own : one_if (bytes_eq frame.name frame.name) ≡ 1 = ap one_if self in
        let (after, e', same) =
          finish_frame-calls root frame time mid
            (omega (arith, counts frame.name, begun frame.name, own)) in
        (
          after,
          rw (e, collect_frame_stats) e',
          λ name. omega (arith, counts name, begun name, same name),
        )

    collect_child_stats-calls :
        (root : F) (ts : Forest (FlameFrame F)) (time : F) (stats : Stats F)
        → (time' : F) × (after : Stats F) × (collect_child_stats root ts time stats
            ≡ ok (time', after))
          × Counts stats (labels_all ts) after
    collect_child_stats-calls root nil time stats = (time, stats, refl, λ name. omega arith)
    collect_child_stats-calls root (cons t ts) time stats =
        let (mid, e, counts) = collect_frame_stats-calls root t stats in
        let (time', after, e', counts') =
          collect_child_stats-calls root ts (fadd time (label t).duration) mid in
        (
          time',
          after,
          rw (e, collect_child_stats) e',
          λ name. omega (
            arith,
            counts name,
            counts' name,
            occurrences-append name (labels t) (labels_all ts),
          ),
        )

  -- `GetFrameStats` does not panic, and its entry of a name counts the frames of that name; a name
  -- without an entry has none.
  pub get_frame_stats-calls :
      (fg : FlameGraph F)
      → (stats : Stats F) × (get_frame_stats fg ≡ ok stats)
        × ((name : Bytes) → calls name stats ≡ occurrences name (labels fg.root))
  unfolding get_frame_stats lookup
  get_frame_stats-calls fg =
      let (stats, e, counts) = collect_frame_stats-calls (label fg.root).duration fg.root [] in
      (stats, e, λ name. omega (arith, counts name))
