-- ===== src/Storage/Retry.antt =====
-- pkg/storage/clickhouse.go: the attempts of `flushWithRetry`.
use native.Mathlib.Numerals.{add-one}
use a.Prelude.{
  ℕ, zero, suc, ◌+◌, ◌-◌, ◌^◌, ◌≤◌, ◌<◌, ◌≡◌, refl, ap, ◌∙◌, ◌⊎◌, inl, inr, Bool, true, false, not,
  ◌&&◌, List, arith, ltb, Bool-cases, if◌then◌else◌,
}
use a.Golang.Counter.{add_u64}
use a.Model.Span.{Span}
use a.Storage.Writer.{Stats, Driver, do_flush, flush_from, flush_with_retry}

module _ {F : Type 0} (driver : Driver F) (batch : List (Span F)) where
  open driver use {Conn}

  -- The connection behind k attempts, and whether each of them failed.
  abbrev pub after : ℕ → Conn → Conn
  after zero c = c
  after (suc k) c = after k (do_flush driver batch c).0

  abbrev pub fail : ℕ → Conn → Bool
  fail zero c = true
  fail (suc k) c = not (do_flush driver batch c).1 && fail k (do_flush driver batch c).0

  abbrev pub retried : ℕ → Stats → Stats
  retried k st = record st { retried_batches = st.retried_batches + k }

  -- What a loop comes to that has some attempts left, the first of which counts `first` retries: an
  -- attempt succeeds behind k that fail, or all fail.
  abbrev pub Outcome : ℕ → ℕ → Stats → Conn → Stats × Conn × Bool → Type 0
  Outcome left first st c r =
      ((k : ℕ) × (k < left)
        × (fail k c ≡ true)
        × ((do_flush driver batch (after k c)).1 ≡ true)
        × (r ≡ (retried (k + first) st, after (suc k) c, true)))
      ⊎ ((fail left c ≡ true) × (r ≡ (retried (left + first - 1) st, after left c, false)))

  abbrev counted : ℕ → Stats → Stats
  counted attempt st =
      if ltb 0 attempt then record st { retried_batches = add_u64 st.retried_batches 1 } else st

  flush_done :
      (left attempt : ℕ) (st : Stats) (c : Conn)
      → (do_flush driver batch c).1 ≡ true
      → flush_from driver (suc left) attempt batch st c
        ≡ (counted attempt st, (do_flush driver batch c).0, true)
  unfolding flush_from
  flush_done left attempt st c e = rw (e, flush_from) refl

  flush_again :
      (left attempt : ℕ) (st : Stats) (c : Conn)
      → (do_flush driver batch c).1 ≡ false
      → flush_from driver (suc left) attempt batch st c
        ≡ flush_from driver left
            (attempt + 1)
            batch
            (counted attempt st)
            (do_flush driver batch c).0
  unfolding flush_from
  flush_again left attempt st c e = rw (e, flush_from) refl

  counted_retry :
      (attempt : ℕ) (st : Stats)
      → st.retried_batches + 1 < 2 ^ 64
      → counted (attempt + 1) st ≡ retried 1 st
  counted_retry attempt st small = ground arith

  retries_done :
      (left attempt : ℕ) (st : Stats) (c : Conn)
      → st.retried_batches + suc left < 2 ^ 64
      → (do_flush driver batch c).1 ≡ true
      → Outcome (suc left) 1 st c (flush_from driver (suc left) (attempt + 1) batch st c)
  retries_done left attempt st c small e = inl (
    0,
    omega arith,
    refl,
    e,
    flush_done left (attempt + 1) st c e
        ∙ ap (λ s. (s, (do_flush driver batch c).0, true))
            (counted_retry attempt st (omega (arith, small))),
  )

  retried-retried : (m n j : ℕ) (st : Stats) → m + n ≡ j → retried m (retried n st) ≡ retried j st
  retried-retried m n j st h = ap (λ x. record st { retried_batches = x }) (omega (arith, h))

  retried_none : (j : ℕ) (st : Stats) → j ≡ 0 → st ≡ retried j st
  retried_none j st h = ap (λ x. record st { retried_batches = x }) (omega (arith, h))

  fail-suc :
      (k : ℕ) (c : Conn)
      → (do_flush driver batch c).1 ≡ false
      → fail k (do_flush driver batch c).0 ≡ true
      → fail (suc k) c ≡ true
  fail-suc k c e h = rw (e, h)

  retries_again :
      (left attempt : ℕ) (st : Stats) (c : Conn)
      → st.retried_batches + suc left < 2 ^ 64
      → (do_flush driver batch c).1 ≡ false
      → Outcome left 1 (retried 1 st) (do_flush driver batch c).0 (
          flush_from driver left (attempt + 1 + 1) batch (retried 1 st) (do_flush driver batch c).0)
      → Outcome (suc left) 1 st c (flush_from driver (suc left) (attempt + 1) batch st c)
  retries_again left attempt st c small e o =
      let again =
        flush_again left (attempt + 1) st c e
        ∙ ap (λ s. flush_from driver left (attempt + 1 + 1) batch s (do_flush driver batch c).0)
            (counted_retry attempt st (omega (arith, small))) in
      elim o [
        | inl (k, lt, failed, done, r) ↦ inl (
          suc k,
          omega (arith, lt),
          fail-suc k c e failed,
          done,
          again
              ∙ (r
                  ∙ ap (λ s. (s, after (suc (suc k)) c, true))
                      (retried-retried (k + 1) 1 (suc k + 1) st (omega arith))),
        )
        | inr (failed, r) ↦ inr (
          fail-suc left c e failed,
          again
              ∙ (r
                  ∙ ap (λ s. (s, after (suc left) c, false))
                      (retried-retried (left + 1 - 1) 1 (suc left + 1 - 1) st (omega arith))),
        )
      ]

  retries :
      (left attempt : ℕ) (st : Stats) (c : Conn)
      → st.retried_batches + left < 2 ^ 64
      → Outcome left 1 st c (flush_from driver left (attempt + 1) batch st c)
  unfolding flush_from
  retries zero attempt st c small =
      inr (refl, ap (λ s. (s, c, false)) (retried_none (0 + 1 - 1) st (omega arith)))
  retries (suc left) attempt st c small = elim (Bool-cases (do_flush driver batch c).1) [
    | inl e ↦ retries_done left attempt st c small e
    | inr e ↦ retries_again left attempt st c small e (
        retries left (attempt + 1) (retried 1 st) (do_flush driver batch c).0
          (omega (arith, small)))
  ]

  retried-cast : (i j : ℕ) (st : Stats) → i ≡ j → retried i st ≡ retried j st
  retried-cast i j st e = ap (λ n. retried n st) e

  open_loop :
      (max : ℕ) (st : Stats) (c : Conn)
      → flush_with_retry driver max batch st c ≡ flush_from driver (suc max) 0 batch st c
  unfolding flush_with_retry
  open_loop max st c = rw add-one refl

  -- `flushWithRetry` flushes at most `maxRetries` + 1 times, one time behind the other, until a flush
  -- succeeds, and counts each flush but the first as a retry (in a counter that does not wrap): it
  -- returns nil behind k failed flushes and one that succeeded, for a k of at most `maxRetries`, or
  -- an error where all `maxRetries` + 1 flushes failed.
  pub flush_with_retry_lem :
      (max : ℕ) (st : Stats) (c : Conn)
      → st.retried_batches + max < 2 ^ 64
      → ((k : ℕ) × (k ≤ max)
          × (fail k c ≡ true)
          × ((do_flush driver batch (after k c)).1 ≡ true)
          × (flush_with_retry driver max batch st c ≡ (retried k st, after (suc k) c, true)))
        ⊎ ((fail (suc max) c ≡ true)
            × (flush_with_retry driver max batch st c ≡ (retried max st, after (suc max) c, false)))
  flush_with_retry_lem max st c small = elim (Bool-cases (do_flush driver batch c).1) [
    | inl e ↦ inl (
      0,
      omega arith,
      refl,
      e,
      open_loop max st c
          ∙ (flush_done max 0 st c e ∙ ap (λ s. (s, after 1 c, true)) (retried_none 0 st refl)),
    )
    | inr e ↦ elim (retries max 0 st (do_flush driver batch c).0 small) [
      | inl (k, lt, failed, done, r) ↦ inl (
        suc k,
        omega (arith, lt),
        fail-suc k c e failed,
        done,
        open_loop max st c
            ∙ (flush_again max 0 st c e
                ∙ (r
                    ∙ ap (λ s. (s, after (suc (suc k)) c, true))
                        (retried-cast (k + 1) (suc k) st (omega arith)))),
      )
      | inr (failed, r) ↦ inr (
        fail-suc max c e failed,
        open_loop max st c
            ∙ (flush_again max 0 st c e
                ∙ (r
                    ∙ ap (λ s. (s, after (suc max) c, false))
                        (retried-cast (max + 1 - 1) max st (omega arith)))),
      )
    ]
  ]
