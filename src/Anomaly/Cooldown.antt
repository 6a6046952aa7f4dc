-- ===== src/Anomaly/Cooldown.antt =====
-- pkg/anomaly/anomaly.go: the times between two alerts.
use a.Prelude.{
  ℕ, ◌+◌, ◌*◌, ◌^◌, ◌≤◌, ◌<◌, ◌≡◌, refl, sym, ap, subst, ◌∙◌, ◌⊎◌, inl, inr, false, Option, none,
  some, List, [], ◌∷◌, ◌++◌, arith, ltb, if◌then◌else◌, All, All-append, Bool-cases,
}
use a.Golang.Float.{Float}
use a.Golang.Int.{pos}
use a.Golang.Slice.{Bytes}
use a.Golang.Text.{bytes_eq}
use a.Golang.Text.Laws.{bytes_eq_iff}
use a.Model.Span.{Span}
use a.Anomaly.State.{AnomalyDetector, set_time}
use a.Anomaly.Detector.{Clock, is_over, record_span, cleanup_old_stats, cleanup_old_cooldown}
use a.Anomaly.Sends.{IsFree, sends_of, CooldownAfter, record_span-cooldown, record_span-config}

module _ (fl : Float) where
  open fl use {F}

  -- What happens to a detector: a call of `RecordSpan`, or a round of `statsCleanupLoop`.
  pub data Step : Type 0 where
    recorded : Option (Span F) → Clock → Step
    cleaned : ℕ → ℕ → Step

  -- A sequence of steps: the alerts sent, each with the key of its cooldown and its time.
  abbrev pub sends : List Step → AnomalyDetector F → List (Bytes × ℕ)
  sends [] d = []
  sends (recorded span clock ∷ steps) d =
      sends_of fl span (record_span fl span clock d).1 clock.sent_time
      ++ sends steps (record_span fl span clock d).0
  sends (cleaned stats_time cooldown_time ∷ steps) d =
      sends steps (cleanup_old_cooldown fl cooldown_time (cleanup_old_stats fl stats_time d))

  -- A clock that does not run backwards, from a time on.
  abbrev pub IsClocked : ℕ → List Step → Type 0
  IsClocked t [] = Unit
  IsClocked t (recorded span clock ∷ steps) =
      (t ≤ clock.check_time)
      × (clock.check_time ≤ clock.sent_time)
      × IsClocked clock.sent_time steps
  IsClocked t (cleaned stats_time cooldown_time ∷ steps) =
      (t ≤ cooldown_time) × IsClocked cooldown_time steps

-- A send is behind an earlier one of the same key by more than a time.
abbrev pub IsLater : ℕ → Bytes → ℕ → Bytes × ℕ → Type 0
IsLater gap key t send = (bytes_eq key send.0 ≡ false) ⊎ (t + gap < send.1)

abbrev pub AreSpaced : ℕ → List (Bytes × ℕ) → Type 0
AreSpaced gap [] = Unit
AreSpaced gap ((key, t) ∷ sends) = All (IsLater gap key t) sends × AreSpaced gap sends

-- The entry of a key that was sent at u, or later, at a time when it may have been removed.
abbrev IsCovered : ℕ → ℕ → Option ℕ → Type 0
IsCovered now u none = u + 600 * 10 ^ 9 < now
IsCovered now u (some last) = u ≤ last

bytes_eq_comm : (xs ys : Bytes) → bytes_eq xs ys ≡ bytes_eq ys xs
bytes_eq_comm xs ys = ground (arith, bytes_eq_iff xs ys, bytes_eq_iff ys xs)

free-covered :
    (seconds u now check : ℕ) (o : Option ℕ)
    → seconds ≤ 600
    → now ≤ check
    → IsCovered now u o
    → IsFree (pos seconds) check o
    → u + seconds * 10 ^ 9 < check
unfolding is_over
free-covered seconds u now check none small h c f = omega arith
free-covered seconds u now check (some last) small h c f = ground arith

IsCovered-later :
    (now later u : ℕ) (o : Option ℕ) → now ≤ later → IsCovered now u o → IsCovered later u o
IsCovered-later now later u none h c = omega arith
IsCovered-later now later u (some last) h c = c

set_time-IsCovered :
    (now : ℕ) (j key : Bytes) (t u : ℕ) (m : Bytes → Option ℕ)
    → key ≡ j
    → u ≤ t
    → IsCovered now u (set_time j t m key)
set_time-IsCovered now j key t u m e h = rw ((bytes_eq_iff j key).1 (sym e)) h

set_time-other :
    (now : ℕ) (j key : Bytes) (t u : ℕ) (m : Bytes → Option ℕ)
    → bytes_eq key j ≡ false
    → IsCovered now u (m key)
    → IsCovered now u (set_time j t m key)
set_time-other now j key t u m e h = rw (bytes_eq_comm j key ∙ e) h

removed-IsCovered :
    (now later u : ℕ) (o : Option ℕ)
    → now ≤ later
    → IsCovered now u o
    → IsCovered later u
        (elim o [ none ↦ none | some t ↦ if ltb (t + 600 * 10 ^ 9) later then none else some t ])
removed-IsCovered now later u none h c = omega arith
removed-IsCovered now later u (some t) h c = elim (Bool-cases (ltb (t + 600 * 10 ^ 9) later)) [
  | inl old ↦ rw old (ground (arith, old))
  | inr fresh ↦ rw fresh c
]

module _ (fl : Float) (seconds : ℕ) (small : seconds ≤ 600) where
  open fl use {F}

  abbrev Covers : ℕ → Bytes → ℕ → AnomalyDetector F → Type 0
  Covers now key u d = (d.config.cooldown_seconds ≡ pos seconds) × IsCovered now u (d.cooldown key)

  -- The sends of a call, and the entries behind it, for a key that was sent at u.
  after_sends :
      (now u : ℕ) (key : Bytes) (clock : Clock) (d d' : AnomalyDetector F) (sent : List (Bytes × ℕ))
      → now ≤ clock.check_time
      → clock.check_time ≤ clock.sent_time
      → d'.config ≡ d.config
      → CooldownAfter fl clock d d' sent
      → Covers now key u d
      → All (IsLater (seconds * 10 ^ 9) key u) sent × Covers clock.sent_time key u d'
  after_sends now u key clock d d' [] h k same after c = (
    tt,
    (
      ap (λ g. g.cooldown_seconds) same ∙ c.0,
      subst (λ m. IsCovered clock.sent_time u (m key)) (sym after)
          (IsCovered-later now clock.sent_time u (d.cooldown key) (omega (arith, h, k)) c.1),
    ),
  )
  after_sends now u key clock d d' ((j, t) ∷ rest) h k same (free, set, at, last) c =
      let sets : d'.config.cooldown_seconds ≡ pos seconds =
        ap (λ g. g.cooldown_seconds) same ∙ c.0 in
      let none_more = subst (All (IsLater (seconds * 10 ^ 9) key u)) (sym last) tt in
      let covers = λ (h : IsCovered clock.sent_time u (set_time j t d.cooldown key)).
        subst (λ m. IsCovered clock.sent_time u (m key)) (sym set) h in
      elim (Bool-cases (bytes_eq key j)) [
        | inl e ↦
            let here : key ≡ j = (bytes_eq_iff key j).0 e in
            let gap : u + seconds * 10 ^ 9 < clock.check_time =
              free-covered seconds u now clock.check_time (d.cooldown j) small h
                (subst (λ x. IsCovered now u (d.cooldown x)) here c.1)
                (subst (λ n. IsFree n clock.check_time (d.cooldown j)) c.0 free) in
            (
              (inr (omega (arith, gap, at, k)), none_more),
              (
                sets,
                covers (
                    set_time-IsCovered clock.sent_time j key t u d.cooldown here
                      (omega (arith, gap, at, k))),
              ),
            )
        | inr e ↦ (
          (inl e, none_more),
          (
            sets,
            covers (
                set_time-other clock.sent_time j key t u d.cooldown e (
                  IsCovered-later now clock.sent_time u (d.cooldown key) (omega (arith, h, k))
                    c.1)),
          ),
        )
      ]

  cleanup-Covers :
      (now u later stats_time : ℕ) (key : Bytes) (d : AnomalyDetector F)
      → now ≤ later
      → Covers now key u d
      → Covers later key u (cleanup_old_cooldown fl later (cleanup_old_stats fl stats_time d))
  unfolding cleanup_old_cooldown cleanup_old_stats
  cleanup-Covers now u later stats_time key d h c =
      (c.0, removed-IsCovered now later u (d.cooldown key) h c.1)

  cleanup-config :
      (later stats_time : ℕ) (d : AnomalyDetector F)
      → (cleanup_old_cooldown fl later (cleanup_old_stats fl stats_time d)).config.cooldown_seconds
        ≡ d.config.cooldown_seconds
  unfolding cleanup_old_cooldown cleanup_old_stats
  cleanup-config later stats_time d = refl

  -- A key that was sent at u is not sent again within the cooldown.
  sends-IsLater :
      (now u : ℕ) (key : Bytes) (steps : List (Step fl)) (d : AnomalyDetector F)
      → IsClocked fl now steps
      → Covers now key u d
      → All (IsLater (seconds * 10 ^ 9) key u) (sends fl steps d)
  sends-IsLater now u key [] d h c = tt
  sends-IsLater now u key (recorded span clock ∷ steps) d (h, k, rest) c =
      let (d', alert) = record_span fl span clock d in
      let (here, covers) =
        after_sends now u key clock d d' (sends_of fl span alert clock.sent_time) h k
          (record_span-config fl span clock d) (record_span-cooldown fl span clock d) c in
      All-append _ _ _ here (sends-IsLater clock.sent_time u key steps d' rest covers)
  sends-IsLater now u key (cleaned stats_time later ∷ steps) d (h, rest) c =
      sends-IsLater later u key steps _ rest (cleanup-Covers now u later stats_time key d h c)

  AreSpaced-append :
      (clock : Clock) (steps : List (Step fl)) (d d' : AnomalyDetector F) (sent : List (Bytes × ℕ))
      → d'.config.cooldown_seconds ≡ pos seconds
      → CooldownAfter fl clock d d' sent
      → IsClocked fl clock.sent_time steps
      → AreSpaced (seconds * 10 ^ 9) (sends fl steps d')
      → AreSpaced (seconds * 10 ^ 9) (sent ++ sends fl steps d')
  AreSpaced-append clock steps d d' [] sets after h spaced = spaced
  AreSpaced-append clock steps d d' ((j, t) ∷ rest) sets (free, set, at, last) h spaced =
      let covers : IsCovered clock.sent_time t (d'.cooldown j) =
        subst (λ m. IsCovered clock.sent_time t (m j)) (sym set)
          (set_time-IsCovered clock.sent_time j j t t d.cooldown refl (omega arith)) in
      subst (λ r. AreSpaced (seconds * 10 ^ 9) ((j, t) ∷ (r ++ sends fl steps d'))) (sym last)
        (sends-IsLater clock.sent_time t j steps d' h (sets, covers), spaced)

  -- With a cooldown of at most 600 seconds and a clock that does not run backwards, any two alerts of
  -- one operation and severity are sent more than the cooldown apart, whatever spans are recorded and
  -- whenever old entries are removed, from any state of the detector.
  pub sends-AreSpaced :
      (now : ℕ) (steps : List (Step fl)) (d : AnomalyDetector F)
      → d.config.cooldown_seconds ≡ pos seconds
      → IsClocked fl now steps
      → AreSpaced (seconds * 10 ^ 9) (sends fl steps d)
  sends-AreSpaced now [] d e h = tt
  sends-AreSpaced now (recorded span clock ∷ steps) d e (h, k, rest) =
      let (d', alert) = record_span fl span clock d in
      let sets : d'.config.cooldown_seconds ≡ pos seconds =
        ap (λ g. g.cooldown_seconds) (record_span-config fl span clock d) ∙ e in
      AreSpaced-append clock steps d d' (sends_of fl span alert clock.sent_time) sets
        (record_span-cooldown fl span clock d) rest
        (sends-AreSpaced clock.sent_time steps d' sets rest)
  sends-AreSpaced now (cleaned stats_time later ∷ steps) d e (h, rest) =
      sends-AreSpaced later steps
        (cleanup_old_cooldown fl later (cleanup_old_stats fl stats_time d))
        (cleanup-config later stats_time d ∙ e) rest
