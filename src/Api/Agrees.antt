-- ===== src/Api/Agrees.antt =====
-- pkg/api/server.go: the statuses of what the handlers that ask the store, and `getFlameGraph`, answer.
use a.Prelude.{
  ℕ, ◌≡◌, refl, Bool, true, false, not, Option, none, some, inl, inr, [], ◌∷◌, Bool-cases,
  Option-cases,
}
use a.Golang.Float.{Float}
use a.Golang.Result.{Result, ok, err, panic, Result-cases}
use a.Golang.Slice.{Bytes}
use a.Golang.Text.{text, bytes_eq, Unicode}
use a.Flame.Frame.{FlameGraph, new_flame_graph}
use a.Flame.Stats.{get_frame_stats-calls}
use a.Flame.Svg.{to_svg}
use a.Model.Span.{Span}
use a.Model.Tree.{Tree, Sorter}
use a.Storage.Reader.{Reader}
use a.Storage.Writer.{ClickHouseStore}
use a.Api.Answer.{Response, json, plain, bare, unsent, send}
use a.Api.Handlers.{
  Body, TraceSearchRequest, ask, get_trace, search_traces, list_services, list_service_stats,
  list_service_map, health_check,
}
use a.Api.Flames.{show_graph, get_flame_graph, svg_config}

-- The code in a JSON answer is its status; a graph, and an answer whose data JSON cannot encode, have
-- the status 200. Without a body for another reason is no answer of a handler.
abbrev pub Agrees : {B : Type 0} → Response B → Type 0
Agrees (json status r) = status ≡ r.code
Agrees (plain status kind body) = status ≡ 200
Agrees (bare status) = ⊥
Agrees (unsent status) = status ≡ 200

-- An answer that agrees, or a panic, which only this reason allows.
abbrev pub AgreesUnless : {B : Type 0} → Type 0 → Result (Response B) → Type 0
AgreesUnless reason (ok r) = Agrees r
AgreesUnless reason err = ⊥
AgreesUnless reason panic = reason

pub send-Agrees :
    {B : Type 0} (encodes : B → Bool) (message : Bytes) (body : B)
    → Agrees (send encodes 200 200 message body)
send-Agrees encodes message body = elim (Bool-cases (encodes body)) [
  | inl e ↦ rw e refl
  | inr e ↦ rw e refl
]

-- Whether `ShouldBindQuery` takes a search.
abbrev pub is_bound : {A : Type 0} → Option A → Bool
is_bound none = false
is_bound (some search) = true

module _ (fl : Float) (u : Unicode) (db : Reader fl.F) (error : Bytes)
    (encodes : Body fl.F → Bool) where
  open fl use {F}
  open db use {Conn}

  ask-Agrees :
      {A P : Type 0} (store : Option (ClickHouseStore F Conn)) (conn : Conn)
      (answered : Conn × Option A) (answer : Option A → Response (Body F))
      → (store ≡ none → P)
      → Agrees (answer none)
      → ((found : A) → Agrees (answer (some found)))
      → AgreesUnless P (ask fl u db error encodes store conn answered answer).1
  unfolding ask
  ask-Agrees none conn (conn', found) answer nil fails finds = nil refl
  ask-Agrees (some store) conn (conn', none) answer nil fails finds = fails
  ask-Agrees (some store) conn (conn', some found) answer nil fails finds = finds found

  pub get_trace-Agrees :
      {P : Type 0} (store : Option (ClickHouseStore F Conn)) (trace_id : Bytes) (conn : Conn)
      → (not (bytes_eq trace_id []) ≡ true → store ≡ none → P)
      → AgreesUnless P (get_trace fl u db error encodes store trace_id conn).1
  unfolding get_trace bytes_eq
  get_trace-Agrees store [] conn nil = refl
  get_trace-Agrees store (c ∷ id) conn nil =
      ask-Agrees store conn _ _ (nil refl) refl λ t. send-Agrees encodes _ _

  pub search_traces-Agrees :
      {P : Type 0} (store : Option (ClickHouseStore F Conn)) (req : Option (TraceSearchRequest F))
      (now later : ℕ) (conn : Conn)
      → (is_bound req ≡ true → store ≡ none → P)
      → AgreesUnless P (search_traces fl u db error encodes store req now later conn).1
  unfolding search_traces
  search_traces-Agrees store none now later conn nil = refl
  search_traces-Agrees store (some req) now later conn nil =
      ask-Agrees store conn _ _ (nil refl) refl λ t. send-Agrees encodes _ _

  pub list_services-Agrees :
      {P : Type 0} (store : Option (ClickHouseStore F Conn)) (conn : Conn)
      → (store ≡ none → P)
      → AgreesUnless P (list_services fl u db error encodes store conn).1
  unfolding list_services
  list_services-Agrees store conn nil =
      ask-Agrees store conn _ _ nil refl λ t. send-Agrees encodes _ _

  pub list_service_stats-Agrees :
      {P : Type 0} (store : Option (ClickHouseStore F Conn)) (name : Bytes)
      (start end : Option Bytes) (now later : ℕ) (conn : Conn)
      → (not (bytes_eq name []) ≡ true → store ≡ none → P)
      → AgreesUnless P
          (list_service_stats fl u db error encodes store name start end now later conn).1
  unfolding list_service_stats bytes_eq
  list_service_stats-Agrees store [] start end now later conn nil = refl
  list_service_stats-Agrees store (c ∷ name) start end now later conn nil =
      ask-Agrees store conn _ _ (nil refl) refl λ t. send-Agrees encodes _ _

  pub list_service_map-Agrees :
      {P : Type 0} (store : Option (ClickHouseStore F Conn)) (start end : Option Bytes)
      (now later : ℕ) (conn : Conn)
      → (store ≡ none → P)
      → AgreesUnless P (list_service_map fl u db error encodes store start end now later conn).1
  unfolding list_service_map
  list_service_map-Agrees store start end now later conn nil =
      ask-Agrees store conn _ _ nil refl λ t. send-Agrees encodes _ _

  pub health_check-Agrees :
      {P : Type 0} (store : Option (ClickHouseStore F Conn)) (now : ℕ) (conn : Conn)
      → (store ≡ none → P)
      → AgreesUnless P (health_check fl u db error encodes store now conn).1
  unfolding health_check
  health_check-Agrees store now conn nil =
      ask-Agrees store conn _ _ nil refl λ t. send-Agrees encodes _ _

module _ (fl : Float) (sorter : Sorter) (error : Bytes) (encodes : Body fl.F → Bool) where
  open fl use {F}

  show_graph-Agrees :
      (format width title : Bytes) (fg : FlameGraph F)
      → AgreesUnless (Unit {0}) (show_graph fl sorter error encodes format width title fg)
  unfolding show_graph
  show_graph-Agrees format width title fg = elim (Bool-cases (bytes_eq format (text "folded"))) [
    | inl e ↦ rw (e, show_graph) refl
    | inr e ↦ elim (Bool-cases (bytes_eq format (text "stats"))) [
      | inl f ↦
          let (stats, g, counts) = get_frame_stats-calls fl fg in
          rw (e, show_graph) (rw f (rw g (send-Agrees encodes _ _)))
      | inr f ↦ elim (Result-cases (to_svg fl (some (svg_config title width)) fg)) [
        | inl (svg, g) ↦ rw (e, show_graph) (rw f (rw g refl))
        | inr failed ↦ elim failed [
          | inl g ↦ rw (e, show_graph) (rw f (rw g refl))
          | inr g ↦ rw (e, show_graph) (rw f (rw g tt))
        ]
      ]
    ]
  ]

  module _ {Conn : Type 0}
      (get_trace_tree : Bytes → Conn → Conn × Option (Option (Tree (Span F)))) where
    pub get_flame_graph-Agrees :
        (id : Bytes) (format width : Option Bytes) (conn : Conn)
        → AgreesUnless
            (Unit {0})
            (get_flame_graph fl sorter error encodes get_trace_tree id format width conn).1
    unfolding get_flame_graph new_flame_graph
    get_flame_graph-Agrees [] format width conn = refl
    get_flame_graph-Agrees (c ∷ id) format width conn =
        elim (Option-cases (get_trace_tree (c ∷ id) conn).1) [
          | inl e ↦ rw (e, get_flame_graph) refl
          | inr (root, e) ↦ elim (Option-cases root) [
            | inl f ↦ rw (e, get_flame_graph) (rw f refl)
            | inr (tree, f) ↦ rw (e, get_flame_graph) (rw f (show_graph-Agrees _ _ _ _))
          ]
        ]
