-- ===== src/Tests/Api.antt =====
-- Tests of the HTTP API.
use a.Prelude.{ℕ, ◌+◌, ◌-◌, ◌*◌, ◌^◌, ◌≡◌, refl, Bool, true, false, Option, none, some, [], ◌∷◌}
use a.Golang.Int.{pos, neg}
use a.Golang.Result.{Result, ok, panic}
use a.Golang.Slice.{Bytes}
use a.Golang.Text.{text, bytes_eq}
use a.Model.Convert.{unix_epoch}
use a.Model.Span.{Span}
use a.Model.Tree.{Tree}
use a.Storage.Reader.{Reader, read_rows, get_services}
use a.Storage.Writer.{new_click_house_store}
use a.Api.Answer.{Response, reply, plain, bare, unsent, parse_int, time_of}
use a.Api.Handlers.{Body, ask, health, health_check}
use a.Api.Flames.{width_of}
use a.Api.Routes.{
  Server, Request, health_route, sampling_route, system_route, get_system_stats, dispatch, serve,
  get_sampling_stats,
}
use a.Api.Status.{Serves, serve-AgreesUnless}
use a.Tests.Instances.{whole_numbers, ascii}
use a.Tests.Sorting.{by_insertion}

-- A database with two services.
abbrev two_services : Reader ℕ
two_services = record {
  Conn = Unit {0};
  query_spans = λ s conn. (tt, none);
  query_texts = λ s conn.
      (tt, some (record { scanned = some (text "a") ∷ some (text "b") ∷ []; complete = true }));
  query_operations = λ s conn. (tt, none);
  query_edges = λ s conn. (tt, none);
  ip_string = λ ip. [];
}

abbrev no_tree : Bytes → Unit {0} → Unit {0} × Option (Option (Tree (Span ℕ)))
no_tree id conn = (tt, none)

abbrev all_encode : Body ℕ → Bool
all_encode body = true

abbrev no_metrics : Request ℕ → Result (Response (Body ℕ))
no_metrics req = ok (plain 200 (text "text/plain") [])

-- A server with a store and nothing else.
abbrev bare_server : Server ℕ (Unit {0})
bare_server = record {
  store = some (
      new_click_house_store
        (record { batch_size = pos 2; queue_capacity = pos 3; max_retries = pos 1 }) tt);
  sampler = none;
  tracer = none;
  correlator = none;
  anomaly_stats = none;
  compressor = none;
}

abbrev get_health : Request ℕ
get_health = record {
  method = text "GET";
  route = health_route;
  trace_id = [];
  name = [];
  start_time = none;
  end_time = none;
  format = none;
  width = none;
  search = none;
  now = unix_epoch + 5 * 10 ^ 9;
  later = unix_epoch + 5 * 10 ^ 9;
}

healthy :
    serve whole_numbers all_encode ascii two_services by_insertion [] no_metrics no_tree bare_server
      get_health tt
    ≡ (tt, ok (reply 200 200 (text "healthy") (some (health 2 5))))
unfolding serve dispatch health_check ask get_services read_rows bytes_eq
healthy = refl

preflight :
    serve whole_numbers all_encode ascii two_services by_insertion [] no_metrics no_tree bare_server
      (record get_health { method = text "OPTIONS" })
      tt
    ≡ (tt, ok (bare 204))
unfolding serve bytes_eq
preflight = refl

no_sampler :
    (serve whole_numbers all_encode ascii two_services by_insertion [] no_metrics no_tree
      bare_server
      (record get_health { route = sampling_route })
      tt).1
    ≡ panic
unfolding serve dispatch get_sampling_stats bytes_eq
no_sampler = refl

-- What is not a number is the start of 1970, and a number that is too large the latest time.
bad_times :
    (time_of (some (text "now")) 0 ≡ pos unix_epoch)
    × (parse_int (text "99999999999999999999") ≡ pos (2 ^ 63 - 1))
    × (parse_int (text "-12") ≡ neg 12)
unfolding time_of parse_int
bad_times = (refl, refl, refl)

widths :
    (width_of (text "800") ≡ pos 800)
    × (width_of (text "-3") ≡ pos 1200)
    × (width_of (text "x") ≡ pos 1200)
unfolding width_of
widths = (refl, refl, refl)

-- A store that is nil, and a report that JSON cannot encode.
no_store :
    (serve whole_numbers all_encode ascii two_services by_insertion [] no_metrics no_tree
      (record bare_server { store = none })
      get_health
      tt).1
    ≡ panic
unfolding serve dispatch health_check ask bytes_eq
no_store = refl

not_encoded :
    (serve whole_numbers
      (λ body. false)
      ascii
      two_services
      by_insertion
      []
      no_metrics
      no_tree
      bare_server
      (record get_health { route = system_route })
      tt).1
    ≡ ok (unsent 200)
unfolding serve dispatch get_system_stats bytes_eq
not_encoded = refl

serve-AgreesUnless_example : Serves no_metrics bare_server get_health tt (
    serve whole_numbers all_encode ascii two_services by_insertion [] no_metrics no_tree bare_server
      get_health tt)
serve-AgreesUnless_example =
    serve-AgreesUnless whole_numbers all_encode ascii two_services by_insertion [] no_metrics
      no_tree bare_server get_health tt
