-- ===== src/Tests/Command.antt =====
-- Tests of the span handler.
use a.Prelude.{ℕ, ◌≡◌, refl, arith, Bool, true, false, List, [], ◌∷◌, ◌++◌}
use a.Golang.Dict.{lookup, insert}
use a.Golang.Int.{pos}
use a.Golang.Result.{ok}
use a.Golang.Text.{text, bytes_eq}
use a.Model.Span.{Span}
use a.Sampling.TraceLevel.{
  Sampler, new_trace_level_sampler, should_sample, decide_trace, is_trace_sampled,
}
use a.Storage.Writer.{new_click_house_store, save_span}
use a.Command.App.{App, handle_span, handle_all}
use a.Command.Kept.{Decides, of_kept_traces, handle_all-queue}
use a.Tests.Instances.{span_of}

-- A sampler that does what the environment says.
abbrev told : Sampler ℕ
told = record {
  State = Unit {0};
  Env = Bool;
  should_sample = λ s span env. ok (s, env);
  sampling_rate = λ s span. 1;
}

abbrev new_app : App ℕ (Unit {0}) (Unit {0})
new_app = record {
  sampler = new_trace_level_sampler tt;
  store =
      new_click_house_store
        (record { batch_size = pos 2; queue_capacity = pos 5; max_retries = pos 1 }) tt;
}

-- Three spans of two traces; the sampler would change its mind on the first trace.
abbrev three_calls : List (Span ℕ × ℕ × Bool)
three_calls =
    (span_of (text "t1") 5 0, 1, true)
    ∷ (span_of (text "t2") 6 0, 2, false)
    ∷ (span_of (text "t1") 7 0, 3, false)
    ∷ []

abbrev behind : App ℕ (Unit {0}) (Unit {0})
behind = record {
  sampler = record {
    sampled_traces =
        (text "t1", record { sampled = true; timestamp = 1 })
        ∷ (text "t2", record { sampled = false; timestamp = 2 })
        ∷ [];
    inner = tt;
  };
  store =
      (save_span (span_of (text "t1") 7 0) (save_span (span_of (text "t1") 5 0) new_app.store).0).0;
}

told-Decides : Decides told
told-Decides s span env = ((s, env), refl)

handle_all-queue_example :
    (app : App ℕ (Unit {0}) (Unit {0})) × (handle_all told three_calls new_app ≡ ok app)
    × (app.store.write_queue ≡ new_app.store.write_queue ++ of_kept_traces app.sampler three_calls)
unfolding new_click_house_store
handle_all-queue_example =
    handle_all-queue told told-Decides three_calls new_app ((λ e. cc), ((λ e. cc), ((λ e. cc), tt)))
      (omega arith)

run_of_three : handle_all told three_calls new_app ≡ ok behind
unfolding handle_all handle_span should_sample decide_trace lookup insert bytes_eq
    new_trace_level_sampler new_click_house_store
run_of_three = refl

whole_trace :
    of_kept_traces behind.sampler three_calls
    ≡ span_of (text "t1") 5 0 ∷ span_of (text "t1") 7 0 ∷ []
unfolding is_trace_sampled lookup bytes_eq
whole_trace = refl
