-- ===== src/Retry/Examples.antt =====
-- The theorems about packages/web-sdk/src/core/retry/index.ts at concrete inputs.
use beam_sdk_public.Common.{
  ℕ, zero, suc, subst, some_inj, ◌≤◌, ◌<◌, max, ◌≡◌, refl, ◌⊎◌, true, false, none, some, [], ◌∷◌,
  arith, length, codes,
}
use beam_sdk_public.Errors.{beam, network_error, config_error, abort_error}
use beam_sdk_public.Retry.Backoff.{finite, Sample, defaults, reached, backoff_delay}
use beam_sdk_public.Retry.Loop.{Outcome, ok, err, RetryEnv, Report, with_retry, wait_ms}
use beam_sdk_public.Retry.Loop.Results.{
  Failed, IsAborted, with_retry_total, with_retry-ok, with_retry-err,
}
use beam_sdk_public.Retry.Loop.Rounds.{is_final}
use beam_sdk_public.Retry.Reconnector.{
  connecting, reconnecting, closed, Reconnector, new, ReconnectEnv, Run, run, gave_up, is_abort,
  should_retry,
}
use beam_sdk_public.Retry.Reconnector.Endings.{run_total, ConnectsAndDrops, run_never_ends}

abbrev half : Sample
half = record { num = 1; den = 2 }

-- Fails twice on the network, then answers.
abbrev flaky_operation : ℕ → Outcome ℕ
flaky_operation zero = err (beam (network_error (codes "down")))
flaky_operation (suc zero) = err (beam (network_error (codes "down")))
flaky_operation (suc (suc n)) = ok 7

abbrev flaky : RetryEnv ℕ
flaky = record {
  backoff = defaults;
  custom_should_retry = none;
  operation = flaky_operation;
  sample = λ n. half;
  aborted_before = λ n. false;
  aborted_waiting = λ n. false;
}

abbrev flaky_report : Report ℕ
flaky_report = record { result = ok 7; calls = 3; waits = 250 ∷ 500 ∷ [] }

flaky_run : with_retry 4 flaky ≡ some flaky_report
unfolding with_retry network_error backoff_delay wait_ms
flaky_run = refl

with_retry_total_example :
    (r : Report ℕ) × (with_retry 4 flaky ≡ some r)
    × (r.calls ≤ max 4 1)
    × (length r.waits ≤ r.calls)
with_retry_total_example = with_retry_total flaky 4 4 refl (omega arith) (omega arith)

with_retry-ok_example :
    (k : ℕ) × (3 ≡ suc k) × (flaky_operation k ≡ ok 7) × ((i : ℕ) → i < k → Failed flaky i)
with_retry-ok_example = with_retry-ok flaky 4 flaky_report 7 flaky_run refl

abbrev misconfigured : RetryEnv ℕ
misconfigured = record flaky { operation = λ n. err (beam (config_error (codes "bad"))) }

abbrev misconfigured_report : Report ℕ
misconfigured_report = record {
  result = err (beam (config_error (codes "bad")));
  calls = 1;
  waits = [];
}

misconfigured_run : with_retry 1 misconfigured ≡ some misconfigured_report
unfolding with_retry config_error
misconfigured_run = refl

with_retry-err_example :
    ((beam (config_error (codes "bad")) ≡ beam abort_error)
      × (misconfigured_report.calls ≡ 0)
      × (misconfigured.aborted_before 0 ≡ true))
    ⊎ ((k : ℕ) × (misconfigured_report.calls ≡ suc k)
        × ((i : ℕ) → i < k → Failed misconfigured i)
        × (((beam (config_error (codes "bad")) ≡ beam abort_error)
              × Failed misconfigured k
              × IsAborted misconfigured k)
            ⊎ ((misconfigured.operation k ≡ err (beam (config_error (codes "bad"))))
                × (is_final misconfigured k (beam (config_error (codes "bad"))) ≡ true))))
with_retry-err_example =
    with_retry-err misconfigured 1 misconfigured_report (beam (config_error (codes "bad")))
      misconfigured_run refl

-- Every connection is refused.
abbrev refused : ReconnectEnv
refused = record {
  max_attempts = finite 3;
  custom_should_retry = none;
  connect = λ i. record {
    marks = false;
    failure = some (beam (network_error (codes "refused")));
    aborted = false;
  };
  aborted_before = λ i. false;
  aborted_waiting = λ i. false;
}

abbrev refused_end : Reconnector
refused_end = record {
  state = closed;
  attempt = 3;
  changes = closed ∷ reconnecting ∷ connecting ∷ [];
}

run_total_example : (x : Run) × (run 3 refused new ≡ some x) × (x.connects ≤ max 1 3)
run_total_example = run_total 3 3 refused refl (λ i. refl) (omega arith) (omega arith)

abbrev refused_run : Run
refused_run = record {
  ending = gave_up (beam (network_error (codes "refused")));
  final = refused_end;
  connects = 3;
}

refused_runs : run 3 refused new ≡ some refused_run
unfolding run new network_error
refused_runs = refl

-- Every connection is opened and dropped.
abbrev dropped : ReconnectEnv
dropped = record refused {
  connect = λ i. record {
    marks = true;
    failure = some (beam (network_error (codes "reset")));
    aborted = false;
  };
}

dropped-ConnectsAndDrops : ConnectsAndDrops dropped
unfolding network_error is_abort should_retry reached
dropped-ConnectsAndDrops = record {
  marks = λ i. refl;
  no_abort = λ i. refl;
  no_abort_before = λ i. refl;
  no_abort_waiting = λ i. refl;
  worth = λ i e h.
      subst (λ t. (is_abort t ≡ false) × (should_retry none t ≡ true)) (some_inj h) (refl, refl);
  room = refl;
}

run_never_ends_example : run 100 dropped new ≡ none
run_never_ends_example = run_never_ends 100 dropped dropped-ConnectsAndDrops
