-- ===== src/Claimer/Run/Progress.antt =====
-- The run of the claimer (cmd/claimer/main.go) ends once the outages are over.
use openfilter_pipelines_con.Base.{
  ℕ, zero, suc, ◌≤◌, ◌<◌, ◌*◌, ◌≡◌, refl, inl, inr, true, Option, none, some, String, Dict, is_some,
  arith, Bool-cases, Option-cases,
}
use openfilter_pipelines_con.Go.{Op, Result, ok, err, Error, wrapped, Result-cases}
use openfilter_pipelines_con.Claimer.Backoff.{
  ExponentialBackoff, new_exponential_backoff, next, second,
}
use openfilter_pipelines_con.Claimer.Config.{Config, load_config}
use openfilter_pipelines_con.Claimer.Claim.{is_retryable_valkey_error, claim_message}
use openfilter_pipelines_con.Claimer.Claim.Recovery.{IsRecovering, claim_message-some}
use openfilter_pipelines_con.Claimer.Run.{
  Machine, sleep_with_context, stop_for, retry, create_valkey_client, wait_for_valkey, same,
  Claimed, after_claim, after_ping, after_client, with_config, run,
}

module _ {W C M O F : Type 0} (m : Machine W C M O F) (outages : W → ℕ) where
  -- A failed attempt with a retryable error is one of the outages to come, and no attempt adds one.
  pub record IsBounded {A : Type 0} (op : Op W A) : Type 0 where
    pub failure :
        (w : W) (e : Error)
        → (op w).0 ≡ err e
        → is_retryable_valkey_error e ≡ true
        → outages (op w).1 < outages w
    pub adds_none : (w : W) → outages (op w).1 ≤ outages w

  abbrev pub IsCalm : Type 0
  IsCalm = (d : ℕ) (w : W) → outages (m.wait d w).1 ≤ outages w

  sleep-calm : IsCalm → (d : ℕ) (w : W) → outages (sleep_with_context m d w).1 ≤ outages w
  unfolding sleep_with_context
  sleep-calm calm d w = ground (arith, calm d w)

  stop_for-none :
      (final : Error → Error) (o : Option Error) (e : Error)
      → stop_for m final o e ≡ none
      → is_retryable_valkey_error e ≡ true
  unfolding stop_for
  stop_for-none final (some c) e h = cc h
  stop_for-none final none e h = elim (Bool-cases (is_retryable_valkey_error e)) [
    | inl retried ↦ retried
    | inr over ↦ cc (rw (over, stop_for) at h)
  ]

  -- The loop ends, and no outage was added.
  abbrev Ends : {A : Type 0} → Option (Result A × W) → W → Type 0
  Ends none w = ⊥
  Ends (some (answer, u)) w = outages u ≤ outages w

  Ends-later :
      {A : Type 0} (o : Option (Result A × W)) (u w : W)
      → outages u ≤ outages w
      → Ends o u
      → Ends o w
  Ends-later none u w le h = h
  Ends-later (some (a, v)) u w le h = omega (arith, h, le)

  retry-Ends :
      {A : Type 0} (op : Op W A) (final : Error → Error) (bounded : IsBounded op) (calm : IsCalm)
      (fuel : ℕ) (b : ExponentialBackoff) (w : W)
      → outages w < fuel
      → Ends (retry m op final fuel b w) w
  unfolding retry
  retry-Ends op final bounded calm zero b w h = absurd (omega (arith, h))
  retry-Ends op final bounded calm (suc fuel) b w h =
      let tried = op w in
      let none_added = bounded.adds_none w in
      elim (Result-cases tried.0) [
        | inl (a, e) ↦ rw (retry, e) none_added
        | inr (failure, f) ↦ elim (Option-cases (stop_for m final (m.cancelled tried.1) failure)) [
          | inr (stop, g) ↦ rw (retry, f, g) none_added
          | inl on ↦
              let slept = sleep_with_context m (next b).0 tried.1 in
              let fewer =
                bounded.failure w failure f
                  (stop_for-none final (m.cancelled tried.1) failure on) in
              let rest = sleep-calm calm (next b).0 tried.1 in
              elim (Result-cases slept.0) [
                | inr (woken, k) ↦ rw (retry, f, on, k) (omega (arith, fewer, rest))
                | inl (u, k) ↦
                    rw (retry, f, on, k)
                      (Ends-later (retry m op final fuel (next b).1 slept.1) slept.1 w
                        (omega (arith, fewer, rest))
                        (retry-Ends op final bounded calm fuel (next b).1 slept.1
                          (omega (arith, h, fewer, rest))))
              ]
        ]
      ]

  -- Every request of the claimer is bounded by the outages to come.
  pub record IsRecoveringMachine : Type 0 where
    pub connects : (cfg : Config) → IsBounded (create_valkey_client m cfg)
    pub pings : (client : C) → IsBounded (m.ping client)
    pub claims :
        (client : C) (cfg : Config)
        → IsRecovering (m.read_group client) m.cancelled (sleep_with_context m) cfg outages
    pub calm : IsCalm

  module _ (h : IsRecoveringMachine) (fuel : ℕ) where
    after_claim-some :
        (cfg : Config) (client : C) (o : Claimed m)
        → is_some o ≡ true
        → is_some (after_claim m cfg client o) ≡ true
    unfolding after_claim
    after_claim-some cfg client none e = cc e
    after_claim-some cfg client (some (err x, w)) e = refl
    after_claim-some cfg client (some (ok (msg, id), w)) e = refl

    after_ping-some :
        (cfg : Config) (client : C) (o : Option (Result (Unit {0}) × W)) (w : W)
        → Ends o w
        → outages w < fuel
        → is_some (after_ping m fuel cfg client o) ≡ true
    unfolding after_ping
    after_ping-some cfg client none w ends e = absurd ends
    after_ping-some cfg client (some (err x, u)) w ends e = refl
    after_ping-some cfg client (some (ok a, u)) w ends e =
        after_claim-some cfg client
          (claim_message (m.read_group client) m.cancelled (sleep_with_context m) fuel cfg u)
          (claim_message-some (m.read_group client) m.cancelled (sleep_with_context m) cfg outages
            (h.claims client cfg) fuel u (omega (arith, ends, e)))

    after_client-some :
        (cfg : Config) (o : Option (Result C × W)) (w : W)
        → Ends o w
        → outages w < fuel
        → is_some (after_client m fuel cfg o) ≡ true
    unfolding after_client wait_for_valkey
    after_client-some cfg none w ends e = absurd ends
    after_client-some cfg (some (err x, u)) w ends e = refl
    after_client-some cfg (some (ok client, u)) w ends e =
        let fewer : outages u < fuel = omega (arith, ends, e) in
        after_ping-some cfg client (wait_for_valkey m fuel client u) u
          (retry-Ends (m.ping client) (same m) (h.pings client) h.calm fuel
            (new_exponential_backoff (30 * second)) u fewer)
          fewer

    with_config-some :
        (o : Result Config) (w : W) → outages w < fuel → is_some (with_config m fuel o w) ≡ true
    unfolding with_config
    with_config-some (err e) w few = refl
    with_config-some (ok cfg) w few =
        let b = new_exponential_backoff (30 * second) in
        let create = create_valkey_client m cfg in
        let final = wrapped "failed to create Valkey client" in
        after_client-some cfg (retry m create final fuel b w) w
          (retry-Ends create final (h.connects cfg) h.calm fuel b w few) few

    -- With fuel for one attempt more than there are outages to come, the run of the claimer ends, with success
    -- or with an error, in whichever of its three loops the outages fall. Each failed attempt with a
    -- retryable error is one of the outages, and neither a request nor a wait adds one.
    pub run-some :
        (env : Dict String) (w : W) → outages w < fuel → is_some (run m fuel env w) ≡ true
    unfolding run
    run-some env w few = with_config-some (load_config env) w few
