-- ===== src/Claimer/Claim/Recovery.antt =====
-- The claim of a message (`claimMessage` in cmd/claimer/main.go) ends once the outages are over.
use openfilter_pipelines_con.Base.{
  ℕ, zero, suc, ◌≤◌, ◌<◌, ◌*◌, ◌≡◌, refl, inl, inr, true, Option, none, some, String, List, Dict,
  is_some, arith, Bool-cases, Option-cases,
}
use openfilter_pipelines_con.Go.{Op, err, Error, Result-cases}
use openfilter_pipelines_con.Queue.{XMessage}
use openfilter_pipelines_con.Claimer.Backoff.{
  ExponentialBackoff, new_exponential_backoff, next, second,
}
use openfilter_pipelines_con.Claimer.Config.{Config}
use openfilter_pipelines_con.Claimer.Claim.{
  is_retryable_valkey_error, claim_message_once, give_up, claim_loop, claim_message,
}

module _ {W : Type 0} (read : String → String → String → Op W (Dict (List XMessage)))
    (cancelled : W → Option Error) (sleep : ℕ → Op W (Unit {0})) (cfg : Config) where
  -- `outages` counts the transient failures that are still to come: each failed request with a
  -- retryable error is one of them, and none is added while the claimer sleeps.
  pub record IsRecovering (outages : W → ℕ) : Type 0 where
    pub failure :
        (w : W) (e : Error)
        → (claim_message_once read cancelled sleep cfg w).0 ≡ err e
        → is_retryable_valkey_error e ≡ true
        → outages (claim_message_once read cancelled sleep cfg w).1 < outages w
    pub rest : (d : ℕ) (w : W) → outages (sleep d w).1 ≤ outages w

  give_up-none :
      (o : Option Error) (e : Error)
      → give_up read cancelled sleep o e ≡ none
      → is_retryable_valkey_error e ≡ true
  unfolding give_up
  give_up-none (some c) e h = cc h
  give_up-none none e h = elim (Bool-cases (is_retryable_valkey_error e)) [
    | inl retried ↦ retried
    | inr final ↦ cc (rw (final, give_up) at h)
  ]

  module _ (outages : W → ℕ) (laws : IsRecovering outages) where
    claim_loop-some :
        (fuel : ℕ) (b : ExponentialBackoff) (w : W)
        → outages w < fuel
        → is_some (claim_loop read cancelled sleep fuel b cfg w) ≡ true
    unfolding claim_loop
    claim_loop-some zero b w h = elim h [ ]
    claim_loop-some (suc fuel) b w h =
        let once = claim_message_once read cancelled sleep cfg w in
        elim (Result-cases once.0) [
          | inl (claimed, e) ↦ rw (claim_loop, e) refl
          | inr (failure, f) ↦
              elim (Option-cases (give_up read cancelled sleep (cancelled once.1) failure)) [
                | inr (stop, g) ↦ rw (claim_loop, f, g) refl
                | inl on ↦
                    let slept = sleep (next b).0 once.1 in
                    let fewer =
                      laws.failure w failure f (give_up-none (cancelled once.1) failure on) in
                    let calm = laws.rest (next b).0 once.1 in
                    elim (Result-cases slept.0) [
                      | inr (woken, k) ↦ rw (claim_loop, f, on, k) refl
                      | inl (u, k) ↦
                          rw (claim_loop, f, on, k)
                            (claim_loop-some fuel (next b).1 slept.1
                              (omega (arith, h, fewer, calm)))
                    ]
              ]
        ]

    -- With fuel for one request more than there are outages to come, the claim ends: with a message, or
    -- with an error that is not retried.
    pub claim_message-some :
        (fuel : ℕ) (w : W)
        → outages w < fuel
        → is_some (claim_message read cancelled sleep fuel cfg w) ≡ true
    unfolding claim_message
    claim_message-some fuel w h = claim_loop-some fuel (new_exponential_backoff (30 * second)) w h
