-- ===== src/Claimer/Backoff/Delays.antt =====
-- The delays of `exponentialBackoff` (cmd/claimer/main.go).
use openfilter_pipelines_con.Base.{
  ℕ, zero, suc, ◌*◌, ◌^◌, ◌≡◌, refl, ltb, if◌then◌else◌, arith, List, [], ◌∷◌, ap, sym, subst, ◌∙◌,
  All, ◌<◌, two_63,
}
use openfilter_pipelines_con.Claimer.Backoff.{new_exponential_backoff, next, delays, second}

-- The smaller of two numbers.
abbrev capped : ℕ → ℕ → ℕ
capped max n = if ltb max n then max else n

-- The delays from the retry `k` on: a second doubled `k` times, up to the limit.
pub powers : ℕ → ℕ → ℕ → List ℕ
powers max k zero = []
powers max k (suc n) = capped max (second * 2 ^ k) ∷ powers max (suc k) n

-- Doubling up to the limit from a value that was cut off at the limit.
double-capped :
    (max x : ℕ)
    → (if ltb (capped max x) max then capped max (capped max x * 2) else capped max x)
      ≡ capped max (x * 2)
double-capped max x = ground arith

delays_from :
    (n k min max : ℕ)
    → delays n (record { min = min; max = max; current = capped max (second * 2 ^ k) })
      ≡ powers max k n
unfolding delays next powers
delays_from zero k min max = refl
delays_from (suc n) k min max =
    let later = delays_from n (suc k) min max in
    let twice : second * 2 ^ suc k ≡ second * 2 ^ k * 2 = omega arith in
    ap (λ ds. capped max (second * 2 ^ k) ∷ ds)
      (rw (double-capped max (second * 2 ^ k)) (rw (sym twice) later))

abbrev IsSafe : ℕ → Type 0
IsSafe d = d * 2 < two_63

powers-IsSafe : (max k n : ℕ) → max * 2 < two_63 → All IsSafe (powers max k n)
unfolding powers
powers-IsSafe max k zero h = tt
powers-IsSafe max k (suc n) h = (ground (arith, h), powers-IsSafe max (suc k) n h)

-- The limit that a backoff works with.
abbrev pub limit : ℕ → ℕ
limit max = if ltb max second then second else max

-- The delays of a new backoff are one second, two, four and so on, cut off at the limit, where a limit
-- below one second counts as one second. For a limit below 2^62 nanoseconds the double of each
-- of them is below 2^63.
pub delays-new_exponential_backoff :
    (max n : ℕ)
    → max * 2 < two_63
    → (delays n (new_exponential_backoff max) ≡ powers (limit max) 0 n)
      × All (λ d. d * 2 < two_63) (delays n (new_exponential_backoff max))
unfolding new_exponential_backoff
delays-new_exponential_backoff max n h =
    let first : capped (limit max) (second * 2 ^ 0) ≡ second = ground arith in
    let same : delays n (new_exponential_backoff max) ≡ powers (limit max) 0 n =
      ap (λ c. delays n (record { min = second; max = limit max; current = c })) (sym first)
      ∙ delays_from n 0 second (limit max) in
    (same, subst (All IsSafe) (sym same) (powers-IsSafe (limit max) 0 n (ground (arith, h))))
