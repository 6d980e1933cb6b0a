-- ===== src/Go/Strconv/RoundTrip.antt =====
-- A count printed by `Itoa` is read back by `parseAttempts`.
use Prim.Native.Char.{code}
use openfilter_pipelines_con.Base.{
  ℕ, zero, suc, ◌+◌, ◌/◌, ◌%◌, ◌<◌, ◌≤◌, ◌≡◌, ◌≢◌, refl, List, [], ◌∷◌, some, String, arith, eq_iff,
  ap, ℤ, pos, two_63,
}
use openfilter_pipelines_con.Go.Strconv.{
  codes, digit, digits, itoa, scan, atoi, atoi_codes, parse_attempts,
}

pub code-digit : (d : ℕ) → d < 10 → code (digit d) ≡ b'0' + d
unfolding digit
code-digit zero h = refl
code-digit (suc zero) h = refl
code-digit (suc (suc zero)) h = refl
code-digit (suc (suc (suc zero))) h = refl
code-digit (suc (suc (suc (suc zero)))) h = refl
code-digit (suc (suc (suc (suc (suc zero))))) h = refl
code-digit (suc (suc (suc (suc (suc (suc zero)))))) h = refl
code-digit (suc (suc (suc (suc (suc (suc (suc zero))))))) h = refl
code-digit (suc (suc (suc (suc (suc (suc (suc (suc zero)))))))) h = refl
code-digit (suc (suc (suc (suc (suc (suc (suc (suc (suc zero))))))))) h = refl
code-digit (suc (suc (suc (suc (suc (suc (suc (suc (suc (suc d)))))))))) h = absurd (omega arith)

scan_last :
    (n : ℕ) (s : String) → scan (codes (String.◌∷◌ (digit (n % 10)) s)) (n / 10) ≡ scan (codes s) n
unfolding scan
scan_last n s = ground (arith, code-digit (n % 10))

codes-ne-nil : (s : String) → s ≢ "" → codes s ≢ []
codes-ne-nil String.[] h = absurd (h refl)
codes-ne-nil (String.◌∷◌ c s) h = λ e. cc

-- Reading the digits of `n` first is reading on from `n`.
scan-digits : (f n : ℕ) (s : String) → n ≤ f → scan (codes (digits f n s)) 0 ≡ scan (codes s) n
unfolding digits
scan-digits zero n s h = ground arith
scan-digits (suc f) n s h =
    ground (arith, scan-digits f (n / 10) (String.◌∷◌ (digit (n % 10)) s), scan_last n s)

pub scan-itoa : (n : ℕ) → scan (codes (itoa (pos n))) 0 ≡ some n
unfolding itoa scan
scan-itoa zero = refl
scan-itoa (suc n) = scan-digits (suc n) (suc n) "" (omega arith)

itoa-ne-empty : (n : ℕ) → itoa (pos n) ≢ ""
unfolding itoa scan
itoa-ne-empty zero e = cc
itoa-ne-empty (suc n) e =
    let read : some 0 ≡ some (suc n) = rw (ap (λ s. scan (codes s) 0) e) at (scan-itoa (suc n)) in
    cc read

atoi_of_scan :
    (l : List ℕ) (n : ℕ) → l ≢ [] → scan l 0 ≡ some n → n < two_63 → atoi_codes l ≡ some (pos n)
unfolding atoi_codes scan
atoi_of_scan [] n h e b = absurd (h refl)
atoi_of_scan (c ∷ cs) n h e b = ground arith

pub atoi-itoa : (n : ℕ) → n < two_63 → atoi (itoa (pos n)) ≡ some (pos n)
unfolding atoi
atoi-itoa n h =
    atoi_of_scan (codes (itoa (pos n))) n (codes-ne-nil (itoa (pos n)) (itoa-ne-empty n))
      (scan-itoa n) h

-- A retry counter below 2^63 is read back from the text that the controller wrote, whatever the
-- fallback for unreadable counters is.
pub parse_attempts-itoa :
    (n : ℕ) (fallback : ℤ) → n < two_63 → parse_attempts (itoa (pos n)) fallback ≡ pos n
unfolding parse_attempts
parse_attempts-itoa n fallback h = ground (
  arith,
  eq_iff (itoa (pos n)) "",
  itoa-ne-empty n,
  atoi_of_scan (codes (itoa (pos n))) n (codes-ne-nil (itoa (pos n)) (itoa-ne-empty n))
      (scan-itoa n) h,
)
