-- ===== src/Go/Strconv/Digits.antt =====
-- What a printed number holds: digits only, and all that the number is.
use Prim.Native.Char.{Char, code}
use openfilter_pipelines_con.Base.{
  ℕ, zero, suc, ◌+◌, ◌/◌, ◌%◌, ◌<◌, ◌⊎◌, ◌≡◌, ◌≢◌, ap, sym, ◌∙◌, some, String, arith, pos,
  Bool-cases, inl, inr, ◌==◌,
}
use openfilter_pipelines_con.Go.Texts.{HasNo}
use openfilter_pipelines_con.Go.Strconv.{codes, digit, digits, itoa, scan}
use openfilter_pipelines_con.Go.Strconv.RoundTrip.{code-digit, scan-itoa}

-- The character is no digit.
abbrev pub IsNoDigit : Char → Type 0
IsNoDigit d = (code d < b'0') ⊎ (b'9' < code d)

digit-ne : (d : Char) (k : ℕ) → IsNoDigit d → k < 10 → digit k ≢ d
digit-ne d k h b e =
    let same : code d ≡ b'0' + k = sym (ap code e) ∙ code-digit k b in omega (arith, same)

digits-HasNo : (d : Char) (f n : ℕ) (s : String) → IsNoDigit d → HasNo d s → HasNo d (digits f n s)
unfolding digits
digits-HasNo d zero n s h p = p
digits-HasNo d (suc f) n s h p = elim (Bool-cases (n == 0)) [
  | inl e ↦ rw (digits, e) p
  | inr e ↦
      rw (digits, e)
        (digits-HasNo d f (n / 10) (String.◌∷◌ (digit (n % 10)) s) h
          (digit-ne d (n % 10) h (omega arith), p))
]

pub itoa-HasNo : (d : Char) (n : ℕ) → IsNoDigit d → HasNo d (itoa (pos n))
unfolding itoa digit
itoa-HasNo d zero h = (digit-ne d 0 h (omega arith), tt)
itoa-HasNo d (suc n) h = digits-HasNo d (suc n) (suc n) "" h tt

some-injective : {a b : ℕ} → some a ≡ some b → a ≡ b
some-injective h = cc h

pub itoa-injective : (n m : ℕ) → itoa (pos n) ≡ itoa (pos m) → n ≡ m
itoa-injective n m e =
    some-injective (sym (scan-itoa n) ∙ ap (λ s. scan (codes s) 0) e ∙ scan-itoa m)
