-- ===== src/Go/Strconv.antt =====
-- `strconv.Itoa` and `strconv.Atoi` at 64 bits, and the retry counter that the controller keeps as
-- text in a queue message (`parseAttempts`, internal/controller/pipelineinstance_controller_batch.go).
pub mod RoundTrip
pub mod Digits
use Prim.Native.Char.{Char, code}
use Prim.Native.String
use openfilter_pipelines_con.Base.{
  ℕ, zero, suc, ◌+◌, ◌-◌, ◌*◌, ◌/◌, ◌%◌, ◌≡◌, refl, Bool, ◌||◌, List, [], ◌∷◌, Option, none, some,
  String, str_eq, ltb, leb, ◌==◌, if◌then◌else◌, ℤ, pos, negsuc, two_63,
}

abbrev pub codes : String → List ℕ
codes String.[] = []
codes (String.◌∷◌ c s) = code c ∷ codes s

-- The character of a decimal digit.
pub digit : ℕ → Char
digit zero = "0"
digit (suc zero) = "1"
digit (suc (suc zero)) = "2"
digit (suc (suc (suc zero))) = "3"
digit (suc (suc (suc (suc zero)))) = "4"
digit (suc (suc (suc (suc (suc zero))))) = "5"
digit (suc (suc (suc (suc (suc (suc zero)))))) = "6"
digit (suc (suc (suc (suc (suc (suc (suc zero))))))) = "7"
digit (suc (suc (suc (suc (suc (suc (suc (suc zero)))))))) = "8"
digit _ = "9"

-- The digits of `n` in front of a text; a fuel of `n` is enough.
pub digits : ℕ → ℕ → String → String
digits zero n s = s
digits (suc f) n s =
    let rest = digits f (n / 10) (String.◌∷◌ (digit (n % 10)) s) in if n == 0 then s else rest

unfoldable pub itoa : ℤ → String
unfolding digit digits
itoa (pos zero) = "0"
itoa (pos (suc n)) = digits (suc n) (suc n) ""
itoa (negsuc n) = String.◌++◌ "-" (digits (suc n) (suc n) "")

-- The value of the digits behind those of `n`, or none at any other character.
pub scan : List ℕ → ℕ → Option ℕ
scan [] n = some n
scan (c ∷ cs) n = if ltb c b'0' || ltb b'9' c then none else scan cs (n * 10 + (c - b'0'))

-- The range check of a 64-bit integer.
pub to_positive : Option ℕ → Option ℤ
to_positive none = none
to_positive (some n) = if ltb n two_63 then some (pos n) else none

pub to_negative : Option ℕ → Option ℤ
to_negative none = none
to_negative (some zero) = some (pos 0)
to_negative (some (suc n)) = if ltb n two_63 then some (negsuc n) else none

pub unsigned : List ℕ → Option ℕ
unfolding scan
unsigned [] = none
unsigned (c ∷ cs) = scan (c ∷ cs) 0

pub atoi_codes : List ℕ → Option ℤ
unfolding unsigned to_positive to_negative
atoi_codes [] = none
atoi_codes (c ∷ cs) =
    if c == b'-'
    then to_negative (unsigned cs)
    else if c == b'+'
    then to_positive (unsigned cs)
    else to_positive (unsigned (c ∷ cs))

unfoldable pub atoi : String → Option ℤ
unfolding atoi_codes
atoi s = atoi_codes (codes s)

-- A negative count is refused like a text that is no number.
pub nonneg_or : Option ℤ → ℤ → ℤ
nonneg_or none fallback = fallback
nonneg_or (some (negsuc n)) fallback = fallback
nonneg_or (some (pos n)) fallback = pos n

unfoldable pub parse_attempts : String → ℤ → ℤ
unfolding atoi nonneg_or
parse_attempts value fallback =
    if str_eq value "" then fallback else nonneg_or (atoi value) fallback

itoa_test : itoa (pos 1203) ≡ "1203"
unfolding itoa
itoa_test = refl

atoi_test : atoi "-17" ≡ some (negsuc 16)
unfolding atoi
atoi_test = refl

atoi_range : atoi "9223372036854775808" ≡ none
unfolding atoi
atoi_range = refl
