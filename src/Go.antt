-- ===== src/Go.antt =====
-- What the controller uses of Go: error values with their chain of wrapped errors, results, and
-- operations that act on the world outside the process.
pub mod Strconv
pub mod Texts
use Prim.Native.String
use openfilter_pipelines_con.Base.{
  String, Bool, true, false, List, [], ◌∷◌, ◌≡◌, refl, sym, ap, ◌∙◌, ◌⊎◌, inl, inr,
}

-- The status reasons of the Kubernetes API that the code asks for.
pub data Reason : Type 0 where
  not_found already_exists other_reason : Reason

-- `wrap text e` is `fmt.Errorf("text: %w", e)`.
pub data Error : Type 0 where
  message : String → Error
  wrapped : String → Error → Error
  api : Reason → String → Error
  foreign : String → Error
  net : String → Error
  eof canceled deadline_exceeded : Error

-- The texts one after the other, as `fmt.Sprintf` and `+` join them.
abbrev pub concat : List String → String
concat [] = ""
concat (s ∷ ss) = String.◌++◌ s (concat ss)

-- `err.Error()`
unfoldable pub error_text : Error → String
error_text (message s) = s
error_text (wrapped s e) = concat (s ∷ ": " ∷ error_text e ∷ [])
error_text (api r s) = s
error_text (foreign s) = s
error_text (net s) = s
error_text eof = "EOF"
error_text canceled = "context canceled"
error_text deadline_exceeded = "context deadline exceeded"

-- `apierrors.IsNotFound` and `apierrors.IsAlreadyExists` look through wrapped errors.
abbrev pub is_not_found : Error → Bool
is_not_found (wrapped s e) = is_not_found e
is_not_found (api not_found s) = true
is_not_found _ = false

abbrev pub is_already_exists : Error → Bool
is_already_exists (wrapped s e) = is_already_exists e
is_already_exists (api already_exists s) = true
is_already_exists _ = false

pub data Result {ℓ} (A : Type ℓ) : Type ℓ where
  ok : A → Result A
  err : Error → Result A

abbrev pub is_ok {ℓ} : {A : Type ℓ} → Result A → Bool
is_ok (ok a) = true
is_ok (err e) = false

-- The request succeeded, or what it is about was not there.
abbrev pub IsAnswered : {A : Type 0} → Result A → Type 0
IsAnswered (ok a) = Unit {0}
IsAnswered (err e) = is_not_found e ≡ true

-- A result that is kept with its equation.
pub Result-cases :
    {A : Type 0} (r : Result A) → ((a : A) × (r ≡ ok a)) ⊎ ((e : Error) × (r ≡ err e))
Result-cases (ok a) = inl (a, refl)
Result-cases (err e) = inr (e, refl)

-- An operation on the world that can fail. A failed operation may have changed the world too.
abbrev pub Op : Type 0 → Type 0 → Type 0
Op W A = W → Result A × W

-- `if err != nil { return err }` between two operations.
infixl 5 ◌>>=◌
abbrev pub ◌>>=◌ : {W A B : Type 0} → Op W A → (A → Op W B) → Op W B
◌>>=◌ m f w = let r = m w in elim r.0 [ ok a ↦ f a r.1 | err e ↦ (err e, r.1) ]

abbrev pub return : {W A : Type 0} → A → Op W A
return a w = (ok a, w)

-- `if err != nil { return fmt.Errorf("text: %w", err) }`
abbrev pub wrapping : {W A : Type 0} → String → Op W A → Op W A
wrapping s m w = let r = m w in elim r.0 [ ok a ↦ (ok a, r.1) | err e ↦ (err (wrapped s e), r.1) ]

-- Wrapping the error changes neither the world nor whether the operation succeeded.
pub world-wrapping : {W A : Type 0} (s : String) (m : Op W A) (w : W) → (wrapping s m w).1 ≡ (m w).1
world-wrapping s m w = elim (Result-cases (m w).0) [
  | inl (a, e) ↦ rw (wrapping, e) refl
  | inr (e, f) ↦ rw (wrapping, f) refl
]

pub is_ok-wrapping :
    {W A : Type 0} (s : String) (m : Op W A) (w : W) → is_ok (wrapping s m w).0 ≡ is_ok (m w).0
is_ok-wrapping s m w = elim (Result-cases (m w).0) [
  | inl (a, e) ↦ rw (wrapping, e) refl
  | inr (e, f) ↦ rw (wrapping, f) refl
]

-- What follows a request that succeeded, and one that failed.
module _ {W A B : Type 0} (m : Op W A) (f : A → Op W B) (w : W) where
  pub bind-ok : (a : A) → (m w).0 ≡ ok a → (m >>= f) w ≡ f a (m w).1
  bind-ok a e = rw (◌>>=◌, e) refl

  pub bind-err : (e : Error) → (m w).0 ≡ err e → (m >>= f) w ≡ (err e, (m w).1)
  bind-err e h = rw (◌>>=◌, h) refl

-- What an operation goes on with depends on its answer and its world alone.
pub bind_at :
    {W A B : Type 0} (m n : Op W A) (f : A → Op W B) (w u : W)
    → m w ≡ n u
    → (m >>= f) w ≡ (n >>= f) u
bind_at {W} {A} {B} m n f w u e =
    ap
      (λ (r : Result A × W).
        let next : Result B × W = elim r.0 [ ok a ↦ f a r.1 | err e ↦ (err e, r.1) ] in next)
      e

pub bind_assoc :
    {W A B C : Type 0} (m : Op W A) (f : A → Op W B) (g : B → Op W C) (w : W)
    → ((m >>= f) >>= g) w ≡ (m >>= λ a. f a >>= g) w
bind_assoc m f g w = elim (Result-cases (m w).0) [
  | inl (a, e) ↦
      bind_at (m >>= f) (f a) g w (m w).1 (bind-ok m f w a e)
      ∙ sym (bind-ok m (λ b. f b >>= g) w a e)
  | inr (e, h) ↦
      bind-err (m >>= f) g w e (ap (λ (p : Result _ × _). p.0) (bind-err m f w e h))
      ∙ ap (λ (p : Result _ × _). (err e, p.1)) (bind-err m f w e h)
      ∙ sym (bind-err m (λ b. f b >>= g) w e h)
]
