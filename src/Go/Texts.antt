-- ===== src/Go/Texts.antt =====
-- Texts that hold no separator, and how a joined text is taken apart at one.
use Prim.Native.Char.{Char}
use Prim.Native.String
use Prim.Native.String.append
use openfilter_pipelines_con.Base.{◌≡◌, ◌≢◌, refl, String}

-- The character stands nowhere in the text.
abbrev pub HasNo : Char → String → Type 0
HasNo d String.[] = Unit {0}
HasNo d (String.◌∷◌ c s) = (c ≢ d) × HasNo d s

-- Two texts without the separator that end at one end at the same place.
pub split_at :
    (d : Char) (a b s t : String)
    → HasNo d a
    → HasNo d b
    → String.◌++◌ a (String.◌∷◌ d s) ≡ String.◌++◌ b (String.◌∷◌ d t)
    → (a ≡ b) × (s ≡ t)
split_at d String.[] String.[] s t ha hb e =
    (refl, cc (append.nil (String.◌∷◌ d s), append.nil (String.◌∷◌ d t)))
split_at d String.[] (String.◌∷◌ c b) s t ha hb e =
    absurd (hb.0 (cc (append.nil (String.◌∷◌ d s), append.cons c b (String.◌∷◌ d t))))
split_at d (String.◌∷◌ c a) String.[] s t ha hb e =
    absurd (ha.0 (cc (append.cons c a (String.◌∷◌ d s), append.nil (String.◌∷◌ d t))))
split_at d (String.◌∷◌ x a) (String.◌∷◌ y b) s t ha hb e =
    let laws = append.cons x a (String.◌∷◌ d s) in
    let heads : x ≡ y = cc (laws, append.cons y b (String.◌∷◌ d t)) in
    let (same, rests) =
      split_at d a b s t ha.1 hb.1 (cc (laws, append.cons y b (String.◌∷◌ d t))) in
    (cc, rests)

-- A text with the separator in it is not one without.
pub separated-ne : (d : Char) (a s t : String) → HasNo d t → t ≢ String.◌++◌ a (String.◌∷◌ d s)
separated-ne d String.[] s String.[] h e = cc (append.nil (String.◌∷◌ d s))
separated-ne d String.[] s (String.◌∷◌ y t) h e = h.0 (cc (append.nil (String.◌∷◌ d s)))
separated-ne d (String.◌∷◌ x a) s String.[] h e = cc (append.cons x a (String.◌∷◌ d s))
separated-ne d (String.◌∷◌ x a) s (String.◌∷◌ y t) h e =
    separated-ne d a s t h.1 (cc (append.cons x a (String.◌∷◌ d s)))

-- Two texts behind which no separator stands begin at the same place after the last one.
pub split_at_last :
    (d : Char) (a b s t : String)
    → HasNo d s
    → HasNo d t
    → String.◌++◌ a (String.◌∷◌ d s) ≡ String.◌++◌ b (String.◌∷◌ d t)
    → (a ≡ b) × (s ≡ t)
split_at_last d String.[] String.[] s t hs ht e =
    (refl, cc (append.nil (String.◌∷◌ d s), append.nil (String.◌∷◌ d t)))
split_at_last d String.[] (String.◌∷◌ y b) s t hs ht e =
    absurd
      (separated-ne d b t s hs (cc (append.nil (String.◌∷◌ d s), append.cons y b (String.◌∷◌ d t))))
split_at_last d (String.◌∷◌ x a) String.[] s t hs ht e =
    absurd
      (separated-ne d a s t ht (cc (append.nil (String.◌∷◌ d t), append.cons x a (String.◌∷◌ d s))))
split_at_last d (String.◌∷◌ x a) (String.◌∷◌ y b) s t hs ht e =
    let laws = append.cons x a (String.◌∷◌ d s) in
    let heads : x ≡ y = cc (laws, append.cons y b (String.◌∷◌ d t)) in
    let (same, rests) =
      split_at_last d a b s t hs ht (cc (laws, append.cons y b (String.◌∷◌ d t))) in
    (cc, rests)
