-- ===== src/TextOrder.antt =====
-- The order of texts by their characters' numbers.
use Prim.Native.Char.{Char, code}
use Prim.Native.String.compare.{nil-cons, cons-nil, cons-cons}
use text.Mathlib.TextEquality.{codes_equal}
use inter_claude_connector.Base.{
  String, ◌≡◌, refl, inl, inr, true, false, ◌&&◌, ◌||◌, arith, ltb, nat_eq, Bool-cases,
}
use inter_claude_connector.InboxDb.{text_lt}

lt-cons :
    (c d : Char) (s t : String)
    → text_lt (String.◌∷◌ c s) (String.◌∷◌ d t)
      ≡ (ltb (code c) (code d) || (nat_eq (code c) (code d) && text_lt s t))
lt-cons c d s t = rw (cons-cons c d s t, text_lt) (ground arith)

lt-nil : (s : String) → text_lt s String.[] ≡ false
lt-nil String.[] = refl
lt-nil (String.◌∷◌ c s) = rw (cons-nil c s, text_lt) refl

nil-lt : (c : Char) (s : String) → text_lt String.[] (String.◌∷◌ c s) ≡ true
nil-lt c s = rw (nil-cons c s, text_lt) refl

pub text_lt_trans : (a b c : String) → text_lt a b ≡ true → text_lt b c ≡ true → text_lt a c ≡ true
text_lt_trans a b String.[] h k = absurd (ground (arith, lt-nil b))
text_lt_trans a String.[] (String.◌∷◌ z c) h k = absurd (ground (arith, lt-nil a))
text_lt_trans String.[] (String.◌∷◌ y b) (String.◌∷◌ z c) h k = nil-lt z c
text_lt_trans (String.◌∷◌ x a) (String.◌∷◌ y b) (String.◌∷◌ z c) h k =
    ground (arith, lt-cons x y a b, lt-cons y z b c, lt-cons x z a c, text_lt_trans a b c)

pub text_lt_asymm : (a b : String) → text_lt a b ≡ true → text_lt b a ≡ false
text_lt_asymm a String.[] h = absurd (ground (arith, lt-nil a))
text_lt_asymm String.[] (String.◌∷◌ y b) h = lt-nil (String.◌∷◌ y b)
text_lt_asymm (String.◌∷◌ x a) (String.◌∷◌ y b) h =
    ground (arith, lt-cons x y a b, lt-cons y x b a, text_lt_asymm a b)

pub text_lt_total : (a b : String) → text_lt a b ≡ false → text_lt b a ≡ false → a ≡ b
text_lt_total String.[] String.[] h k = refl
text_lt_total String.[] (String.◌∷◌ y b) h k = absurd (ground (arith, nil-lt y b))
text_lt_total (String.◌∷◌ x a) String.[] h k = absurd (ground (arith, nil-lt x a))
text_lt_total (String.◌∷◌ x a) (String.◌∷◌ y b) h k =
    let e : x ≡ y = codes_equal x y (ground (arith, lt-cons x y a b, lt-cons y x b a)) in
    let r : a ≡ b =
      text_lt_total a b (ground (arith, lt-cons x y a b, lt-cons y x b a))
        (ground (arith, lt-cons x y a b, lt-cons y x b a)) in
    rw (e, r)

pub le-lt : (a b c : String) → text_lt b a ≡ false → text_lt b c ≡ true → text_lt a c ≡ true
le-lt a b c h k = elim (Bool-cases (text_lt a b)) [
  | inl less ↦ text_lt_trans a b c less k
  | inr other ↦ let e : a ≡ b = text_lt_total a b other h in rw e k
]
