-- ===== src/Prelude/Text.antt =====
-- The order of texts by code points, which is Python's order of `str`.
use Prim.Native.Nat.{ℕ, compare, Ordering}
use Prim.Native.String.{String, ◌++◌}
use Prim.Native.Char.{Char, code}
use mathlib.Core.Path.{◌≡◌, refl, ap, ap₂, ◌∙◌}
use mathlib.Core.Logic.{◌⊎◌, inl, inr}
use mathlib.Core.Bool.{Bool, true, false, ◌&&◌, ◌||◌}
use agent_advisor.Prelude.Tests.{leb, if◌then◌else◌, ◌==◌ as num_eq}
use native.Mathlib.Omega.{arith}
use text.Mathlib.TextEquality.{Char-path}
use text.Mathlib.TextLemmas.{nil-append, cons-append}
pub use text.Mathlib.TextEquality.{eq_iff}
pub use text.Mathlib.Text.{◌==◌}

-- s <= t
unfoldable pub text_leb : String → String → Bool
text_leb String.[] t = true
text_leb (String.◌∷◌ c s) String.[] = false
text_leb (String.◌∷◌ c s) (String.◌∷◌ d t) =
    let rest = text_leb s t in
    elim (compare (code c) (code d)) [
      | Ordering.lt ↦ true
      | Ordering.eq ↦ rest
      | Ordering.gt ↦ false
    ]

pub text_leb_total : (s t : String) → (text_leb s t ≡ true) ⊎ (text_leb t s ≡ true)
unfolding text_leb
text_leb_total String.[] t = inl refl
text_leb_total (String.◌∷◌ c s) String.[] = inr refl
text_leb_total (String.◌∷◌ c s) (String.◌∷◌ d t) = ground (arith, text_leb_total s t)

pub text_leb_trans :
    (s t u : String) → text_leb s t ≡ true → text_leb t u ≡ true → text_leb s u ≡ true
unfolding text_leb
text_leb_trans String.[] t u h k = refl
text_leb_trans (String.◌∷◌ c s) String.[] u h k = cc
text_leb_trans (String.◌∷◌ c s) (String.◌∷◌ d t) String.[] h k = cc
text_leb_trans (String.◌∷◌ c s) (String.◌∷◌ d t) (String.◌∷◌ e u) h k =
    ground (arith, text_leb_trans s t u)

pub text_leb_antisymm : (s t : String) → text_leb s t ≡ true → text_leb t s ≡ true → s ≡ t
unfolding text_leb
text_leb_antisymm String.[] String.[] h k = refl
text_leb_antisymm String.[] (String.◌∷◌ d t) h k = cc
text_leb_antisymm (String.◌∷◌ c s) String.[] h k = cc
text_leb_antisymm (String.◌∷◌ c s) (String.◌∷◌ d t) h k =
    let parts : (code c ≡ code d) × (text_leb s t ≡ true) × (text_leb t s ≡ true) = ground arith in
    ap₂ String.◌∷◌ (Char-path c d parts.0) (text_leb_antisymm s t parts.1 parts.2)

-- c.isspace()
abbrev pub is_space : ℕ → Bool
is_space c =
    (leb 9 c && leb c 13)
    || (leb 28 c && leb c 32)
    || num_eq c 133
    || num_eq c 160
    || num_eq c 5760
    || (leb 8192 c && leb c 8202)
    || num_eq c 8232
    || num_eq c 8233
    || num_eq c 8239
    || num_eq c 8287
    || num_eq c 12288

-- not s.strip()
unfoldable pub is_blank : String → Bool
is_blank String.[] = true
is_blank (String.◌∷◌ c s) = is_space (code c) && is_blank s

-- s.strip(…), for the characters of a test on their codes
unfoldable pub strip_left : (ℕ → Bool) → String → String
strip_left p String.[] = String.[]
strip_left p (String.◌∷◌ c s) =
    let rest = strip_left p s in if p (code c) then rest else String.◌∷◌ c s

abbrev pub is_nil : String → Bool
is_nil String.[] = true
is_nil (String.◌∷◌ c s) = false

unfoldable pub strip_right : (ℕ → Bool) → String → String
strip_right p String.[] = String.[]
strip_right p (String.◌∷◌ c s) =
    let rest = strip_right p s in if is_nil rest && p (code c) then String.[] else String.◌∷◌ c rest

-- A regular expression's `sub`: each run of characters that are not kept becomes the character `by`.
-- `inside` is whether the character before was in such a run.
unfoldable pub replaced : (kept : ℕ → Bool) (by : Char) (inside : Bool) → String → String
replaced kept by inside String.[] = String.[]
replaced kept by inside (String.◌∷◌ c s) =
    let after_kept = replaced kept by false s in
    let after_run = replaced kept by true s in
    if kept (code c)
    then String.◌∷◌ c after_kept
    else if inside
    then after_run
    else String.◌∷◌ by after_run

-- Whether every character's code passes the test.
unfoldable pub all_codes : (ℕ → Bool) → String → Bool
all_codes p String.[] = true
all_codes p (String.◌∷◌ c s) = p (code c) && all_codes p s

pub all_codes-append :
    (p : ℕ → Bool) (s t : String) → all_codes p (s ++ t) ≡ (all_codes p s && all_codes p t)
unfolding all_codes
all_codes-append p String.[] t = ap (all_codes p) (nil-append t)
all_codes-append p (String.◌∷◌ c s) t =
    ap (all_codes p) (cons-append c s t) ∙ ground (arith, all_codes-append p s t)
