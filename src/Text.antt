-- ===== src/Text.antt =====
-- What auth.py, `AuthMiddleware` and content_converters.py do to texts, by code points.
use Prim.Native.Char.{Char, code}
use Prim.Native.String
use text.Mathlib.TextLemmas.{nil-append, cons-append}
use openbotflow.Prelude.{
  ℕ, ◌+◌, ◌≡◌, refl, ap, ◌∙◌, String, Bool, true, false, ◌&&◌, ◌||◌, Option, none, some, List, [],
  ◌∷◌, leb, ltb, ◌==◌, nat_key, string_key, if◌then◌else◌,
}

-- str.isspace of one character
abbrev pub is_space : ℕ → Bool
is_space c =
    (leb 9 c && leb c 13)
    || (leb 28 c && leb c 32)
    || c == 0x85
    || c == 0xa0
    || c == 0x1680
    || (leb 0x2000 c && leb c 0x200a)
    || c == 0x2028
    || c == 0x2029
    || c == 0x202f
    || c == 0x205f
    || c == 0x3000

unfoldable pub lstrip : String → String
lstrip String.[] = ""
lstrip (String.◌∷◌ c s) = let rest = lstrip s in if is_space (code c) then rest else String.◌∷◌ c s

unfoldable pub rstrip : String → String
rstrip String.[] = ""
rstrip (String.◌∷◌ c s) =
    let rest = rstrip s in if rest == "" && is_space (code c) then "" else String.◌∷◌ c rest

-- s.strip()
unfoldable pub strip : String → String
unfolding lstrip rstrip
strip s = rstrip (lstrip s)

-- The text before the first such character, and the text behind it; `none` where there is none.
unfoldable pub cut : (sep : ℕ) → String → String × Option String
cut sep String.[] = ("", none)
cut sep (String.◌∷◌ c s) =
    let (before, after) = cut sep s in
    if code c == sep then ("", some s) else (String.◌∷◌ c before, after)

abbrev pub split_cons : Bool → Char → List String → List String
split_cons true c parts = "" ∷ parts
split_cons false c [] = String.◌∷◌ c "" ∷ []
split_cons false c (part ∷ parts) = String.◌∷◌ c part ∷ parts

-- s.split(sep)
unfoldable pub split : (sep : ℕ) → String → List String
split sep String.[] = "" ∷ []
split sep (String.◌∷◌ c s) = split_cons (code c == sep) c (split sep s)

-- No such character stands in a text.
abbrev pub Lacks : ℕ → String → Type 0
Lacks sep String.[] = Unit
Lacks sep (String.◌∷◌ c s) = ((code c == sep) ≡ false) × Lacks sep s

pub split_plain : (sep : ℕ) (s : String) → Lacks sep s → split sep s ≡ s ∷ []
unfolding split
split_plain sep String.[] h = refl
split_plain sep (String.◌∷◌ c s) (d, h) = rw (d, split_plain sep s h) refl

-- A text of one character, the separator.
abbrev pub IsSeparator : ℕ → String → Type 0
IsSeparator sep String.[] = ⊥
IsSeparator sep (String.◌∷◌ c String.[]) = (code c == sep) ≡ true
IsSeparator sep (String.◌∷◌ c (String.◌∷◌ d s)) = ⊥

separated : (c : Char) (t : String) → String.◌++◌ (String.◌∷◌ c "") t ≡ String.◌∷◌ c t
separated c t = cons-append c "" t ∙ ap (λ u. String.◌∷◌ c u) (nil-append t)

-- A part in front of a separator is the first of the parts.
pub split-append :
    (sep : ℕ) (s one t : String)
    → IsSeparator sep one
    → Lacks sep s
    → split sep (String.◌++◌ s (String.◌++◌ one t)) ≡ s ∷ split sep t
unfolding split
split-append sep s String.[] t e h = elim e [ ]
split-append sep s (String.◌∷◌ c (String.◌∷◌ d u)) t e h = elim e [ ]
split-append sep String.[] (String.◌∷◌ c String.[]) t e h =
    rw (nil-append (String.◌++◌ (String.◌∷◌ c "") t), separated c t, e) refl
split-append sep (String.◌∷◌ d s) (String.◌∷◌ c String.[]) t e (k, h) =
    rw
      (
        cons-append d s (String.◌++◌ (String.◌∷◌ c "") t),
        k,
        split-append sep s (String.◌∷◌ c "") t e h,
      )
      refl

pub cut-append :
    (sep : ℕ) (s one t : String)
    → IsSeparator sep one
    → Lacks sep s
    → cut sep (String.◌++◌ s (String.◌++◌ one t)) ≡ (s, some t)
unfolding cut
cut-append sep s String.[] t e h = elim e [ ]
cut-append sep s (String.◌∷◌ c (String.◌∷◌ d u)) t e h = elim e [ ]
cut-append sep String.[] (String.◌∷◌ c String.[]) t e h =
    rw (nil-append (String.◌++◌ (String.◌∷◌ c "") t), separated c t, e) refl
cut-append sep (String.◌∷◌ d s) (String.◌∷◌ c String.[]) t e (k, h) =
    rw
      (
        cons-append d s (String.◌++◌ (String.◌∷◌ c "") t),
        k,
        cut-append sep s (String.◌∷◌ c "") t e h,
      )
      refl

-- The ASCII letters in lower case.
abbrev pub lower : ℕ → ℕ
lower c = if leb b'A' c && leb c b'Z' then c + 32 else c

abbrev pub codes : String → List ℕ
codes String.[] = []
codes (String.◌∷◌ c s) = code c ∷ codes s

-- scheme.lower() == "bearer": no other character's lower case is one of these letters.
abbrev pub is_bearer : List ℕ → Bool
is_bearer (b ∷ e ∷ a ∷ r ∷ e' ∷ r' ∷ []) =
    lower b == b'b'
    && lower e == b'e'
    && lower a == b'a'
    && lower r == b'r'
    && lower e' == b'e'
    && lower r' == b'r'
is_bearer _ = false

-- What `secrets.compare_digest` demands of a text.
abbrev pub is_ascii : String → Bool
is_ascii String.[] = true
is_ascii (String.◌∷◌ c s) = ltb (code c) 128 && is_ascii s
