-- ===== src/Text/Defs.antt =====
-- The operations of Python's `str` that the gateway calls, on lists of code points.
use Prim.Native.Char.{code}
use bifrost_platform_plugin.Prelude.{
  ℕ, zero, suc, ◌+◌, ◌-◌, ◌*◌, ◌/◌, ◌%◌, String, Bool, true, false, ◌&&◌, ◌||◌, Option, none, some,
  List, [], ◌∷◌, ◌++◌, map, reverse, ltb, leb, ◌==◌, if◌then◌else◌, ℤ, pos, negsuc,
}

abbrev pub Text : Type 0
Text = List ℕ

-- A text literal.
abbrev pub txt : String → Text
txt String.[] = []
txt (String.◌∷◌ c s) = code c ∷ txt s

-- A dictionary from texts to texts.
abbrev pub Fields : Type 0
Fields = List (Text × Text)

-- str.isspace on one character
unfoldable pub is_space : ℕ → Bool
is_space c =
    (leb 9 c && leb c 13)
    || (leb 28 c && leb c 32)
    || c == 0x85
    || c == 0xA0
    || c == 0x1680
    || (leb 0x2000 c && leb c 0x200A)
    || c == 0x2028
    || c == 0x2029
    || c == 0x202F
    || c == 0x205F
    || c == 0x3000

unfoldable pub lstrip : Text → Text
lstrip [] = []
lstrip (c ∷ s) = if is_space c then lstrip s else c ∷ s

-- s.strip()
unfoldable pub strip : Text → Text
unfolding is_space lstrip
strip s = reverse (lstrip (reverse (lstrip s)))

unfoldable pub upper_char : ℕ → ℕ
upper_char c = if leb b'a' c && leb c b'z' then c - 32 else c

-- s.upper()
unfoldable pub upper : Text → Text
unfolding upper_char
upper = map upper_char

unfoldable pub lower_char : ℕ → ℕ
lower_char c = if leb b'A' c && leb c b'Z' then c + 32 else c

-- s.lower()
unfoldable pub lower : Text → Text
unfolding lower_char
lower = map lower_char

-- a == b
unfoldable pub text_eq : Text → Text → Bool
text_eq [] [] = true
text_eq (x ∷ xs) (y ∷ ys) = x == y && text_eq xs ys
text_eq _ _ = false

-- a in (b, ...)
unfoldable pub mem_text : Text → List Text → Bool
mem_text a [] = false
mem_text a (b ∷ bs) = text_eq a b || mem_text a bs

-- s.startswith(p)
unfoldable pub starts_with : Text → Text → Bool
starts_with [] s = true
starts_with (p ∷ ps) [] = false
starts_with (p ∷ ps) (c ∷ s) = p == c && starts_with ps s

-- p in s
unfoldable pub contains : Text → Text → Bool
unfolding starts_with
contains p [] = starts_with p []
contains p (c ∷ s) = starts_with p (c ∷ s) || contains p s

unfoldable pub is_digit : ℕ → Bool
is_digit c = leb b'0' c && leb c b'9'

-- The decimal digits of a number in front of `acc`; the number is below the fuel.
unfoldable pub digits_of : ℕ → ℕ → Text → Text
digits_of zero n acc = acc
digits_of (suc fuel) n acc =
    let d = (b'0' + n % 10) ∷ acc in
    let more = digits_of fuel (n / 10) d in if ltb n 10 then d else more

-- str(n)
unfoldable pub show_ℕ : ℕ → Text
unfolding digits_of
show_ℕ n = digits_of (suc n) n []

unfoldable pub show_ℤ : ℤ → Text
unfolding show_ℕ
show_ℤ (pos n) = show_ℕ n
show_ℤ (negsuc n) = b'-' ∷ show_ℕ (suc n)

-- d.get(key)
unfoldable pub get {ℓ} : {V : Type ℓ} → Text → List (Text × V) → Option V
unfolding text_eq
get k [] = none
get k ((j, v) ∷ m) = if text_eq k j then some v else get k m

-- d.get(key) or ""
unfoldable pub get_text : Text → Fields → Text
unfolding get
get_text k m = elim (get k m) [ none ↦ [] | some v ↦ v ]

-- sep.join(parts)
unfoldable pub join : ℕ → List Text → Text
join sep [] = []
join sep (a ∷ []) = a
join sep (a ∷ b ∷ rest) = a ++ sep ∷ join sep (b ∷ rest)

-- s.split(sep), the part read so far in reverse
unfoldable pub split_at : ℕ → Text → Text → List Text
split_at sep part [] = reverse part ∷ []
split_at sep part (c ∷ s) =
    let cut = reverse part ∷ split_at sep [] s in
    let go_on = split_at sep (c ∷ part) s in if c == sep then cut else go_on

unfoldable pub split : ℕ → Text → List Text
unfolding split_at
split sep s = split_at sep [] s

-- a <= b: by code points, from the left
unfoldable pub leb_text : Text → Text → Bool
leb_text [] ys = true
leb_text (x ∷ xs) [] = false
leb_text (x ∷ xs) (y ∷ ys) = ltb x y || (x == y && leb_text xs ys)

unfoldable pub insert_text : Text → List Text → List Text
unfolding leb_text
insert_text a [] = a ∷ []
insert_text a (b ∷ bs) = if leb_text a b then a ∷ b ∷ bs else b ∷ insert_text a bs

-- l.sort(): equal texts are alike, so every sort gives this list
unfoldable pub sort_text : List Text → List Text
unfolding insert_text
sort_text [] = []
sort_text (a ∷ l) = insert_text a (sort_text l)

-- The digits of `int(s)`: single underscores may stand between two of them.
unfoldable pub int_digits : ℕ → Text → Option ℕ
unfolding is_digit
int_digits n [] = some n
int_digits n (c ∷ []) = if is_digit c then some (n * 10 + (c - b'0')) else none
int_digits n (c ∷ d ∷ s) =
    let digit = int_digits (n * 10 + (c - b'0')) (d ∷ s) in
    let under = int_digits (n * 10 + (d - b'0')) s in
    if is_digit c then digit else if c == b'_' && is_digit d then under else none

-- An unsigned number begins with a digit.
unfoldable pub int_unsigned : Text → Option ℕ
unfolding int_digits
int_unsigned [] = none
int_unsigned (c ∷ s) = if is_digit c then int_digits 0 (c ∷ s) else none

unfoldable pub negate : ℕ → ℤ
negate zero = pos zero
negate (suc n) = negsuc n

-- int(s) of a text; `none` is a ValueError
unfoldable pub int_of_text : Text → Option ℤ
unfolding strip int_unsigned negate
int_of_text s = signed (strip s)
  where
    as_pos : Option ℕ → Option ℤ
    as_pos none = none
    as_pos (some n) = some (pos n)

    as_neg : Option ℕ → Option ℤ
    as_neg none = none
    as_neg (some n) = some (negate n)

    signed : Text → Option ℤ
    signed [] = none
    signed (c ∷ rest) =
        if c == b'-'
        then as_neg (int_unsigned rest)
        else if c == b'+'
        then as_pos (int_unsigned rest)
        else as_pos (int_unsigned (c ∷ rest))
