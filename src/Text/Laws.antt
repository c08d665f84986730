-- ===== src/Text/Laws.antt =====
-- Equality, membership and dictionary look-up of texts.
use bifrost_platform_plugin.Prelude.{
  ℕ, ◌≡◌, refl, ap, sym, ◌∙◌, reverse, ◌↔◌, inl, inr, ◌≢◌, true, false, ◌||◌, List, [], ◌∷◌, ◌++◌,
  arith, Bool-cases,
}
use mathlib.Core.List.{reverse-append, reverse-reverse}
use bifrost_platform_plugin.Text.Defs.{Text, text_eq, mem_text, is_space, lstrip, strip}

pub text_eq_refl : (a : Text) → text_eq a a ≡ true
unfolding text_eq
text_eq_refl [] = refl
text_eq_refl (x ∷ xs) = ground (arith, text_eq_refl xs)

pub text_eq→eq : (a b : Text) → text_eq a b ≡ true → a ≡ b
unfolding text_eq
text_eq→eq [] [] h = refl
text_eq→eq [] (y ∷ ys) h = cc
text_eq→eq (x ∷ xs) [] h = cc
text_eq→eq (x ∷ xs) (y ∷ ys) h = ground (arith, text_eq→eq xs ys)

pub text_eq_iff : (a b : Text) → (text_eq a b ≡ true) ↔ (a ≡ b)
text_eq_iff a b = (text_eq→eq a b, λ e. rw e (text_eq_refl b))

pub text_eq_ne : (a b : Text) → a ≢ b → text_eq a b ≡ false
text_eq_ne a b h = elim (Bool-cases (text_eq a b)) [
  | inl e ↦ absurd (h (text_eq→eq a b e))
  | inr e ↦ e
]

pub text_eq_sym : (a b : Text) → text_eq a b ≡ text_eq b a
unfolding text_eq
text_eq_sym [] [] = refl
text_eq_sym [] (y ∷ ys) = refl
text_eq_sym (x ∷ xs) [] = refl
text_eq_sym (x ∷ xs) (y ∷ ys) = ground (arith, text_eq_sym xs ys)

pub mem_text-append :
    (a : Text) (xs ys : List Text) → mem_text a (xs ++ ys) ≡ (mem_text a xs || mem_text a ys)
unfolding mem_text
mem_text-append a [] ys = refl
mem_text-append a (x ∷ xs) ys = ground (arith, mem_text-append a xs ys)

-- No text stands twice in the list.
abbrev pub IsDistinct : List Text → Type 0
IsDistinct [] = Unit
IsDistinct (x ∷ xs) = (mem_text x xs ≡ false) × IsDistinct xs

pub IsDistinct-snoc :
    (xs : List Text) (a : Text) → IsDistinct xs → mem_text a xs ≡ false → IsDistinct (xs ++ a ∷ [])
unfolding mem_text
IsDistinct-snoc [] a h m = (refl, tt)
IsDistinct-snoc (x ∷ xs) a h m = (
  ground (arith, mem_text-append x xs (a ∷ []), text_eq_sym a x),
  IsDistinct-snoc xs a h.1 (ground arith),
)

lstrip_fixed : (c : ℕ) (s : Text) → is_space c ≡ false → lstrip (c ∷ s) ≡ c ∷ s
unfolding lstrip
lstrip_fixed c s h = rw h

-- A text that begins and ends with characters that are no spaces is its own stripped form.
pub strip_fixed :
    (c : ℕ) (s t : Text) (d : ℕ)
    → is_space c ≡ false
    → is_space d ≡ false
    → c ∷ s ≡ t ++ d ∷ []
    → strip (c ∷ s) ≡ c ∷ s
unfolding strip
strip_fixed c s t d hc hd e =
    let turned : reverse (t ++ d ∷ []) ≡ d ∷ reverse t = reverse-append t (d ∷ []) in
    ap (λ x. reverse (lstrip (reverse x))) (lstrip_fixed c s hc ∙ e)
    ∙ ap (λ x. reverse (lstrip x)) turned
    ∙ ap reverse (lstrip_fixed d (reverse t) hd)
    ∙ ap reverse (sym turned)
    ∙ reverse-reverse (t ++ d ∷ [])
    ∙ sym e
