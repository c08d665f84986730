-- ===== src/Text/Sort.antt =====
-- The order of texts is total, and sorting forgets the order of the list that it is given.
use mathlib.Core.List.{Permᴰ}
use bifrost_platform_plugin.Prelude.{
  ◌≡◌, refl, ◌∙◌, ◌⊎◌, true, ◌||◌, List, [], ◌∷◌, arith, Bool-cases, inl, inr,
}
use bifrost_platform_plugin.Text.Defs.{Text, text_eq, mem_text, leb_text, insert_text, sort_text}

leb_text_total : (a b : Text) → (leb_text a b ≡ true) ⊎ (leb_text b a ≡ true)
unfolding leb_text
leb_text_total [] b = inl refl
leb_text_total (x ∷ xs) [] = inr refl
leb_text_total (x ∷ xs) (y ∷ ys) = ground (arith, leb_text_total xs ys)

leb_text_antisym : (a b : Text) → leb_text a b ≡ true → leb_text b a ≡ true → a ≡ b
unfolding leb_text
leb_text_antisym [] [] h k = refl
leb_text_antisym [] (y ∷ ys) h k = cc
leb_text_antisym (x ∷ xs) [] h k = cc
leb_text_antisym (x ∷ xs) (y ∷ ys) h k = ground (arith, leb_text_antisym xs ys)

leb_text_trans : (a b c : Text) → leb_text a b ≡ true → leb_text b c ≡ true → leb_text a c ≡ true
unfolding leb_text
leb_text_trans [] b c h k = refl
leb_text_trans (x ∷ xs) [] c h k = cc
leb_text_trans (x ∷ xs) (y ∷ ys) [] h k = cc
leb_text_trans (x ∷ xs) (y ∷ ys) (z ∷ zs) h k = ground (arith, leb_text_trans xs ys zs)

pub insert_comm :
    (a b : Text) (l : List Text) → insert_text a (insert_text b l) ≡ insert_text b (insert_text a l)
unfolding insert_text
insert_comm a b [] = ground (arith, leb_text_total a b, leb_text_antisym a b)
insert_comm a b (x ∷ l) = ground (
  arith,
  leb_text_total a b,
  leb_text_antisym a b,
  leb_text_total a x,
  leb_text_total b x,
  leb_text_trans a b x,
  leb_text_trans b a x,
  insert_comm a b l,
)

-- Two lists with the same texts, each as often, are sorted alike.
pub sort_text-perm : {l m : List Text} → Permᴰ l m → sort_text l ≡ sort_text m
unfolding sort_text
sort_text-perm Permᴰ.nil = refl
sort_text-perm (Permᴰ.cons e p) = cc (e, sort_text-perm p)
sort_text-perm (Permᴰ.swap {a} {b} {l = l} e f) = insert_comm a b (sort_text l) ∙ cc (e, f)
sort_text-perm (Permᴰ.trans p q) = sort_text-perm p ∙ sort_text-perm q

mem_text-insert_text :
    (a b : Text) (l : List Text) → mem_text a (insert_text b l) ≡ (text_eq a b || mem_text a l)
unfolding mem_text insert_text
mem_text-insert_text a b [] = refl
mem_text-insert_text a b (x ∷ l) = ground (arith, mem_text-insert_text a b l)

pub mem_text-sort_text : (a : Text) (l : List Text) → mem_text a (sort_text l) ≡ mem_text a l
unfolding sort_text mem_text
mem_text-sort_text a [] = refl
mem_text-sort_text a (x ∷ l) =
    ground (arith, mem_text-insert_text a x (sort_text l), mem_text-sort_text a l)

-- Each text is at most the next.
abbrev pub IsSorted : List Text → Type 0
IsSorted [] = Unit
IsSorted (x ∷ []) = Unit
IsSorted (x ∷ y ∷ l) = (leb_text x y ≡ true) × IsSorted (y ∷ l)

insert_text-IsSorted : (a : Text) (l : List Text) → IsSorted l → IsSorted (insert_text a l)
unfolding insert_text
insert_text-IsSorted a [] h = tt
insert_text-IsSorted a (x ∷ []) h = elim (Bool-cases (leb_text a x)) [
  | inl e ↦ rw e (e, tt)
  | inr e ↦ rw e (ground (arith, leb_text_total a x), tt)
]
insert_text-IsSorted a (x ∷ y ∷ l) h =
    ground (arith, leb_text_total a x, insert_text-IsSorted a (y ∷ l) h.1)

pub sort_text-IsSorted : (l : List Text) → IsSorted (sort_text l)
unfolding sort_text
sort_text-IsSorted [] = tt
sort_text-IsSorted (a ∷ l) = insert_text-IsSorted a (sort_text l) (sort_text-IsSorted l)
