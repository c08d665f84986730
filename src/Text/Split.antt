-- ===== src/Text/Split.antt =====
-- Splitting at a separator undoes joining with it.
use bifrost_platform_plugin.Prelude.{
  ℕ, ◌≡◌, refl, ap, ◌∙◌, false, List, [], ◌∷◌, ◌++◌, reverse, ◌==◌, All, append-nil, append_assoc,
  ==_iff,
}
use mathlib.Core.List.{reverse-append}
use bifrost_platform_plugin.Text.Defs.{Text, join, split_at, split}

-- The separator is not in the text.
abbrev pub IsFree : ℕ → Text → Type 0
IsFree sep = All (λ c. (c == sep) ≡ false)

reverse_shift : (c : ℕ) (part a : Text) → reverse (c ∷ part) ++ a ≡ reverse part ++ c ∷ a
reverse_shift c part a =
    ap (λ t. t ++ a) (reverse-append (c ∷ []) part) ∙ append_assoc (reverse part) (c ∷ []) a

split_at-last :
    (sep : ℕ) (part a : Text) → IsFree sep a → split_at sep part a ≡ (reverse part ++ a) ∷ []
unfolding split_at
split_at-last sep part [] h = rw append-nil
split_at-last sep part (c ∷ a) h =
    rw (h.0) (split_at-last sep (c ∷ part) a h.1 ∙ ap (λ t. t ∷ []) (reverse_shift c part a))

split_at-cut :
    (sep : ℕ) (part a s : Text)
    → IsFree sep a
    → split_at sep part (a ++ sep ∷ s) ≡ (reverse part ++ a) ∷ split_at sep [] s
unfolding split_at
split_at-cut sep part [] s h = rw (append-nil, (==_iff sep sep).1 refl)
split_at-cut sep part (c ∷ a) s h =
    rw (h.0) (
      split_at-cut sep (c ∷ part) a s h.1
      ∙ ap (λ t. t ∷ split_at sep [] s) (reverse_shift c part a))

-- Splitting at the separator gives back the parts that were joined with it.
pub split-join :
    (sep : ℕ) (a : Text) (rest : List Text)
    → All (IsFree sep) (a ∷ rest)
    → split sep (join sep (a ∷ rest)) ≡ a ∷ rest
unfolding split join
split-join sep a [] h = split_at-last sep [] a h.0
split-join sep a (b ∷ rest) h =
    split_at-cut sep [] a (join sep (b ∷ rest)) h.0 ∙ ap (◌∷◌ a) (split-join sep b rest h.1)
