-- ===== src/OnDemand/Fresh.antt =====
-- Which registered names are returned, and which are pruned.
use mathlib.Core.List.{Permᴰ}
use bifrost_platform_plugin.Prelude.{
  ◌≡◌, refl, ap, sym, ◌∙◌, Bool, true, not, ◌&&◌, List, [], ◌∷◌, Option, arith, Bool-cases, inl,
  inr, if◌then◌else◌,
}
use bifrost_platform_plugin.Text.{Text, Fields, text_eq, mem_text, get, insert_text, sort_text}
use bifrost_platform_plugin.Text.Laws.{text_eq→eq}
use bifrost_platform_plugin.Text.Sort.{
  insert_comm, mem_text-sort_text, IsSorted, sort_text-IsSorted,
}
use bifrost_platform_plugin.Float.{Float}
use bifrost_platform_plugin.Effects.{Exn, Outcome, returned, raised, ◌>>◌}
use bifrost_platform_plugin.Redis.{Redis}
use bifrost_platform_plugin.OnDemand.Keep.{
  heartbeat, is_fresh, Swept, sweep, or_empty, prune, list_members, list_fresh,
}

-- The normal forms of the members that are not blank.
abbrev pub names : (Text → Text) → List Text → List Text
names clean [] = []
names clean (raw ∷ members) =
    let rest = names clean members in if text_eq (clean raw) [] then rest else clean raw ∷ rest

module _ (read_float : Text → Option Float) (clean : Text → Text) (ts_map : Fields) where
  module _ (now max_age : Float) where
    abbrev beats : Text → Bool
    beats name = is_fresh now max_age (heartbeat read_float ts_map name)

    abbrev swept : List Text → Swept
    swept = sweep read_float clean ts_map now max_age

    beats_eq : (n x : Text) {b : Bool} → text_eq n x ≡ true → beats x ≡ b → beats n ≡ b
    beats_eq n x e h = ap beats (text_eq→eq n x e) ∙ h

    -- Each name of a member is fresh exactly if its heartbeat is, and stale exactly if not.
    pub sweep_exact :
        (n : Text) (members : List Text)
        → (mem_text n (swept members).fresh ≡ (mem_text n (names clean members) && beats n))
          × (mem_text n (swept members).stale ≡ (mem_text n (names clean members) && not (beats n)))
    unfolding sweep mem_text
    sweep_exact n [] = (refl, refl)
    sweep_exact n (raw ∷ members) = elim (Bool-cases (text_eq (clean raw) [])) [
      | inl blank ↦ rw blank (sweep_exact n members)
      | inr named ↦ elim (Bool-cases (beats (clean raw))) [
        | inl yes' ↦
            rw (named, yes')
              (ground (
                arith,
                sweep_exact n members,
                λ (e : text_eq n (clean raw) ≡ true). beats_eq n (clean raw) e yes',
              ))
        | inr no' ↦
            rw (named, no')
              (ground (
                arith,
                sweep_exact n members,
                λ (e : text_eq n (clean raw) ≡ true). beats_eq n (clean raw) e no',
              ))
      ]
    ]

    add_fresh : Text → List Text → List Text
    add_fresh raw l =
        if text_eq (clean raw) []
        then l
        else if beats (clean raw)
        then insert_text (clean raw) l
        else l

    sort_step :
        (raw : Text) (members : List Text)
        → sort_text (swept (raw ∷ members)).fresh ≡ add_fresh raw (sort_text (swept members).fresh)
    unfolding sweep add_fresh sort_text
    sort_step raw members = ground arith

    add_fresh_comm :
        (a b : Text) (l : List Text) → add_fresh a (add_fresh b l) ≡ add_fresh b (add_fresh a l)
    unfolding add_fresh
    add_fresh_comm a b l = ground (arith, insert_comm (clean a) (clean b) l)

    -- The sorted fresh names do not depend on the order in which Redis gives the members.
    pub sweep_unordered :
        {l m : List Text} → Permᴰ l m → sort_text (swept l).fresh ≡ sort_text (swept m).fresh
    sweep_unordered Permᴰ.nil = refl
    sweep_unordered (Permᴰ.cons {a} {b} {l₁} {l₂} e p) =
        sort_step a l₁
        ∙ ap (add_fresh a) (sweep_unordered p)
        ∙ ap (λ x. add_fresh x (sort_text (swept l₂).fresh)) e
        ∙ sym (sort_step b l₂)
    sweep_unordered (Permᴰ.swap {a} {b} {a'} {b'} {l} e f) =
        sort_step a (b ∷ l)
        ∙ ap (add_fresh a) (sort_step b l)
        ∙ add_fresh_comm a b (sort_text (swept l).fresh)
        ∙ ap (λ x. add_fresh x (add_fresh a (sort_text (swept l).fresh))) f
        ∙ ap (λ x. add_fresh a' (add_fresh x (sort_text (swept l).fresh))) e
        ∙ sym (sort_step a' (b' ∷ l) ∙ ap (add_fresh a') (sort_step b' l))
    sweep_unordered (Permᴰ.trans p q) = sweep_unordered p ∙ sweep_unordered q

-- With no heartbeat at all every name is stale.
sweep_no_beats :
    (read_float : Text → Option Float) (clean : Text → Text) (now max_age : Float)
    (members : List Text)
    → sweep read_float clean [] now max_age members
      ≡ record { fresh = []; stale = names clean members }
unfolding sweep heartbeat is_fresh get
sweep_no_beats read_float clean now max_age [] = refl
sweep_no_beats read_float clean now max_age (x ∷ xs) = elim (Bool-cases (text_eq (clean x) [])) [
  | inl blank ↦ rw blank (sweep_no_beats read_float clean now max_age xs)
  | inr named ↦ rw (named, sweep_no_beats read_float clean now max_age xs)
]

module _ {W : Type 0} (read_float : Text → Option Float) (clean : Text → Text) (rds : Redis W)
    (set_key ts_key : Text) (max_age now : Float) (w : W) where
  abbrev pub listed : Outcome (List Text) × W
  listed = list_fresh read_float clean rds set_key ts_key max_age now w

  prune_returned : (stale : List Text) (v : W) → (prune rds set_key ts_key stale v).0 ≡ returned tt
  unfolding prune
  prune_returned [] v = refl
  prune_returned (x ∷ stale) v = refl

  -- Where Redis gives the members and the heartbeats, the listing returns, whether or not the
  -- pruning then succeeds. The list is sorted, and a name is on it exactly if it is the normal
  -- form of a member, not blank, and its heartbeat is fresh.
  pub list_fresh_exact :
      (members : List Text) (ts_map : Fields) (w₁ w₂ : W)
      → rds.smembers set_key w ≡ (returned members, w₁)
      → rds.hgetall ts_key w₁ ≡ (returned ts_map, w₂)
      → (l : List Text) × (listed.0 ≡ returned l)
        × IsSorted l
        × ((n : Text)
            → mem_text n l ≡ (
                mem_text n (names clean members)
                && is_fresh now max_age (heartbeat read_float ts_map n)))
  unfolding list_fresh list_members or_empty
  list_fresh_exact [] ts_map w₁ w₂ m h = ([], rw m, tt, λ n. (unfold mem_text in refl))
  list_fresh_exact (x ∷ xs) ts_map w₁ w₂ m h =
      let found = sweep read_float clean ts_map now max_age (x ∷ xs) in
      (
        sort_text found.fresh,
        rw (m, h, prune_returned found.stale w₂),
        sort_text-IsSorted found.fresh,
        λ n.
            mem_text-sort_text n found.fresh
            ∙ (sweep_exact read_float clean ts_map now max_age n (x ∷ xs)).0,
      )

  -- Where Redis gives the members but refuses the heartbeats, nothing is fresh, and the names of
  -- all the members are removed from the set and the hash.
  pub heartbeat_outage_prunes :
      (members : List Text) (n : Text) (ns : List Text) (e : Exn) (w₁ w₂ : W)
      → names clean members ≡ n ∷ ns
      → rds.smembers set_key w ≡ (returned members, w₁)
      → rds.hgetall ts_key w₁ ≡ (raised e, w₂)
      → listed ≡ (returned [], ((rds.srem set_key (n ∷ ns) >> rds.hdel ts_key (n ∷ ns)) w₂).1)
  unfolding list_fresh list_members or_empty prune sort_text
  heartbeat_outage_prunes [] n ns e w₁ w₂ k m h = cc
  heartbeat_outage_prunes (x ∷ xs) n ns e w₁ w₂ k m h =
      rw (m, h, sweep_no_beats read_float clean now max_age (x ∷ xs), k, prune)

  -- The listing never raises, whatever Redis answers.
  pub list_fresh_returns : (l : List Text) × (listed.0 ≡ returned l)
  unfolding list_fresh
  list_fresh_returns = go (or_empty (rds.smembers set_key w).0)
    where
      go :
          (members : List Text)
          → (l : List Text) × ((list_members rds set_key ts_key read_float clean max_age now members
                (rds.smembers set_key w).1).0
              ≡ returned l)
      go [] = unfold list_members in ([], refl)
      go (m ∷ members) =
          unfold list_members in
          let v = rds.hgetall ts_key (rds.smembers set_key w).1 in
          let found = sweep read_float clean (or_empty v.0) now max_age (m ∷ members) in
          (sort_text found.fresh, rw (prune_returned found.stale v.1) refl)
