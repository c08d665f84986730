-- ===== src/Writer/Laws.antt =====
-- Laws of the writer: the hash of a component's health, writes to hashes, snapshot versions.
use bifrost_platform_plugin.Prelude.{
  ◌≡◌, refl, ap, sym, ◌∙◌, true, false, List, [], ◌∷◌, Option, none, some, arith, Bool-cases, inl,
  inr, map, if◌then◌else◌,
}
use bifrost_platform_plugin.Text.{Text, txt, text_eq, get, mem_text}
use bifrost_platform_plugin.Text.Laws.{IsDistinct, text_eq→eq, text_eq_sym}
use bifrost_platform_plugin.Float.{Float}
use bifrost_platform_plugin.Effects.{Exn, Outcome, returned, raised, Env}
use bifrost_platform_plugin.Json.{Json, number, string, Dict, put, merge, Python}
use bifrost_platform_plugin.Redis.{Redis}
use bifrost_platform_plugin.Writer.{
  Writer, mapping_of, health_fields, is_wrong_type, recover_hash, write_hash,
}

differs : (k i j : Text) → text_eq j i ≡ false → text_eq k i ≡ true → text_eq k j ≡ false
differs k i j ne e =
    let same : text_eq k j ≡ text_eq j i =
      ap (λ x. text_eq x j) (text_eq→eq k i e) ∙ text_eq_sym i j in
    same ∙ ne

pub get-put :
    (k j : Text) (v : Json) (d : Dict)
    → get k (put j v d) ≡ (if text_eq k j then some v else get k d)
unfolding get put
get-put k j v [] = refl
get-put k j v ((i, u) ∷ d) = elim (Bool-cases (text_eq j i)) [
  | inl same ↦ rw (same, sym (text_eq→eq j i same)) ground arith
  | inr other ↦ rw (other, get-put k j v d) (ground (arith, differs k i j other))
]

-- The first value, or else the second.
abbrev first_of : Option Json → Option Json → Option Json
first_of (some v) b = some v
first_of none b = b

abbrev keys : Dict → List Text
keys d = map (λ f. f.0) d

get-absent : (k : Text) (d : Dict) → mem_text k (keys d) ≡ false → get k d ≡ none
unfolding get mem_text
get-absent k [] h = refl
get-absent k ((j, v) ∷ d) h = ground (arith, get-absent k d)

get-merge :
    (k : Text) (d e : Dict) → IsDistinct (keys e) → get k (merge d e) ≡ first_of (get k e) (get k d)
unfolding get merge
get-merge k d [] h = refl
get-merge k d ((j, v) ∷ e) h = elim (Bool-cases (text_eq k j)) [
  | inl same ↦
      let gone : get k e ≡ none =
        get-absent k e (ap (λ x. mem_text x (keys e)) (text_eq→eq k j same) ∙ h.0) in
      get-merge k (put j v d) e h.1 ∙ rw (same, gone, get-put k j v d, same) refl
  | inr other ↦ get-merge k (put j v d) e h.1 ∙ rw (other, get-put k j v d, other) refl
]

pub get-merge_absent : (k : Text) (d e : Dict) → get k e ≡ none → get k (merge d e) ≡ get k d
unfolding get merge
get-merge_absent k d [] h = refl
get-merge_absent k d ((j, v) ∷ e) h = elim (Bool-cases (text_eq k j)) [
  | inl same ↦ let found : ◌≡◌ {A = Option Json} (some v) none = rw same at h in cc
  | inr other ↦ get-merge_absent k (put j v d) e (rw other at h) ∙ get-put k j v d ∙ rw other refl
]

-- The base of every health hash.
abbrev base_fields : Writer → Dict
base_fields wr = (txt "env", string wr.env) ∷ (txt "plugin", string (txt "ib-gateway")) ∷ []

-- A look-up in a component's health, for fields whose keys are distinct: `updated_at` is the time
-- of the write and `git_sha` the image's, whatever the caller passes; any other key is the
-- caller's, and `env` and `plugin` the writer's where the caller passes none.
health_fields-get :
    (wr : Writer) (now : Float) (fields : Dict) (k : Text)
    → IsDistinct (map (λ f. f.0) fields)
    → get k (health_fields wr now fields) ≡ (
        if text_eq k (txt "updated_at")
        then some (number now)
        else if text_eq k (txt "git_sha")
        then some (string wr.git_sha)
        else first_of (get k fields) (get k (base_fields wr)))
unfolding health_fields
health_fields-get wr now fields k distinct =
    let sha = put (txt "git_sha") (string wr.git_sha) (merge (base_fields wr) fields) in
    get-put k (txt "updated_at") (number now) sha
    ∙ rw
        (
          get-put k (txt "git_sha") (string wr.git_sha) (merge (base_fields wr) fields),
          get-merge k (base_fields wr) fields distinct,
        )
        refl

module _ {W : Type 0} (rds : Redis W) (py : Python) (env : Env W) where
  -- A write of a hash raises only after a first HSET that failed because the key holds another
  -- type: every other failure of Redis is swallowed.
  pub write_hash_raises :
      (key : Text) (fields : Dict) (w : W) (e : Exn)
      → (write_hash rds py env key fields w).0 ≡ raised e
      → (first : Exn) × ((rds.hset key (mapping_of py fields) w).0 ≡ raised first)
        × (is_wrong_type first ≡ true)
  unfolding write_hash recover_hash
  write_hash_raises key fields w e h = go (rds.hset key (mapping_of py fields) w).0 refl
    where
      go :
          (r : Outcome (Unit {0}))
          → (rds.hset key (mapping_of py fields) w).0 ≡ r
          → (first : Exn) × ((rds.hset key (mapping_of py fields) w).0 ≡ raised first)
            × (is_wrong_type first ≡ true)
      go (returned u) is =
          let calm : (write_hash rds py env key fields w).0 ≡ returned tt = rw is refl in cc
      go (raised first) is = elim (Bool-cases (is_wrong_type first)) [
        | inl wrong ↦ (first, is, wrong)
        | inr right ↦
            let calm : (write_hash rds py env key fields w).0 ≡ returned tt = rw (is, right) refl in
            cc
      ]
