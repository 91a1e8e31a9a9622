-- ===== src/Skill/Parameters/Chosen.antt =====
-- Where the attributes of a goal come from.
use ss_prep.Base.{
  ◌≡◌, sym, subst, ◌∙◌, inl, inr, String, Bool, true, Option, none, some, List, [], ◌∷◌, ◌==◌,
  contains, Dict, lookup, insert, lookup-insert, eq_iff, Value, ℤ, Result, Result-cases, ok,
  then_do, arith, Bool-cases, if◌then◌else◌,
}
use ss_prep.Skill.Parameters.{
  Builtins, constant, resolve_required, resolve_optional, set_required, set_found, set_optional,
}

-- The value that a state uses for a key: the constructor's, else the one in the userdata.
unfoldable pub chosen : Dict Value → Dict Value → String → Option Value
unfolding constant
chosen fixed userdata key = elim (constant fixed key) [
  | some v ↦ some v
  | none ↦ lookup userdata key
]

module _ (py : Builtins) (fixed userdata : Dict Value) where
  -- What `float` makes of the value for a key; nothing without a value.
  unfoldable pub converted : String → Result (Option ℤ)
  unfolding chosen
  converted key = elim (chosen fixed userdata key) [
    | none ↦ ok none
    | some v ↦ then_do (py.float v) (λ x. ok (some x))
  ]

  resolve_optional-converted :
      (key : String) → resolve_optional py fixed userdata key ≡ converted key
  unfolding resolve_optional converted
  resolve_optional-converted key = ground arith

  resolve_required-converted :
      (key : String) (x : ℤ)
      → resolve_required py fixed userdata key ≡ ok x
      → converted key ≡ ok (some x)
  unfolding resolve_required converted
  resolve_required-converted key x h = ground arith

  lookup-set_found :
      (k key : String) (o : Option ℤ) (goal : Dict ℤ)
      → lookup (set_found k o goal) key ≡ (
          if k == key then elim o [ some x ↦ some x | none ↦ lookup goal key ] else lookup goal key)
  unfolding set_found
  lookup-set_found k key none goal = ground arith
  lookup-set_found k key (some x) goal = lookup-insert k key x goal

  -- A loop leaves in the attribute of each of its keys the chosen value, or what was there.
  abbrev pub FieldAfter : String → Bool → Option ℤ → Dict ℤ → Dict ℤ → Type 0
  FieldAfter key named found goal goal' =
      lookup goal' key
      ≡ (if named then elim found [ some x ↦ some x | none ↦ lookup goal key ] else lookup goal key)

  pub set_required-field :
      (keys : List String) (goal goal' : Dict ℤ) (key : String) (found : Option ℤ)
      → set_required py fixed userdata keys goal ≡ ok goal'
      → converted key ≡ ok found
      → FieldAfter key (contains keys key) found goal goal'
  unfolding set_required
  set_required-field [] goal goal' key found h e = ground arith
  set_required-field (k ∷ ks) goal goal' key found h e =
      elim (Result-cases (resolve_required py fixed userdata k)) [
        | inl (x, r) ↦
            let rest : set_required py fixed userdata ks (insert k x goal) ≡ ok goal' = rw r at h in
            let same : converted k ≡ ok (some x) = resolve_required-converted k x r in
            elim (Bool-cases (k == key)) [
              | inl p ↦ ground (
                arith,
                set_required-field ks (insert k x goal) goal' key found rest e,
                lookup-insert k key x goal,
                eq_iff k key,
              )
              | inr np ↦ ground (
                arith,
                set_required-field ks (insert k x goal) goal' key found rest e,
                lookup-insert k key x goal,
                eq_iff k key,
              )
            ]
        | inr (x, r) ↦ absurd (ground arith)
      ]

  pub set_optional-field :
      (keys : List String) (goal goal' : Dict ℤ) (key : String) (found : Option ℤ)
      → set_optional py fixed userdata keys goal ≡ ok goal'
      → converted key ≡ ok found
      → FieldAfter key (contains keys key) found goal goal'
  unfolding set_optional
  set_optional-field [] goal goal' key found h e = ground arith
  set_optional-field (k ∷ ks) goal goal' key found h e =
      elim (Result-cases (resolve_optional py fixed userdata k)) [
        | inl (o, r) ↦
            let rest : set_optional py fixed userdata ks (set_found k o goal) ≡ ok goal' =
              rw r at h in
            let same : converted k ≡ ok o = sym (resolve_optional-converted k) ∙ r in
            elim (Bool-cases (k == key)) [
              | inl p ↦ ground (
                arith,
                set_optional-field ks (set_found k o goal) goal' key found rest e,
                lookup-set_found k key o goal,
                eq_iff k key,
              )
              | inr np ↦ ground (
                arith,
                set_optional-field ks (set_found k o goal) goal' key found rest e,
                lookup-set_found k key o goal,
                eq_iff k key,
              )
            ]
        | inr (x, r) ↦ absurd (ground arith)
      ]

  -- A loop that ends has converted the value of each key, and the first loop has found one.
  pub set_required-converted :
      (keys : List String) (goal goal' : Dict ℤ) (key : String)
      → set_required py fixed userdata keys goal ≡ ok goal'
      → contains keys key ≡ true
      → (x : ℤ) × (converted key ≡ ok (some x))
  unfolding set_required
  set_required-converted [] goal goal' key h named = absurd (ground arith)
  set_required-converted (k ∷ ks) goal goal' key h named =
      elim (Result-cases (resolve_required py fixed userdata k)) [
        | inl (x, r) ↦
            let rest : set_required py fixed userdata ks (insert k x goal) ≡ ok goal' = rw r at h in
            elim (Bool-cases (k == key)) [
              | inl p ↦ (
                x,
                subst (λ j. converted j ≡ ok (some x)) ((eq_iff k key).0 p)
                    (resolve_required-converted k x r),
              )
              | inr np ↦ set_required-converted ks (insert k x goal) goal' key rest (ground arith)
            ]
        | inr (x, r) ↦ absurd (ground arith)
      ]

  pub set_optional-converted :
      (keys : List String) (goal goal' : Dict ℤ) (key : String)
      → set_optional py fixed userdata keys goal ≡ ok goal'
      → contains keys key ≡ true
      → (found : Option ℤ) × (converted key ≡ ok found)
  unfolding set_optional
  set_optional-converted [] goal goal' key h named = absurd (ground arith)
  set_optional-converted (k ∷ ks) goal goal' key h named =
      elim (Result-cases (resolve_optional py fixed userdata k)) [
        | inl (o, r) ↦
            let rest : set_optional py fixed userdata ks (set_found k o goal) ≡ ok goal' =
              rw r at h in
            elim (Bool-cases (k == key)) [
              | inl p ↦ (
                o,
                subst (λ j. converted j ≡ ok o) ((eq_iff k key).0 p)
                    (sym (resolve_optional-converted k) ∙ r),
              )
              | inr np ↦
                  set_optional-converted ks (set_found k o goal) goal' key rest (ground arith)
            ]
        | inr (x, r) ↦ absurd (ground arith)
      ]
