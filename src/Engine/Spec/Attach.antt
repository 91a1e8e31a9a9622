-- ===== src/Engine/Spec/Attach.antt =====
-- The loops of the loader, over children and regions that have been built.
use mathlib.Core.List.{append-nil, append_assoc}
use ss_prep.Base.{
  String, ◌≡◌, refl, ◌∙◌, Bool, false, some, [], ◌∷◌, ◌++◌, arith, Dict, IsDict, lookup, has_key,
  dict, ok,
}
use ss_prep.Engine.Registry.{Class}
use ss_prep.Engine.Machine.{Machine, instance_of, add}
use ss_prep.Engine.Parallel.{Region}
use ss_prep.Engine.Tree.{State}
use ss_prep.Engine.Spec.Readers.{Loaded, built, if_truthy}
use ss_prep.Engine.Spec.Write.{transitions_of}
use ss_prep.Engine.Spec.Build.{attach_children, collect_regions}
use ss_prep.Engine.Spec.Dictionaries.{
  insert-new, has_key-before, AllFound, read_route-transitions_of,
}

-- Two dictionaries with the same keys in the same order.
abbrev pub SameKeys {ℓ κ} : {A : Type ℓ} {B : Type κ} → Dict A → Dict B → Type 0
SameKeys [] [] = Unit
SameKeys [] (y ∷ ys) = ⊥
SameKeys (x ∷ xs) [] = ⊥
SameKeys ((j, a) ∷ xs) ((k, b) ∷ ys) = (j ≡ k) × SameKeys xs ys

-- What the loader finds for each entry.
unfoldable pub results : {A : Type 0} → Dict A → Dict (Loaded A)
results [] = []
results ((k, a) ∷ d) = (k, built a) ∷ results d

module _ (classes : Dict (Class State)) (with_node : Bool) where
  add_new :
      (name : String) (c : State) (t : Dict String) (m : Machine State) (i : String)
      → m.initial ≡ some i
      → has_key m.children name ≡ false
      → has_key m.transitions name ≡ false
      → add classes name (instance_of c) (some t) m
        ≡ ok (record m {
          children = m.children ++ (name, c) ∷ [];
          transitions = m.transitions ++ (name, t) ∷ [];
        })
  unfolding add
  add_new name c t m i starts fresh free =
      ground (arith, insert-new m.children name c fresh, insert-new m.transitions name t free)

  -- Children with new names are attached in their order, each with its transitions.
  pub attach_children-results :
      (ts : Dict (Dict String)) (ds : Dict State) (routes : Dict (Dict String)) (m : Machine State)
      (i : String)
      → m.initial ≡ some i
      → SameKeys ds routes
      → AllFound ts routes
      → IsDict (m.children ++ ds)
      → IsDict (m.transitions ++ routes)
      → attach_children classes with_node (if_truthy (dict (transitions_of ts))) (results ds) m
        ≡ built (record m { children = m.children ++ ds; transitions = m.transitions ++ routes })
  unfolding attach_children results
  attach_children-results ts [] [] m i starts same found names routed =
      rw (append-nil m.children, append-nil m.transitions) refl
  attach_children-results ts [] (r ∷ routes) m i starts same found names routed = absurd same
  attach_children-results ts (d ∷ ds) [] m i starts same found names routed = absurd same
  attach_children-results ts ((name, c) ∷ ds) ((k, t) ∷ routes) m i starts same found names routed =
      let known : lookup ts name ≡ some t = rw same.0 found.0 in
      let routed' : IsDict (m.transitions ++ (name, t) ∷ routes) = rw same.0 routed in
      let m' = record m {
        children = m.children ++ (name, c) ∷ [];
        transitions = m.transitions ++ (name, t) ∷ [];
      } in
      let added =
        add_new name c t m i starts (has_key-before m.children name c ds names)
          (has_key-before m.transitions name t routes routed') in
      let rest =
        attach_children-results ts ds routes m' i starts same.1 found.1
          (rw (append_assoc m.children ((name, c) ∷ []) ds) names)
          (rw (append_assoc m.transitions ((name, t) ∷ []) routes) routed') in
      rw (← same.0) (
        rw (read_route-transitions_of ts name t known) (
          rw added (
            rest
            ∙ rw
                (
                  append_assoc m.children ((name, c) ∷ []) ds,
                  append_assoc m.transitions ((name, t) ∷ []) routes,
                )
                refl)))

-- Regions with new names are collected in their order.
pub collect_regions-results :
    (rs acc : Dict (Region State))
    → IsDict (acc ++ rs)
    → collect_regions (results rs) acc ≡ built (acc ++ rs)
unfolding collect_regions results
collect_regions-results [] acc h = rw (append-nil acc) refl
collect_regions-results ((name, r) ∷ rs) acc h =
    rw (insert-new acc name r (has_key-before acc name r rs h)) (
      collect_regions-results rs (acc ++ (name, r) ∷ [])
        (rw (append_assoc acc ((name, r) ∷ []) rs) h)
      ∙ rw (append_assoc acc ((name, r) ∷ []) rs) refl)
