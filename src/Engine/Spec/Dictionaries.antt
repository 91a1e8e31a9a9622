-- ===== src/Engine/Spec/Dictionaries.antt =====
-- Dictionaries that are written to a spec and read back.
use ss_prep.Base.{
  String, ◌≡◌, refl, true, false, some, List, [], ◌∷◌, ◌++◌, arith, eq_iff, eq_refl, is_empty, Dict,
  IsDict, lookup, insert, has_key, list, dict, truthy,
}
use ss_prep.Engine.Spec.Readers.{
  built, at, given, if_truthy, texts, mapping, read_texts, read_mapping, read_route,
}
use ss_prep.Engine.Spec.Write.{items_of, mapping_of, transitions_of}

pub texts-items_of : (ss : List String) → texts (items_of ss) ≡ built ss
unfolding texts items_of
texts-items_of [] = refl
texts-items_of (s ∷ ss) = rw (texts-items_of ss) refl

pub mapping-mapping_of : (d : Dict String) → mapping (mapping_of d) ≡ built d
unfolding mapping mapping_of
mapping-mapping_of [] = refl
mapping-mapping_of ((k, s) ∷ d) = rw (mapping-mapping_of d) refl

-- A list that is empty is read as the default.
pub read_texts-items_of :
    (default ss : List String)
    → is_empty ss ≡ false
    → read_texts default (if_truthy (list (items_of ss))) ≡ built ss
unfolding read_texts items_of truthy
read_texts-items_of default [] h = cc
read_texts-items_of default (s ∷ ss) h = texts-items_of (s ∷ ss)

-- With no default to take, every list is read back.
pub read_texts-nil : (ss : List String) → read_texts [] (if_truthy (list (items_of ss))) ≡ built ss
unfolding read_texts items_of truthy
read_texts-nil [] = refl
read_texts-nil (s ∷ ss) = texts-items_of (s ∷ ss)

pub read_mapping-mapping_of :
    (d : Dict String) → read_mapping (if_truthy (dict (mapping_of d))) ≡ built d
unfolding read_mapping mapping_of truthy
read_mapping-mapping_of [] = refl
read_mapping-mapping_of ((k, s) ∷ d) = mapping-mapping_of ((k, s) ∷ d)

at-transitions_of :
    (ts : Dict (Dict String)) (name : String) (t : Dict String)
    → lookup ts name ≡ some t
    → at (transitions_of ts) name ≡ some (dict (mapping_of t))
unfolding at transitions_of lookup
at-transitions_of [] name t h = cc
at-transitions_of ((k, u) ∷ ts) name t h = ground (arith, at-transitions_of ts name t)

pub read_route-transitions_of :
    (ts : Dict (Dict String)) (name : String) (t : Dict String)
    → lookup ts name ≡ some t
    → read_route (if_truthy (dict (transitions_of ts))) name ≡ built t
unfolding read_route transitions_of truthy lookup given
read_route-transitions_of [] name t h = cc
read_route-transitions_of ((k, u) ∷ ts) name t h =
    rw (at-transitions_of ((k, u) ∷ ts) name t h, given) (read_mapping-mapping_of t)

module _ {V : Type 0} where
  pub insert-new :
      (d : Dict V) (k : String) (v : V) → has_key d k ≡ false → insert k v d ≡ d ++ (k, v) ∷ []
  unfolding insert lookup
  insert-new [] k v h = refl
  insert-new ((j, w) ∷ d) k v h = ground (arith, insert-new d k v)

  has_key-middle :
      (d : Dict V) (k : String) (v : V) (e : Dict V) → has_key (d ++ (k, v) ∷ e) k ≡ true
  unfolding lookup
  has_key-middle [] k v e = ground (arith, eq_refl k)
  has_key-middle ((j, w) ∷ d) k v e = ground (arith, has_key-middle d k v e)

  -- The key between two parts of a dictionary is in neither.
  pub has_key-before :
      (d : Dict V) (k : String) (v : V) (e : Dict V)
      → IsDict (d ++ (k, v) ∷ e)
      → has_key d k ≡ false
  unfolding lookup
  has_key-before [] k v e h = refl
  has_key-before ((j, w) ∷ d) k v e h =
      ground (arith, h.0, has_key-before d k v e h.1, has_key-middle d k v e, eq_iff j k)

  -- Every entry of a dictionary is found.
  abbrev pub AllFound : Dict V → Dict V → Type 0
  AllFound d [] = Unit
  AllFound d ((k, v) ∷ e) = (lookup d k ≡ some v) × AllFound d e

  AllFound-cons :
      (d e : Dict V) (k : String) (v : V)
      → has_key e k ≡ false
      → AllFound d e
      → AllFound ((k, v) ∷ d) e
  unfolding lookup
  AllFound-cons d [] k v fresh h = tt
  AllFound-cons d ((j, w) ∷ e) k v fresh h = (
    ground (arith, h.0, eq_iff k j, eq_iff j k),
    AllFound-cons d e k v (ground (arith, eq_iff j k)) h.1,
  )

  pub AllFound-self : (d : Dict V) → IsDict d → AllFound d d
  unfolding lookup
  AllFound-self [] h = tt
  AllFound-self ((k, v) ∷ d) h =
      (ground (arith, eq_refl k), AllFound-cons d d k v h.0 (AllFound-self d h.1))
