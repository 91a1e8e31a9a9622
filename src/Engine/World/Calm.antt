-- ===== src/Engine/World/Calm.antt =====
-- A context that nobody cancels, and what looks at its token leave of it.
use ss_prep.Base.{
  ℕ, suc, ◌≡◌, refl, ◌∙◌, ap, sym, is_some, true, false, none, some, Option-cases, inl, inr, arith,
  Dict, Value, ok,
}
use ss_prep.Engine.World.Cancel.{
  Context, token_is_set, raise_if_cancelled, is_set, raise_if_cancelled_no_token,
}

-- The token, if there is one, is not set, and no thread sets it.
pub record IsCalm (c : Context) : Type 0 where
  pub not_set : token_is_set c ≡ false
  pub no_request : is_some c.token ≡ true → (n : ℕ) → c.arrivals n ≡ false

-- The same context some looks later; with no token in it nothing has changed.
pub record IsLater (c c' : Context) : Type 0 where
  pub same_userdata : c'.userdata ≡ c.userdata
  pub same_token : c'.token ≡ c.token
  pub same_arrivals : c'.arrivals ≡ c.arrivals
  pub unlooked : c.token ≡ none → c' ≡ c

pub no_look-IsLater : (c : Context) → IsLater c c
no_look-IsLater c = record {
  same_userdata = refl;
  same_token = refl;
  same_arrivals = refl;
  unlooked = λ h. refl;
}

pub IsLater-trans : (c c' c'' : Context) → IsLater c c' → IsLater c' c'' → IsLater c c''
IsLater-trans c c' c'' h h' = record {
  same_userdata = h'.same_userdata ∙ h.same_userdata;
  same_token = h'.same_token ∙ h.same_token;
  same_arrivals = h'.same_arrivals ∙ h.same_arrivals;
  unlooked = λ free. h'.unlooked (h.same_token ∙ free) ∙ h.unlooked free;
}

-- Writing to the userdata comes to the same before and after the looks.
pub IsLater-userdata :
    (c c' : Context) (f : Dict Value → Dict Value)
    → IsLater c c'
    → IsLater (record c { userdata = f c.userdata }) (record c' { userdata = f c'.userdata })
IsLater-userdata c c' f h = record {
  same_userdata = ap f h.same_userdata;
  same_token = h.same_token;
  same_arrivals = h.same_arrivals;
  unlooked = λ free. ap (λ (x : Context). record x { userdata = f x.userdata }) (h.unlooked free);
}

pub IsLater-IsCalm : (c c' : Context) → IsLater c c' → IsCalm c → IsCalm c'
unfolding token_is_set
IsLater-IsCalm c c' h calm = record {
  not_set = ap (elim [ none ↦ false | some t ↦ is_set t ]) h.same_token ∙ calm.not_set;
  no_request = λ held n.
      ap (λ a. a n) h.same_arrivals ∙ calm.no_request (ap is_some (sym h.same_token) ∙ held) n;
}

-- No cancel is on its way where no token is.
pub no_token-IsCalm : (c : Context) → c.token ≡ none → IsCalm c
unfolding token_is_set
no_token-IsCalm c free = record {
  not_set = rw (free) refl;
  no_request = λ held n. absurd (ground (arith, held, free));
}

pub raise_if_cancelled_calm :
    (c : Context) → IsCalm c → (c' : Context) × IsLater c c' × (raise_if_cancelled c ≡ (ok tt, c'))
unfolding raise_if_cancelled token_is_set
raise_if_cancelled_calm c calm = elim (Option-cases c.token) [
  | inl free ↦ (c, no_look-IsLater c, raise_if_cancelled_no_token c free)
  | inr (t, held) ↦ (
    record c { looks = suc c.looks },
    record {
      same_userdata = refl;
      same_token = refl;
      same_arrivals = refl;
      unlooked = λ free. absurd (ground (arith, held, free));
    },
    ground (arith, held, calm.not_set, calm.no_request (ap is_some held) c.looks),
  )
]
