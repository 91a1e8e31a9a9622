-- ===== src/Engine/World/Cancel.antt =====
-- cancel.py: the cancel token, and the context variable that holds it.
use ss_prep.Base.{
  ℕ, suc, ◌≡◌, Bool, true, false, Option, none, some, is_some, arith, if◌then◌else◌, Dict, Value,
  ok, raise, Exc, cancelled_error, Action,
}

-- `threading.Event` is a flag.
pub record CancelToken : Type 0 where
  pub event : Bool

abbrev pub new_token : CancelToken
new_token = record { event = false }

unfoldable pub request : CancelToken → CancelToken
request t = record t { event = true }

unfoldable pub is_set : CancelToken → Bool
is_set t = t.event

pub reset : CancelToken → CancelToken
reset t = record t { event = false }

pub record Context : Type 0 where
  pub userdata : Dict Value
  pub token : Option CancelToken
  pub arrivals : ℕ → Bool
  pub looks : ℕ

unfoldable pub install_token : Option CancelToken → Context → Context
install_token t c = record c { token = t }

unfoldable pub current_token : Context → Option CancelToken
current_token c = c.token

-- What other threads requested since the last look. A context with no token does not look.
unfoldable pub arrive : Context → Context
unfolding request
arrive c = elim c.token [
  | none ↦ c
  | some t ↦ record c {
    token = some (if c.arrivals c.looks then request t else t);
    looks = suc c.looks;
  }
]

unfoldable pub token_is_set : Context → Bool
unfolding is_set
token_is_set c = elim c.token [ none ↦ false | some t ↦ is_set t ]

unfoldable pub is_cancellation_requested : Context → Bool × Context
unfolding arrive token_is_set
is_cancellation_requested c = let c' = arrive c in (token_is_set c', c')

unfoldable pub raise_if_cancelled : Action Context (Unit {0})
unfolding is_cancellation_requested
raise_if_cancelled c =
    let (requested, c') = is_cancellation_requested c in
    (if requested then raise cancelled_error else ok tt, c')

-- A token that is set stays set, and stops whoever looks.
pub raise_if_cancelled_set :
    (c : Context) → token_is_set c ≡ true → (raise_if_cancelled c).0 ≡ raise cancelled_error
unfolding raise_if_cancelled
raise_if_cancelled_set c h = ground arith

pub raise_if_cancelled_userdata : (c : Context) → (raise_if_cancelled c).1.userdata ≡ c.userdata
unfolding raise_if_cancelled
raise_if_cancelled_userdata c = ground arith

-- With no token in the context nothing is ever raised and nothing changes.
pub raise_if_cancelled_no_token : (c : Context) → c.token ≡ none → raise_if_cancelled c ≡ (ok tt, c)
unfolding raise_if_cancelled
raise_if_cancelled_no_token c h = ground arith

-- A look raises `CancelledError` or nothing.
pub raise_if_cancelled_error :
    (c : Context) (e : Exc) → (raise_if_cancelled c).0 ≡ raise e → e ≡ cancelled_error
unfolding raise_if_cancelled
raise_if_cancelled_error c e h = ground arith

-- With a token, a look counts as one, and sees a request that has arrived.
pub raise_if_cancelled_looks :
    (c : Context)
    → is_some c.token ≡ true
    → let c' = (raise_if_cancelled c).1 in
      (is_some c'.token ≡ true) × (c'.looks ≡ suc c.looks) × (c'.arrivals ≡ c.arrivals)
unfolding raise_if_cancelled
raise_if_cancelled_looks c held = ground arith

pub raise_if_cancelled_arriving :
    (c : Context)
    → is_some c.token ≡ true
    → c.arrivals c.looks ≡ true
    → (raise_if_cancelled c).0 ≡ raise cancelled_error
unfolding raise_if_cancelled
raise_if_cancelled_arriving c held arrives = ground arith
