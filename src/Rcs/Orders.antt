-- ===== src/Rcs/Orders.antt =====
-- What a request changes, and which goal a cancel request reaches.
use ss_prep.Base.{
  ℕ, ◌≡◌, refl, ◌∙◌, inl, inr, String, Bool, true, false, Bool-cases, Option, none, some,
  Option-cases, List, [], ◌∷◌, ◌==◌, arith, if◌then◌else◌, eqb, length, Dict, lookup, insert,
  lookup-insert, eq_refl, Value, Result, ok, raise, Result-cases, Exc, then_do,
}
use ss_prep.Rcs.Schema.{OrderRequest, order_from_dict, cancel_from_dict}
use ss_prep.Rcs.Bridge.{
  SentGoal, Bridge, Outside, chosen_id, encode, register_order, submit_order, cancel_handle,
  cancel_order,
}
use ss_prep.Rcs.Server.{
  Response, order_response, cancel_response, is_caught, refuse, post_order, post_cancel, do_post,
}

-- Orders that come one after another.
unfoldable pub submit_all : Outside → List OrderRequest → Bridge → Bridge
submit_all o [] b = b
submit_all o (r ∷ rs) b = submit_all o rs (submit_order o r b).1

-- None of the orders is submitted under the id.
abbrev pub AllOther : Outside → String → List OrderRequest → Type 0
AllOther o id [] = Unit
AllOther o id (r ∷ rs) = ((chosen_id o r == id) ≡ false) × AllOther o id rs

submit_order-pending :
    (o : Outside) (r : OrderRequest) (b : Bridge) (id : String)
    → (chosen_id o r == id) ≡ false
    → lookup (submit_order o r b).1.pending id ≡ lookup b.pending id
unfolding submit_order register_order
submit_order-pending o r b id other = elim (Bool-cases o.server_up) [
  | inr down ↦ rw (down, submit_order) refl
  | inl up ↦ elim (Result-cases (encode o r)) [
    | inr (e, error) ↦ rw (up, submit_order) (rw (error) refl)
    | inl (goal, encoded) ↦
        rw (up, submit_order)
          (rw (encoded)
            (ground (arith, lookup-insert (chosen_id o r) id (length b.sent) b.pending, other)))
  ]
]

submit_all-pending :
    (o : Outside) (rs : List OrderRequest) (b : Bridge) (id : String)
    → AllOther o id rs
    → lookup (submit_all o rs b).pending id ≡ lookup b.pending id
unfolding submit_all
submit_all-pending o [] b id others = refl
submit_all-pending o (r ∷ rs) b id (other, others) =
    submit_all-pending o rs (submit_order o r b).1 id others ∙ submit_order-pending o r b id other

pub submit_order_sent :
    (o : Outside) (r : OrderRequest) (goal : SentGoal) (b : Bridge)
    → o.server_up ≡ true
    → encode o r ≡ ok goal
    → submit_order o r b ≡ (
      ok (record { accepted = true; order_id = chosen_id o r; message = "dispatched" }),
      register_order o r goal b,
    )
unfolding submit_order
submit_order_sent o r goal b up encoded = rw (encoded, submit_order) (rw (up) refl)

lookup-with_itself : (k : String) (v : ℕ) (d : Dict ℕ) → lookup (insert k v d) k ≡ some v
lookup-with_itself k v d = ground (arith, lookup-insert k k v d, eq_refl k)

cancel_order_found :
    (o : Outside) (id : String) (b : Bridge) (future : ℕ)
    → lookup b.pending id ≡ some future
    → o.handle future ≡ ok (some true)
    → cancel_order o id b ≡ (
      ok (record { accepted = true; message = "cancel requested" }),
      record b { cancels = future ∷ b.cancels },
    )
unfolding cancel_order
cancel_order_found o id b future found accepted = rw (found, cancel_order) (rw (accepted) refl)

-- An order that is submitted is answered with the id under which it can be cancelled: after any later
-- orders under other ids, a cancel request with that id reaches the handle of this order's goal,
-- once the handle is accepted.
pub cancel_order-submit_order :
    (o : Outside) (r : OrderRequest) (goal : SentGoal) (later : List OrderRequest) (b : Bridge)
    → o.server_up ≡ true
    → encode o r ≡ ok goal
    → AllOther o (chosen_id o r) later
    → o.handle (length b.sent) ≡ ok (some true)
    → let b' = submit_all o later (submit_order o r b).1 in
      ((submit_order o r b).0
        ≡ ok (record { accepted = true; order_id = chosen_id o r; message = "dispatched" }))
      × ((submit_order o r b).1.sent ≡ goal ∷ b.sent)
      × (cancel_order o (chosen_id o r) b' ≡ (
        ok (record { accepted = true; message = "cancel requested" }),
        record b' { cancels = length b.sent ∷ b'.cancels },
      ))
unfolding register_order
cancel_order-submit_order o r goal later b up encoded others accepted =
    let found =
      submit_all-pending o later (register_order o r goal b) (chosen_id o r) others
      ∙ lookup-with_itself (chosen_id o r) (length b.sent) b.pending in
    rw (submit_order_sent o r goal b up encoded) (
      refl,
      refl,
      cancel_order_found o (chosen_id o r) (submit_all o later (register_order o r goal b))
          (length b.sent) found accepted,
    )

-- What a request to the bridge has changed: nothing, or it has sent one goal, or asked one handle to
-- cancel.
pub data Change (b : Bridge) : Bridge → ℕ → Type 0 where
  nothing : (code : ℕ) → eqb code 200 ≡ false → Change b b code
  one_goal :
      (b' : Bridge) (goal : SentGoal)
      → b'.sent ≡ goal ∷ b.sent
      → b'.cancels ≡ b.cancels
      → Change b b' 200
  one_cancel :
      (b' : Bridge) (future : ℕ)
      → b'.cancels ≡ future ∷ b.cancels
      → b'.sent ≡ b.sent
      → Change b b' 200

-- The same for the result of a handler, which may raise.
abbrev pub Changed : Bridge → Result Response → Bridge → Type 0
Changed b (ok response) b' = Change b b' response.code
Changed b (raise e) b' = b' ≡ b

refuse-Changed : (e : Exc) (b : Bridge) → Changed b (refuse e b).0 (refuse e b).1
unfolding refuse
refuse-Changed e b = elim (Bool-cases (is_caught e)) [
  | inl caught ↦ rw (caught, refuse) (nothing 400 refl)
  | inr other ↦ rw (other, refuse) refl
]

post_order-Changed :
    (o : Outside) (body : Value) (b : Bridge)
    → Changed b (post_order o body b).0 (post_order o body b).1
unfolding post_order submit_order register_order order_response
post_order-Changed o body b = elim (Result-cases (order_from_dict o.conversions body)) [
  | inr (e, error) ↦ rw (error, post_order) (refuse-Changed e b)
  | inl (r, parsed) ↦
      rw (parsed, post_order)
        (elim (Bool-cases o.server_up) [
          | inr down ↦ rw (down, submit_order) (nothing 500 refl)
          | inl up ↦ elim (Result-cases (encode o r)) [
            | inr (e, error) ↦ rw (up, submit_order) (rw (error) refl)
            | inl (goal, encoded) ↦
                rw (submit_order_sent o r goal b up encoded)
                  (one_goal (register_order o r goal b) goal refl refl)
          ]
        ])
]

cancel_handle-Changed :
    (future : ℕ) (handle : Result (Option Bool)) (b : Bridge)
    → Changed b
        (then_do (cancel_handle future handle b).0 (λ a. ok (cancel_response a)))
        (cancel_handle future handle b).1
unfolding cancel_handle cancel_response
cancel_handle-Changed future (raise e) b = refl
cancel_handle-Changed future (ok none) b = nothing 404 refl
cancel_handle-Changed future (ok (some false)) b = nothing 404 refl
cancel_handle-Changed future (ok (some true)) b =
    one_cancel (record b { cancels = future ∷ b.cancels }) future refl refl

post_cancel-Changed :
    (o : Outside) (body : Value) (b : Bridge)
    → Changed b (post_cancel o body b).0 (post_cancel o body b).1
unfolding post_cancel cancel_order cancel_response
post_cancel-Changed o body b = elim (Result-cases (cancel_from_dict o.conversions body)) [
  | inr (e, error) ↦ rw (error, post_cancel) (refuse-Changed e b)
  | inl (id, parsed) ↦
      rw (parsed, post_cancel)
        (elim (Option-cases (lookup b.pending id)) [
          | inl unknown ↦ rw (unknown, cancel_order) (nothing 404 refl)
          | inr (future, found) ↦
              rw (found, cancel_order) (cancel_handle-Changed future (o.handle future) b)
        ])
]

-- Every POST request, whatever its path and its text, is answered 200 after one goal was sent or one
-- handle was asked to cancel; or its answer has another code and it has changed nothing; or its
-- handler raises, and it has changed nothing.
pub do_post-Changed :
    (o : Outside) (path text : String) (b : Bridge)
    → Changed b (do_post o path text b).0 (do_post o path text b).1
unfolding do_post
do_post-Changed o path text b = elim (Option-cases (o.loads (if text == "" then "{}" else text))) [
  | inl invalid ↦ rw (invalid, do_post) (nothing 400 refl)
  | inr (body, parsed) ↦
      rw (parsed, do_post)
        (elim (Bool-cases (path == "/order")) [
          | inl order ↦ rw (order) (post_order-Changed o body b)
          | inr other ↦ elim (Bool-cases (path == "/cancel")) [
            | inl cancel ↦ rw (other) (rw (cancel) (post_cancel-Changed o body b))
            | inr neither ↦ rw (other) (rw (neither) (nothing 404 refl))
          ]
        ])
]
