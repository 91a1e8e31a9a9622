-- ===== src/Rcs/Server.antt =====
-- mw_rcs_bridge/mw_rcs_bridge/rcs_bridge_node.py: the handlers of the HTTP server.
use ss_prep.Base.{
  ℕ, String, Bool, true, false, none, some, ◌==◌, if◌then◌else◌, Value, ok, raise, then_do, Exc,
  type_error, value_error, Action,
}
use ss_prep.Rcs.Schema.{
  OrderResponse, CancelResponse, StateSnapshot, order_from_dict, cancel_from_dict,
}
use ss_prep.Rcs.Bridge.{Bridge, Outside, submit_order, cancel_order, snapshot}

-- What the server answers: a status code, and a body unless the answer is `send_error`.
pub data Body : Type 0 where
  order_body : OrderResponse → Body
  cancel_body : CancelResponse → Body
  state_body : StateSnapshot → Body
  refused_body no_body : Body

pub record Response : Type 0 where
  pub code : ℕ
  pub body : Body

unfoldable pub do_get : Outside → String → Bridge → Response
unfolding snapshot
do_get o path b =
    if path == "/state"
    then record { code = 200; body = state_body (snapshot o b) }
    else record { code = 404; body = no_body }

abbrev pub bad_request : Response
bad_request = record { code = 400; body = refused_body }

-- `except (TypeError, ValueError)`.
unfoldable pub is_caught : Exc → Bool
is_caught type_error = true
is_caught value_error = true
is_caught e = false

-- The answer to what `from_dict` raises.
unfoldable pub refuse : Exc → Action Bridge Response
unfolding is_caught
refuse e b = if is_caught e then (ok bad_request, b) else (raise e, b)

unfoldable pub order_response : OrderResponse → Response
order_response r = record { code = if r.accepted then 200 else 500; body = order_body r }

unfoldable pub cancel_response : CancelResponse → Response
cancel_response r = record { code = if r.accepted then 200 else 404; body = cancel_body r }

unfoldable pub post_order : Outside → Value → Action Bridge Response
unfolding order_from_dict submit_order order_response refuse
post_order o body b = elim (order_from_dict o.conversions body) [
  | raise e ↦ refuse e b
  | ok r ↦
      let (answer, b') = submit_order o r b in (then_do answer (λ a. ok (order_response a)), b')
]

unfoldable pub post_cancel : Outside → Value → Action Bridge Response
unfolding cancel_from_dict cancel_order cancel_response refuse
post_cancel o body b = elim (cancel_from_dict o.conversions body) [
  | raise e ↦ refuse e b
  | ok id ↦
      let (answer, b') = cancel_order o id b in (then_do answer (λ a. ok (cancel_response a)), b')
]

unfoldable pub do_post : Outside → String → String → Action Bridge Response
unfolding post_order post_cancel
do_post o path text b = elim (o.loads (if text == "" then "{}" else text)) [
  | none ↦ (ok bad_request, b)
  | some body ↦
      if path == "/order"
      then post_order o body b
      else if path == "/cancel"
      then post_cancel o body b
      else (ok (record { code = 404; body = no_body }), b)
]
