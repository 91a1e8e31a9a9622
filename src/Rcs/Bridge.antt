-- ===== src/Rcs/Bridge.antt =====
-- mw_rcs_bridge/mw_rcs_bridge/rcs_bridge_node.py: the node. The futures of sent goals are numbered in
-- the order of sending. JSON, uuid and rclpy are parameters.
use ss_prep.Base.{
  ℕ, String, Bool, true, false, Option, none, some, List, ◌∷◌, ◌==◌, if◌then◌else◌, length, Dict,
  lookup, insert, Value, dict, end, of_dict, ℤ, pos, Result, ok, raise, then_do, Action,
}
use ss_prep.Executor.Node.{Status, idle, running, success, failure}
use ss_prep.Rcs.Schema.{OrderRequest, OrderResponse, CancelResponse, StateSnapshot, Conversions}

-- A goal as it was sent.
pub record SentGoal : Type 0 where
  pub subjob_id : String
  pub behavior_parameter_json : String
  pub userdata_in_json : String

-- The fields of a status message that the bridge reads; its status is one that the message declares.
pub record StatusReport : Type 0 where
  pub subjob_id : String
  pub status : Status
  pub active_state : String
  pub userdata_snapshot_json : String
  pub elapsed_sec : ℤ

-- The node. `sent` has the goals and `cancels` the futures whose handle was asked to cancel, the
-- latest first.
pub record Bridge : Type 0 where
  pub pending : Dict ℕ
  pub last_order_id : String
  pub last_state : Option StatusReport
  pub sent : List SentGoal
  pub cancels : List ℕ

-- `handle` is what `result()` of a future gives: `none` without a handle yet, else whether the handle
-- is accepted.
pub record Outside : Type 0 where
  pub conversions : Conversions
  pub server_up : Bool
  pub uuid : String
  pub loads : String → Option Value
  pub dumps : Value → Result String
  pub handle : ℕ → Result (Option Bool)

unfoldable pub on_status : StatusReport → Bridge → Bridge
on_status m b = record b { last_state = some m }

-- `req.order_id or uuid.uuid4().hex`.
unfoldable pub chosen_id : Outside → OrderRequest → String
chosen_id o r = if r.order_id == "" then o.uuid else r.order_id

unfoldable pub register_order : Outside → OrderRequest → SentGoal → Bridge → Bridge
unfolding chosen_id
register_order o r goal b = record b {
  pending = insert (chosen_id o r) (length b.sent) b.pending;
  last_order_id = chosen_id o r;
  sent = goal ∷ b.sent;
}

-- The goal, with its texts.
unfoldable pub encode : Outside → OrderRequest → Result SentGoal
encode o r = then_do (o.dumps (dict (of_dict r.behavior_parameter))) (λ p.
    then_do (o.dumps (dict (of_dict r.userdata_in))) (λ u.
      ok (record { subjob_id = r.subjob_id; behavior_parameter_json = p; userdata_in_json = u })))

unfoldable pub submit_order : Outside → OrderRequest → Action Bridge OrderResponse
unfolding encode register_order chosen_id
submit_order o r b =
    if o.server_up
    then elim (encode o r) [
      | raise e ↦ (raise e, b)
      | ok goal ↦ (
        ok (record { accepted = true; order_id = chosen_id o r; message = "dispatched" }),
        register_order o r goal b,
      )
    ]
    else (
      ok (record { accepted = false; order_id = r.order_id; message = "executor unavailable" }),
      b,
    )

-- From the call of `result()` on.
unfoldable pub cancel_handle : ℕ → Result (Option Bool) → Action Bridge CancelResponse
cancel_handle future (raise e) b = (raise e, b)
cancel_handle future (ok (some true)) b = (
  ok (record { accepted = true; message = "cancel requested" }),
  record b { cancels = future ∷ b.cancels },
)
cancel_handle future (ok _) b =
    (ok (record { accepted = false; message = "goal handle not yet accepted" }), b)

unfoldable pub cancel_order : Outside → String → Action Bridge CancelResponse
unfolding cancel_handle
cancel_order o id b = elim (lookup b.pending id) [
  | none ↦ (ok (record { accepted = false; message = "unknown order_id" }), b)
  | some future ↦ cancel_handle future (o.handle future) b
]

unfoldable pub status_label : Status → String
status_label idle = "idle"
status_label running = "running"
status_label success = "success"
status_label failure = "failure"

unfoldable pub snapshot : Outside → Bridge → StateSnapshot
unfolding status_label
snapshot o b = elim b.last_state [
  | none ↦ record {
    order_id = b.last_order_id;
    subjob_id = "";
    status = "idle";
    active_state = "";
    userdata_snapshot = dict end;
    elapsed_sec = pos 0;
  }
  | some last ↦ record {
    order_id = b.last_order_id;
    subjob_id = last.subjob_id;
    status = status_label last.status;
    active_state = last.active_state;
    userdata_snapshot =
        elim (o.loads
          (if last.userdata_snapshot_json == "" then "{}" else last.userdata_snapshot_json)) [
            | none ↦ dict end
            | some v ↦ v
          ];
    elapsed_sec = last.elapsed_sec;
  }
]
