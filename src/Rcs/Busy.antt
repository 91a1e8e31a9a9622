-- ===== src/Rcs/Busy.antt =====
-- An order that comes while the executor is busy.
use ss_prep.Base.{
  ℕ, ◌≡◌, refl, arith, true, false, some, ok, length, lookup, lookup-insert, eq_refl,
}
use ss_prep.Executor.Node.{Executor, goal_callback, publish_status}
use ss_prep.Rcs.Schema.{OrderRequest}
use ss_prep.Rcs.Bridge.{
  SentGoal, Bridge, Outside, on_status, chosen_id, register_order, encode, submit_order,
  cancel_handle, cancel_order, snapshot,
}
use ss_prep.Rcs.Orders.{submit_order_sent}
use ss_prep.Rcs.Ordered.{report}

cancel_refused :
    (o : Outside) (r : OrderRequest) (goal : SentGoal) (b b' : Bridge)
    → o.handle (length b.sent) ≡ ok (some false)
    → b'.pending ≡ (register_order o r goal b).pending
    → cancel_order o (chosen_id o r) b'
      ≡ (ok (record { accepted = false; message = "goal handle not yet accepted" }), b')
unfolding cancel_order cancel_handle register_order
cancel_refused o r goal b b' refused same =
    let found : lookup b'.pending (chosen_id o r) ≡ some (length b.sent) = ground (
      arith,
      same,
      lookup-insert (chosen_id o r) (chosen_id o r) (length b.sent) b.pending,
      eq_refl (chosen_id o r),
    ) in
    rw (found, cancel_order) (rw (refused) refl)

-- An order that comes while the executor is busy is answered as dispatched, though the executor rejects its
-- goal. With the next status message the bridge shows this order's id over the SubJob of the goal that
-- runs, and a request to cancel the order is answered that its handle is not yet accepted.
pub busy_order_lost :
    (o : Outside) (r : OrderRequest) (goal : SentGoal) (b : Bridge) (e : Executor) (now : ℕ)
    → o.server_up ≡ true
    → encode o r ≡ ok goal
    → e.busy ≡ true
    → o.handle (length b.sent) ≡ ok (some false)
    → let (answer, b1) = submit_order o r b in
      let b2 = on_status (report (publish_status now e)) b1 in
      (goal_callback e ≡ false)
      × (answer ≡ ok (record { accepted = true; order_id = chosen_id o r; message = "dispatched" }))
      × ((snapshot o b2).order_id ≡ chosen_id o r)
      × ((snapshot o b2).subjob_id ≡ e.subjob_id)
      × (cancel_order o (chosen_id o r) b2
          ≡ (ok (record { accepted = false; message = "goal handle not yet accepted" }), b2))
unfolding goal_callback snapshot on_status report publish_status register_order
busy_order_lost o r goal b e now up encoded busy refused =
    rw (submit_order_sent o r goal b up encoded) (
      ground (arith, busy),
      refl,
      refl,
      refl,
      cancel_refused o r goal b
          (on_status (report (publish_status now e)) (register_order o r goal b)) refused refl,
    )
