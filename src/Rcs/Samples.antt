-- ===== src/Rcs/Samples.antt =====
-- A bridge with no orders yet, and an order.
use ss_prep.Base.{String, true, none, some, [], dict, end, pos, ok, raise, type_error}
use ss_prep.Rcs.Schema.{OrderRequest, Conversions}
use ss_prep.Rcs.Bridge.{Bridge, Outside}

abbrev pub conversions : Conversions
conversions = record {
  str_of = λ v. "";
  dict_of = λ v. raise type_error;
  int_of = λ v. raise type_error;
}

abbrev pub outside : Outside
outside = record {
  conversions = conversions;
  server_up = true;
  uuid = "u1";
  loads = λ s. some (dict end);
  dumps = λ v. ok "{}";
  handle = λ n. ok (some true);
}

abbrev pub idle_bridge : Bridge
idle_bridge = record {
  pending = [];
  last_order_id = "";
  last_state = none;
  sent = [];
  cancels = [];
}

abbrev pub order : String → OrderRequest
order id = record {
  subjob_id = "demo";
  behavior_parameter = [];
  userdata_in = [];
  order_id = id;
  order_update_id = pos 0;
}
