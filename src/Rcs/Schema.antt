-- ===== src/Rcs/Schema.antt =====
-- mw_rcs_bridge/mw_rcs_bridge/schema.py: the requests and the answers. The conversions of Python of a
-- value that has another type already are parameters.
use ss_prep.Base.{
  String, Bool, none, some, if◌then◌else◌, Dict, lookup, Value, int, str, dict, end, to_dict,
  truthy, ℤ, pos, Result, ok, raise, then_do, type_error, value_error,
}

pub record OrderRequest : Type 0 where
  pub subjob_id : String
  pub behavior_parameter : Dict Value
  pub userdata_in : Dict Value
  pub order_id : String
  pub order_update_id : ℤ

pub record OrderResponse : Type 0 where
  pub accepted : Bool
  pub order_id : String
  pub message : String

pub record CancelResponse : Type 0 where
  pub accepted : Bool
  pub message : String

-- `str`, `dict` and `int` where the value is not a text, a dictionary or a whole number.
pub record Conversions : Type 0 where
  pub str_of : Value → String
  pub dict_of : Value → Result (Dict Value)
  pub int_of : Value → Result ℤ

unfoldable pub as_str : Conversions → Value → String
as_str c (str s) = s
as_str c v = c.str_of v

unfoldable pub as_dict : Conversions → Value → Result (Dict Value)
as_dict c (dict fs) = ok (to_dict fs)
as_dict c v = c.dict_of v

unfoldable pub as_int : Conversions → Value → Result ℤ
as_int c (int n) = ok n
as_int c v = c.int_of v

-- `data.get(key) or default`.
unfoldable pub get_or : Dict Value → String → Value → Value
get_or d key default = elim (lookup d key) [
  | none ↦ default
  | some v ↦ if truthy v then v else default
]

-- The value of a key that must be there and not be empty.
unfoldable pub required : Dict Value → String → Result Value
required d key = elim (lookup d key) [
  | none ↦ raise value_error
  | some v ↦ if truthy v then ok v else raise value_error
]

unfoldable pub order_from_dict : Conversions → Value → Result OrderRequest
unfolding required get_or as_str as_dict as_int
order_from_dict c (dict fs) =
    let d = to_dict fs in
    then_do (required d "subjob_id") (λ subjob_id.
      then_do (as_dict c (get_or d "behavior_parameter" (dict end))) (λ behavior_parameter.
        then_do (as_dict c (get_or d "userdata_in" (dict end))) (λ userdata_in.
          then_do (as_int c (get_or d "order_update_id" (int (pos 0)))) (λ order_update_id.
            ok (record {
              subjob_id = as_str c subjob_id;
              behavior_parameter = behavior_parameter;
              userdata_in = userdata_in;
              order_id = as_str c (get_or d "order_id" (str ""));
              order_update_id = order_update_id;
            })))))
order_from_dict c v = raise type_error

-- The `order_id` of a `CancelRequest`.
unfoldable pub cancel_from_dict : Conversions → Value → Result String
unfolding required as_str
cancel_from_dict c (dict fs) =
    then_do (required (to_dict fs) "order_id") (λ order_id. ok (as_str c order_id))
cancel_from_dict c v = raise value_error

pub record StateSnapshot : Type 0 where
  pub order_id : String
  pub subjob_id : String
  pub status : String
  pub active_state : String
  pub userdata_snapshot : Value
  pub elapsed_sec : ℤ
