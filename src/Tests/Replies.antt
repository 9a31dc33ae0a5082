-- ===== src/Tests/Replies.antt =====
-- The client at concrete replies.
use mathlib.Core.List.{map}
use redis_database_basic_imp.Prelude.{◌^◌, ◌-◌, ◌≡◌, List, [], ◌∷◌, ◌++◌, some, arith, length}
use redis_database_basic_imp.Prelude.Bytes.{le32}
use redis_database_basic_imp.Prelude.Run.{ok, fault}
use redis_database_basic_imp.Serialisation.{ser_str, out_arr}
use redis_database_basic_imp.Client.{arr, arr_end, on_response}
use redis_database_basic_imp.Client.Replies.{
  Item, str, write_item, write_items, shown, on_response-array, on_response-overrun,
}

abbrev keys : List Item
keys = str (b'a' ∷ []) ∷ str (b'b' ∷ b'c' ∷ []) ∷ []

on_response-array_example :
    on_response 2 (write_items (out_arr [] 2) keys ++ []) 18
    ≡ ok (record {
      rv = some (length (write_items (out_arr [] 2) keys));
      printed = arr 2 ∷ (map shown keys ++ (arr_end ∷ []));
    })
unfolding write_items write_item out_arr le32
on_response-array_example =
    on_response-array keys 0 [] 18 (omega arith) (omega arith) (omega arith) (omega arith)
      (omega arith)

on_response-overrun_example : on_response 1 (ser_str ∷ (le32 (2 ^ 32 - 1) ++ (b'a' ∷ []))) 6 ≡ fault
on_response-overrun_example =
    on_response-overrun (2 ^ 32 - 1) 0 (b'a' ∷ []) 6 (omega arith) (omega arith) (omega arith)
      (omega arith)
