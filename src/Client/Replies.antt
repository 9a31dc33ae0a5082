-- ===== src/Client/Replies.antt =====
-- The replies that the server writes, read back by `on_response`.
use mathlib.Core.List.{append_assoc, append-nil, map}
use redis_database_basic_imp.Prelude.{
  ℕ, suc, ◌+◌, ◌-◌, ◌%◌, ◌^◌, ◌≤◌, ◌<◌, ◌≡◌, refl, sym, ap, ◌∙◌, true, false, List, [], ◌∷◌, ◌++◌,
  none, some, arith, ltb, leb, length, length-append, drop, take-length_append, drop-length_append,
  All,
}
use redis_database_basic_imp.Prelude.Bytes.{
  Bytes, le32, be64, length-le32, load32-le32, load64-be64,
}
use redis_database_basic_imp.Prelude.Run.{Run, ok, fault, ◌>>=◌}
use redis_database_basic_imp.Serialisation.{
  ser_err, ser_str, ser_int, out_nil, out_err, out_str, out_int, out_arr, out_dbl,
}
use redis_database_basic_imp.Client.{
  Printed, arr_end, unknown, arr, Response, until_nul, on_err, on_int, on_str, on_arr, arr_loop,
  on_response,
}

-- What a reply is made of, beside arrays: a value for each writer that a handler calls.
pub data Item : Type 0 where
  nil : Item
  err : ℕ → Bytes → Item
  str : Bytes → Item
  int : ℕ → Item

unfoldable pub write_item : Bytes → Item → Bytes
unfolding out_nil out_err out_str out_int
write_item out nil = out_nil out
write_item out (err code msg) = out_err out code msg
write_item out (str val) = out_str out val
write_item out (int val) = out_int out val

-- The line that the client prints for it.
abbrev pub shown : Item → Printed
shown nil = Printed.nil
shown (err code msg) = Printed.err code (until_nul msg)
shown (str val) = Printed.str (until_nul val)
shown (int val) = Printed.int val

-- The value is shorter than 2 GiB, and a number fits its type.
abbrev pub IsSmall : Item → Type 0
IsSmall nil = Unit
IsSmall (err code msg) = (code < 2 ^ 32) × (9 + length msg < 2 ^ 31)
IsSmall (str val) = 5 + length val < 2 ^ 31
IsSmall (int val) = val < 2 ^ 64

err_bytes :
    (code : ℕ) (msg rest : Bytes)
    → 9 + length msg < 2 ^ 31
    → write_item [] (err code msg) ++ rest
      ≡ ser_err ∷ (le32 code ++ (le32 (length msg) ++ (msg ++ rest)))
unfolding write_item
err_bytes code msg rest h =
    let size : length msg % 2 ^ 32 ≡ length msg = omega arith in rw size (simp append_assoc)

str_bytes :
    (val rest : Bytes)
    → 5 + length val < 2 ^ 31
    → write_item [] (str val) ++ rest ≡ ser_str ∷ (le32 (length val) ++ (val ++ rest))
unfolding write_item
str_bytes val rest h =
    let size : length val % 2 ^ 32 ≡ length val = omega arith in rw size (simp append_assoc)

int_bytes :
    (val : ℕ) (rest : Bytes) → write_item [] (int val) ++ rest ≡ ser_int ∷ (be64 val ++ rest)
unfolding write_item
int_bytes val rest = refl

item_length : Item → ℕ
item_length nil = 1
item_length (err code msg) = 9 + length msg
item_length (str val) = 5 + length val
item_length (int val) = 9

length-write_item : (i : Item) → IsSmall i → length (write_item [] i) ≡ item_length i
unfolding item_length write_item le32 be64
length-write_item nil h = omega arith
length-write_item (err code msg) h = omega arith
length-write_item (str val) h = omega arith
length-write_item (int val) h = omega arith

-- What the client returns and prints for an item.
abbrev answer : Item → Run Response
answer i = ok (record { rv = some (item_length i); printed = shown i ∷ [] })

on_err-item :
    (code : ℕ) (msg rest : Bytes) (size : ℕ)
    → IsSmall (err code msg)
    → 9 + length msg ≤ size
    → on_err (write_item [] (err code msg) ++ rest) size ≡ answer (err code msg)
unfolding on_err item_length
on_err-item code msg rest size (small, short) h =
    let len = length msg in
    let tail = le32 len ++ (msg ++ rest) in
    let room : ltb size 9 ≡ false = ground arith in
    let end : (9 + len) % 2 ^ 32 ≡ 9 + len = omega arith in
    let fits : ltb size (9 + len) ≡ false = ground arith in
    let positive : ltb (9 + len) (2 ^ 31) ≡ true = ground arith in
    let all : leb len (length (msg ++ rest)) ≡ true = ground (arith, length-append msg rest) in
    rw (
      err_bytes code msg rest short,
      room,
      load32-le32 code tail small,
      drop-length_append (le32 code) tail 4 0 (omega (arith, length-le32 code)),
      load32-le32 len (msg ++ rest) (omega arith),
      end,
      fits,
      drop-length_append (le32 code) tail 8 4 (omega (arith, length-le32 code)),
      drop-length_append (le32 len) (msg ++ rest) 4 0 (omega (arith, length-le32 len)),
      all,
      end,
      positive,
      take-length_append msg rest len refl,
    )

on_str-item :
    (val rest : Bytes) (size : ℕ)
    → IsSmall (str val)
    → 5 + length val ≤ size
    → on_str (write_item [] (str val) ++ rest) size ≡ answer (str val)
unfolding on_str item_length
on_str-item val rest size short h =
    let len = length val in
    let room : ltb size 5 ≡ false = ground arith in
    let end : (5 + len) % 2 ^ 32 ≡ 5 + len = omega arith in
    let fits : ltb size (5 + len) ≡ false = ground arith in
    let positive : ltb (5 + len) (2 ^ 31) ≡ true = ground arith in
    let all : leb len (length (val ++ rest)) ≡ true = ground (arith, length-append val rest) in
    rw (
      str_bytes val rest short,
      room,
      load32-le32 len (val ++ rest) (omega arith),
      end,
      fits,
      drop-length_append (le32 len) (val ++ rest) 4 0 (omega (arith, length-le32 len)),
      all,
      end,
      positive,
      take-length_append val rest len refl,
    )

on_int-item :
    (val : ℕ) (rest : Bytes) (size : ℕ)
    → IsSmall (int val)
    → 9 ≤ size
    → on_int (write_item [] (int val) ++ rest) size ≡ answer (int val)
unfolding on_int item_length
on_int-item val rest size small h =
    let room : ltb size 9 ≡ false = ground arith in
    rw (int_bytes val rest, room, load64-be64 val rest small)

-- The client reads an item back, whatever follows it, and returns its length.
on_response-item :
    (i : Item) (f : ℕ) (rest : Bytes) (size : ℕ)
    → IsSmall i
    → item_length i ≤ size
    → on_response (suc f) (write_item [] i ++ rest) size ≡ answer i
unfolding on_response write_item item_length
on_response-item nil f rest size small h = let room : ltb size 1 ≡ false = ground arith in rw room
on_response-item (err code msg) f rest size small h =
    let room : ltb size 1 ≡ false = ground arith in rw room (on_err-item code msg rest size small h)
on_response-item (str val) f rest size small h =
    let room : ltb size 1 ≡ false = ground arith in rw room (on_str-item val rest size small h)
on_response-item (int val) f rest size small h =
    let room : ltb size 1 ≡ false = ground arith in rw room (on_int-item val rest size small h)

-- A reply to `keys`: the items behind the head of an array.
unfoldable pub write_items : Bytes → List Item → Bytes
write_items out [] = out
write_items out (i ∷ items) = write_items (write_item out i) items

items_length : List Item → ℕ
items_length [] = 0
items_length (i ∷ items) = item_length i + items_length items

write_item-append : (out : Bytes) (i : Item) → write_item out i ≡ out ++ write_item [] i
unfolding write_item
write_item-append out nil = refl
write_item-append out (err code msg) = simp append_assoc
write_item-append out (str val) = simp append_assoc
write_item-append out (int val) = simp append_assoc

write_items-append :
    (out : Bytes) (items : List Item) → write_items out items ≡ out ++ write_items [] items
unfolding write_items
write_items-append out [] = sym (append-nil out)
write_items-append out (i ∷ items) =
    write_items-append (write_item out i) items
    ∙ ap (λ o. o ++ write_items [] items) (write_item-append out i)
    ∙ append_assoc out (write_item [] i) (write_items [] items)
    ∙ ap (λ o. out ++ o) (sym (write_items-append (write_item [] i) items))

arr_loop_step :
    (on : Bytes → ℕ → Run Response) (n at : ℕ) (mem : Bytes) (size rv : ℕ) (p : Printed)
    → on (drop at mem) ((size + 2 ^ 64 - at) % 2 ^ 64)
      ≡ ok (record { rv = some rv; printed = p ∷ [] })
    → arr_loop on (suc n) at mem size ≡ (
        arr_loop on n (at + rv) mem size >>= λ r.
        ok (record { rv = r.rv; printed = p ∷ r.printed }))
unfolding arr_loop
arr_loop_step on n at mem size rv p e = rw e

arr_loop-items :
    (items : List Item) (f at : ℕ) (pre rest : Bytes) (size : ℕ)
    → All IsSmall items
    → at ≡ length pre
    → at + items_length items ≤ size
    → at + items_length items < 2 ^ 31
    → size < 2 ^ 32
    → arr_loop (on_response (suc f)) (length items) at (pre ++ (write_items [] items ++ rest)) size
      ≡ ok (record {
        rv = some (at + items_length items);
        printed = map shown items ++ (arr_end ∷ []);
      })
unfolding write_items items_length
arr_loop-items [] f at pre rest size small e h short fits =
    let none_left : at + 0 ≡ at = omega arith in
    let whole : at % 2 ^ 32 ≡ at = omega arith in
    let positive : ltb at (2 ^ 31) ≡ true = ground arith in
    unfold arr_loop in rw (none_left, whole, positive)
arr_loop-items (i ∷ items) f at pre rest size small e h short fits =
    let tail = write_items [] items ++ rest in
    let mem = pre ++ (write_item [] i ++ tail) in
    let left : (size + 2 ^ 64 - at) % 2 ^ 64 ≡ size - at = omega arith in
    let split : write_items (write_item [] i) items ++ rest ≡ write_item [] i ++ tail =
      ap (λ o. o ++ rest) (write_items-append (write_item [] i) items)
      ∙ append_assoc (write_item [] i) (write_items [] items) rest in
    let here : on_response (suc f) (drop at mem) ((size + 2 ^ 64 - at) % 2 ^ 64) ≡ answer i =
      rw (drop-length_append pre (write_item [] i ++ tail) at 0 (omega arith), left)
        (on_response-item i f tail (size - at) small.0 (omega arith)) in
    let later =
      arr_loop-items items f (at + item_length i) (pre ++ write_item [] i) rest size small.1
        (omega (arith, length-append pre (write_item [] i), length-write_item i small.0))
        (omega arith) (omega arith) fits in
    let regroup : (pre ++ write_item [] i) ++ tail ≡ mem =
      append_assoc pre (write_item [] i) tail in
    let sum : at + item_length i + items_length items ≡ at + (item_length i + items_length items) =
      omega arith in
    rw (
      split,
      arr_loop_step (on_response (suc f)) (length items) at mem size (item_length i) (shown i) here,
      ← regroup,
      later,
      sum,
    )

length-write_items :
    (items : List Item) → All IsSmall items → length (write_items [] items) ≡ items_length items
unfolding write_items items_length
length-write_items [] h = refl
length-write_items (i ∷ items) h = omega (
  arith,
  ap length (write_items-append (write_item [] i) items),
  length-append (write_item [] i) (write_items [] items),
  length-write_item i h.0,
  length-write_items items h.1,
)

length-out_arr : (n : ℕ) → length (out_arr [] n) ≡ 5
unfolding out_arr le32
length-out_arr n = refl

on_arr-items :
    (items : List Item) (f : ℕ) (rest : Bytes) (size : ℕ)
    → All IsSmall items
    → length items < 2 ^ 32
    → 5 + items_length items ≤ size
    → 5 + items_length items < 2 ^ 31
    → size < 2 ^ 32
    → on_arr
        (on_response (suc f))
        (out_arr [] (length items) ++ (write_items [] items ++ rest))
        size
      ≡ ok (record {
        rv = some (5 + items_length items);
        printed = arr (length items) ∷ (map shown items ++ (arr_end ∷ []));
      })
unfolding on_arr out_arr
on_arr-items items f rest size small few h short fits =
    let tail = write_items [] items ++ rest in
    let n = length items in
    let room : ltb size 5 ≡ false = ground arith in
    let loop =
      arr_loop-items items f 5 (out_arr [] n) rest size small (sym (length-out_arr n)) h short
        fits in
    rw (room, load32-le32 n tail few, loop)

-- An array is handed to `on_arr`.
array_tag :
    (n f : ℕ) (tail : Bytes) (size : ℕ) {r : Run Response}
    → 1 ≤ size
    → on_arr (on_response f) (out_arr [] n ++ tail) size ≡ r
    → on_response (suc f) (out_arr [] n ++ tail) size ≡ r
unfolding on_response out_arr
array_tag n f tail size h e = let room : ltb size 1 ≡ false = ground arith in rw room e

-- The client reads back any reply of the server that is an array of items (that of `keys`), whatever
-- follows it in the buffer: it returns the length of the reply, and prints the head, each item and
-- the end. The reply is shorter than 2 GiB, and `size` is at least its length and below 2^32.
pub on_response-array :
    (items : List Item) (f : ℕ) (rest : Bytes) (size : ℕ)
    → All IsSmall items
    → length items < 2 ^ 32
    → length (write_items (out_arr [] (length items)) items) ≤ size
    → length (write_items (out_arr [] (length items)) items) < 2 ^ 31
    → size < 2 ^ 32
    → on_response (suc (suc f)) (write_items (out_arr [] (length items)) items ++ rest) size
      ≡ ok (record {
        rv = some (length (write_items (out_arr [] (length items)) items));
        printed = arr (length items) ∷ (map shown items ++ (arr_end ∷ []));
      })
on_response-array items f rest size small few h short fits =
    let head = out_arr [] (length items) in
    let whole = write_items-append head items in
    let len : length (head ++ write_items [] items) ≡ 5 + items_length items = omega (
      arith,
      length-append head (write_items [] items),
      length-out_arr (length items),
      length-write_items items small,
    ) in
    let enough : 5 + items_length items ≤ size = omega (arith, ap length whole, len) in
    rw (whole, len, append_assoc head (write_items [] items) rest)
      (array_tag (length items) (suc f) _ size (omega (arith, enough)) (
        on_arr-items items f rest size small few enough (omega (arith, short, ap length whole, len))
          fits))

-- The client reads back each value that the server writes, whatever follows it in the buffer, and
-- returns its length.
pub on_response-write_item :
    (i : Item) (f : ℕ) (rest : Bytes) (size : ℕ)
    → IsSmall i
    → length (write_item [] i) ≤ size
    → on_response (suc f) (write_item [] i ++ rest) size
      ≡ ok (record { rv = some (length (write_item [] i)); printed = shown i ∷ [] })
on_response-write_item i f rest size small h =
    let len = length-write_item i small in
    rw len (on_response-item i f rest size small (omega (arith, len)))

-- A reply that is a double, as that of `zscore`, is refused as of an unknown type.
pub on_response-out_dbl :
    (val f : ℕ) (rest : Bytes) (size : ℕ)
    → 1 ≤ size
    → on_response (suc f) (out_dbl [] val ++ rest) size
      ≡ ok (record { rv = none; printed = unknown ∷ [] })
unfolding on_response out_dbl
on_response-out_dbl val f rest size h = let room : ltb size 1 ≡ false = ground arith in rw room

-- A string that announces so many bytes that 5 more do not fit a `uint32_t` passes the test of the
-- size, and is read past the end of the reply.
pub on_response-overrun :
    (len f : ℕ) (rest : Bytes) (size : ℕ)
    → 2 ^ 32 - 5 ≤ len
    → len < 2 ^ 32
    → 5 ≤ size
    → length rest < len
    → on_response (suc f) (ser_str ∷ (le32 len ++ rest)) size ≡ fault
unfolding on_response
on_response-overrun len f rest size lo hi h short =
    let room₁ : ltb size 1 ≡ false = ground arith in
    let room₅ : ltb size 5 ≡ false = ground arith in
    let wrapped : ltb size ((5 + len) % 2 ^ 32) ≡ false = ground arith in
    let beyond : leb len (length rest) ≡ false = ground arith in
    rw (
      room₁,
      room₅,
      load32-le32 len rest hi,
      wrapped,
      drop-length_append (le32 len) rest 4 0 (omega (arith, length-le32 len)),
      beyond,
    )
