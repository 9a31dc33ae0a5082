-- ===== src/Client.antt =====
-- client.cpp: `on_response`, which reads a reply and prints it.
--
-- `mem` is the memory from the pointer on, `size` the bytes of the reply that the source passes
-- along. What is printed is a list of values, the debug prints left out. A read outside `mem` is a
-- fault. The recursion of `on_response` takes fuel: one unit for each array that an array is in.
pub mod Replies
pub mod Main
pub mod Exit
use redis_database_basic_imp.Prelude.{
  ℕ, zero, suc, ◌+◌, ◌-◌, ◌%◌, ◌^◌, Bool, true, false, ◌||◌, List, [], ◌∷◌, ◌++◌, Option, none,
  some, ltb, leb, ◌==◌, if◌then◌else◌, length, get_elem?, take, drop,
}
use redis_database_basic_imp.Prelude.Bytes.{Bytes, load32, load64}
use redis_database_basic_imp.Prelude.Run.{Run, ok, fault, out_of_fuel, or_fault, ◌>>=◌}
use redis_database_basic_imp.Serialisation.{ser_nil, ser_err, ser_str, ser_int, ser_arr}

-- The lines that the client prints, with the values in them.
pub data Printed : Type 0 where
  nil arr_end unknown : Printed
  err : ℕ → Bytes → Printed
  arr : ℕ → Printed
  int : ℕ → Printed
  str : Bytes → Printed

-- The return value, `none` for a negative one, and the lines.
pub record Response : Type 0 where
  pub rv : Option ℕ
  pub printed : List Printed

-- A sum that is returned as an `int32_t`: it is negative where the bit of 2^31 is set.
abbrev pub int32 : ℕ → Option ℕ
int32 n = if ltb (n % 2 ^ 32) (2 ^ 31) then some (n % 2 ^ 32) else none

abbrev pub refuse : Response
refuse = record { rv = none; printed = [] }

-- A C string in the bytes: what stands before the first zero.
unfoldable pub until_nul : Bytes → Bytes
until_nul [] = []
until_nul (c ∷ cs) = if c == 0 then [] else c ∷ until_nul cs

unfoldable pub has_nul : Bytes → Bool
has_nul [] = false
has_nul (c ∷ cs) = (c == 0) || has_nul cs

-- `printf("%.*s", len, p)`: up to `len` bytes, or up to a zero. (A length from 2 GiB on is a negative
-- precision, which means no bound. No buffer is that long.)
unfoldable pub print_bounded : Bytes → ℕ → Run Bytes
unfolding until_nul has_nul
print_bounded s len =
    if leb len (length s)
    then ok (until_nul (take len s))
    else if has_nul s
    then ok (until_nul s)
    else fault

unfoldable pub on_err : Bytes → ℕ → Run Response
unfolding print_bounded
on_err mem size = if ltb size 9 then ok refuse else do
  code ← or_fault (load32 (drop 1 mem))
  len ← or_fault (load32 (drop 5 mem))
  let end = (9 + len) % 2 ^ 32
  if ltb size end then ok refuse else do
    msg ← print_bounded (drop 9 mem) len
    ok (record { rv = int32 end; printed = err code msg ∷ [] })

unfoldable pub on_int : Bytes → ℕ → Run Response
on_int mem size = if ltb size 9 then ok refuse else do
  integer ← or_fault (load64 (drop 1 mem))
  ok (record { rv = some 9; printed = int integer ∷ [] })

-- The `std::string` copies `len` bytes; its `c_str` is printed.
unfoldable pub on_str : Bytes → ℕ → Run Response
unfolding until_nul
on_str mem size = if ltb size 5 then ok refuse else do
  len ← or_fault (load32 (drop 1 mem))
  let end = (5 + len) % 2 ^ 32
  if ltb size end
      then ok refuse
      else if leb len (length (drop 5 mem))
      then ok (record { rv = int32 end; printed = str (until_nul (take len (drop 5 mem))) ∷ [] })
      else fault

-- The loop over the elements, `n` of them left.
unfoldable pub arr_loop : (Bytes → ℕ → Run Response) → ℕ → ℕ → Bytes → ℕ → Run Response
arr_loop on zero arr_bytes mem size = ok (record { rv = int32 arr_bytes; printed = arr_end ∷ [] })
arr_loop on (suc n) arr_bytes mem size =
    on (drop arr_bytes mem) ((size + 2 ^ 64 - arr_bytes) % 2 ^ 64) >>= λ r. elim r.rv [
      | none ↦ ok r
      | some rv ↦ arr_loop on n (arr_bytes + rv) mem size >>= λ rest.
          ok (record { rv = rest.rv; printed = r.printed ++ rest.printed })
    ]

unfoldable pub on_arr : (Bytes → ℕ → Run Response) → Bytes → ℕ → Run Response
unfolding arr_loop
on_arr on mem size = if ltb size 5 then ok refuse else do
  len ← or_fault (load32 (drop 1 mem))
  r ← arr_loop on len 5 mem size
  ok (record { rv = r.rv; printed = arr len ∷ r.printed })

unfoldable pub on_response : ℕ → Bytes → ℕ → Run Response
unfolding on_err on_int on_str on_arr
on_response zero mem size = out_of_fuel
on_response (suc fuel) mem size =
    let again = λ (m : Bytes) (s : ℕ). on_response fuel m s in
    if ltb size 1 then ok refuse else do
      tag ← or_fault (get_elem? mem 0)
      if tag == ser_nil
          then ok (record { rv = some 1; printed = nil ∷ [] })
          else if tag == ser_err
          then on_err mem size
          else if tag == ser_arr
          then on_arr again mem size
          else if tag == ser_int
          then on_int mem size
          else if tag == ser_str
          then on_str mem size
          else ok (record { rv = none; printed = unknown ∷ [] })
