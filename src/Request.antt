-- ===== src/Request.antt =====
-- common.cpp, `parse_req`, and client.cpp, `send_req`: the request format. A frame is the length of
-- the body and the body: the number of arguments, and each argument after its length.
pub mod Format
pub mod Parse
pub mod Send
pub mod Sound
use mathlib.Core.Option
use redis_database_basic_imp.Prelude.{
  ℕ, zero, suc, ◌+◌, ◌%◌, ◌^◌, List, [], ◌∷◌, ◌++◌, Option, none, some, ltb, ◌==◌, if◌then◌else◌,
  length, take, drop,
}
use redis_database_basic_imp.Prelude.Bytes.{Bytes, le32, load32}
use redis_database_basic_imp.Prelude.Run.{Run, ok, fault, or_fault, ◌>>=◌}

abbrev pub k_max_args : ℕ
k_max_args = 4

abbrev pub k_max_msg : ℕ
k_max_msg = 4096

-- `len` bytes of `mem`, the source's `data`, from `pos`, which must all be there.
unfoldable pub slice : Bytes → ℕ → ℕ → Run Bytes
slice mem pos len = if ltb (length mem) (pos + len) then fault else ok (take len (drop pos mem))

-- The loop of `parse_req` with `cmd_len` rounds left, and the test behind it. `none` is -1. `pos` is
-- a size_t, but `4 + arg_len`, which is added to it, is a sum in uint32_t.
unfoldable pub parse_args : ℕ → Bytes → ℕ → ℕ → List Bytes → Run (Option (List Bytes))
parse_args zero mem len pos cmd = if pos == len then ok (some cmd) else ok none
parse_args (suc cmd_len) mem len pos cmd =
    let body : Run (Option (List Bytes)) = do
      arg_len ← or_fault (load32 (drop pos mem))
      let push = slice mem (pos + 4) arg_len >>= λ arg.
          parse_args cmd_len mem len (pos + (4 + arg_len) % 2 ^ 32) (cmd ++ (arg ∷ []))
      if ltb len (pos + 4 + arg_len) then ok none else push
    in if ltb len (pos + 4) then ok none else body

-- `mem`, the source's `data`, is the memory from the pointer on, which may be longer than the `len` bytes of the request.
unfoldable pub parse_req : Bytes → ℕ → Run (Option (List Bytes))
unfolding parse_args slice
parse_req mem len = if ltb len 4 then ok none else (do
  cmd_len ← or_fault (load32 mem)
  if ltb k_max_args cmd_len then ok none else parse_args cmd_len mem len 4 [])

-- The first loop of `send_req`, which adds up the length, and the test behind it.
unfoldable pub frame_len : ℕ → List Bytes → Option ℕ
frame_len len [] = if ltb k_max_msg len then none else some len
frame_len len (arg ∷ cmd) =
    let len' = (len + (4 + length arg % 2 ^ 32) % 2 ^ 32) % 2 ^ 32 in
    let rest = frame_len len' cmd in if ltb k_max_msg len' then none else rest

-- The second loop. `wbuf` is what was written so far, up to the position `cur`.
unfoldable pub put_args : ℕ → Bytes → List Bytes → Option Bytes
put_args cur wbuf [] = some wbuf
put_args cur wbuf (arg ∷ cmd) =
    let arglen = length arg % 2 ^ 32 in
    let rest = put_args (cur + (4 + arglen)) (wbuf ++ (le32 arglen ++ take arglen arg)) cmd in
    if ltb (4 + k_max_msg) (cur + 4 + arglen) then none else rest

-- The bytes that `send_req` hands to `write_all`, or `none` where it returns -1 before.
unfoldable pub send_req : List Bytes → Option Bytes
unfolding frame_len put_args
send_req cmd = Option.bind (frame_len 4 cmd) λ len.
    Option.bind (put_args 8 (le32 len ++ le32 (length cmd % 2 ^ 32)) cmd)
      λ wbuf. some (take (4 + len) wbuf)
