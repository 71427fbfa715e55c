-- ===== src/Message.antt =====
-- class conn_msg (asio_test/connection.h and connection.cpp) and struct HDR (globlItem.h): one
-- message with a fixed buffer of 256 bytes and, for a larger body, a buffer from `new char[]`.
-- Memory that was never written holds `indeterminate`, a value that is no byte. `none` is undefined
-- behaviour or a failed assertion. Its console output is left out.
pub mod Body
use asio_tcp.Base.{
  ℕ, ◌≡◌, Bool, true, false, Option, none, some, List, ◌++◌, length, take, drop, replicate,
  length-replicate, ltb, leb, if◌then◌else◌, ◌>>=◌, ◌>>◌, assert, not,
}

pub record Hdr : Type 0 where
  pub len : ℕ
  pub type : ℕ
  pub subtype : ℕ
  pub pack_num : ℕ

-- What the pointer `buff_` points to.
pub data Buff : Type 0 where
  null : Buff
  fixed : Buff  -- buff_fix
  dynamic : List ℕ → Buff  -- an array of new char[]

pub record ConnMsg : Type 0 where
  pub buff_fix : List ℕ
  pub buff : Buff
  pub size_allocated : ℕ
  pub header : Hdr

abbrev pub max_body_length : ℕ
max_body_length = 256

abbrev pub indeterminate : ℕ
indeterminate = 256

-- An array of char with no initialiser.
unfoldable pub uninitialised : ℕ → List ℕ
uninitialised n = replicate n indeterminate

pub length-uninitialised : (n : ℕ) → length (uninitialised n) ≡ n
unfolding uninitialised
length-uninitialised n = length-replicate n indeterminate

unfoldable pub construct : Hdr → ConnMsg
construct header = record {
  buff_fix = uninitialised max_body_length;
  buff = null;
  size_allocated = 0;
  header = header;
}

abbrev pub capacity : ConnMsg → ℕ
capacity m = if ltb 0 m.size_allocated then m.size_allocated else max_body_length

abbrev pub is_null : Buff → Bool
is_null null = true
is_null _ = false

-- `delete[] buff_; buff_ = NULL;`, which is undefined on the address of a member.
abbrev delete_array : Buff → Option Buff
delete_array fixed = none
delete_array _ = some null

-- The bytes at `buff_`, and a write to the first of them.
abbrev region : Buff → List ℕ → Option (List ℕ)
region null fix = none
region fixed fix = some fix
region (dynamic bytes) fix = some bytes

abbrev overwrite : List ℕ → List ℕ → Option (List ℕ)
overwrite src dst =
    if leb (length src) (length dst) then some (src ++ drop (length src) dst) else none

abbrev copy_at : Buff → ConnMsg → List ℕ → Option ConnMsg
copy_at null m src = none
copy_at fixed m src = do fix ← overwrite src m.buff_fix; some (record m { buff_fix = fix })
copy_at (dynamic bytes) m src = do
  bytes' ← overwrite src bytes
  some (record m { buff = dynamic bytes' })

-- memcpy and memset to `buff_`.
unfoldable pub copy_in : ConnMsg → List ℕ → Option ConnMsg
copy_in m src = copy_at m.buff m src

give_back : ConnMsg → Option ConnMsg
give_back m = do b ← delete_array m.buff; some (record m { buff = b; size_allocated = 0 })

-- The first block of `body_length(size_t)`: an array that is too small is given back.
drop_small : ℕ → ConnMsg → Option ConnMsg
unfolding give_back
drop_small n m =
    if ltb 0 m.size_allocated
    then assert (not (is_null m.buff)) >> (if leb n m.size_allocated then some m else give_back m)
    else some m

with_len : ℕ → ConnMsg → ConnMsg
with_len n m = record m { header = record (m.header) { len = n } }

-- Its second block: a buffer is chosen unless an array is held, and then cleared.
choose : ℕ → ConnMsg → Option ConnMsg
unfolding with_len
choose n m =
    if ltb 0 m.size_allocated
    then assert (not (is_null m.buff)) >> some (with_len n m)
    else if ltb max_body_length n
    then copy_in (record (with_len n m) { buff = dynamic (uninitialised n); size_allocated = n })
        (replicate n 0)
    else copy_in (record (with_len n m) { buff = fixed }) (replicate n 0)

unfoldable pub body_length : ℕ → ConnMsg → Option ConnMsg
unfolding drop_small choose
body_length n m = do m' ← drop_small n m; choose n m'

-- set_body(const streambuf&), on the bytes that the stream buffer holds.
unfoldable pub set_body : List ℕ → ConnMsg → Option ConnMsg
set_body src m = do m' ← body_length (length src) m; copy_in m' (take m'.header.len src)

-- set_body(void*, size_t): the first `n` of the bytes at the pointer.
unfoldable pub set_body_from : List ℕ → ℕ → ConnMsg → Option ConnMsg
set_body_from src n m = do
  m' ← body_length n m
  assert (leb n (length src))
  copy_in m' (take n src)

-- buffer(msg->body(), msg->body_length()), read by the socket or copied by a broadcast.
unfoldable pub body : ConnMsg → Option (List ℕ)
body m = do
  bytes ← region m.buff m.buff_fix
  assert (leb m.header.len (length bytes))
  some (take m.header.len bytes)
