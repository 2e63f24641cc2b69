-- ===== src/Ese/RecvList.antt =====
-- The list of received segments (7816-3-T1/7816/T1.c): t1RecvDataStoreInList,
-- T1RecvDataListDestroy, t1RecvDataGet. `mem` says whether the function's allocations succeed.
pub mod Laws
use android_vendor_tms.Prelude.{
  ℕ, ◌+◌, ◌-◌, Bool, true, false, not, ◌||◌, Option, none, some, List, [], ◌∷◌, ◌==◌, leb,
  if◌then◌else◌, length, take, drop, replicate, write_at, u16, u32, ◌++◌,
}
use android_vendor_tms.Ese.Types.{
  EseStatus, success, invalid_parameter, mem_exception, invalid_t1_len, T1State,
}
use android_vendor_tms.Ese.Frame.{header_len}

-- `buf` is the block; its INF field of `data_len` bytes starts at `offset`.
unfoldable pub store_in_list : Bool → T1State → List ℕ → ℕ → ℕ → ℕ → T1State × EseStatus
store_in_list mem s buf offset data_len total_len =
    if data_len == 0 || not (data_len == total_len - header_len s true)
    then (s, invalid_t1_len)
    else if not mem
    then (s, mem_exception)
    else (
      record s {
        recv = s.recv ++ take data_len (drop offset buf) ∷ [];
        recv_total = u32 (s.recv_total + data_len);
      },
      success,
    )

unfoldable pub list_destroy : T1State → T1State
list_destroy s = record s { recv = []; recv_total = 0 }

-- memcpy_s(buf + offset, total - offset, node, length node): a node that does not fit is not
-- copied, and the rest of the buffer is cleared.
unfoldable pub copy_node : List ℕ → ℕ → ℕ → List ℕ → List ℕ
copy_node buf total offset node =
    if leb (length node) (total - offset)
    then write_at buf offset node
    else write_at buf offset (replicate (total - offset) 0)

unfoldable pub copy_nodes : List ℕ → ℕ → ℕ → List (List ℕ) → List ℕ × ℕ
copy_nodes buf total offset [] = (buf, offset)
copy_nodes buf total offset (node ∷ nodes) =
    copy_nodes (copy_node buf total offset node) total (u32 (offset + length node)) nodes

abbrev pub is_empty : List (List ℕ) → Bool
is_empty [] = true
is_empty (_ ∷ _) = false

-- The buffer with its length, a uint16_t; `none` where the output pointers are left alone.
unfoldable pub recv_data_get : Bool → T1State → T1State × EseStatus × Option (List ℕ × ℕ)
recv_data_get mem s =
    if is_empty s.recv || s.recv_total == 0
    then (list_destroy s, invalid_parameter, none)
    else if not mem
    then (list_destroy s, mem_exception, none)
    else let (buf, offset) = copy_nodes (replicate s.recv_total 0) s.recv_total 0 s.recv in
      (list_destroy s, success, some (buf, u16 offset))
