-- ===== src/Ese/RecvList/Laws.antt =====
-- The received segments are handed out as one buffer, in the order of their arrival.
use mathlib.Core.List.{append_assoc, append-nil}
use android_vendor_tms.Prelude.{
  ℕ, zero, suc, ◌+◌, ◌-◌, ◌≤◌, ◌<◌, Bool, true, false, Option, some, List, [], ◌∷◌, ◌++◌, ◌≡◌, ◌==◌,
  refl, sym, ap, ◌∙◌, leb, length, length-append, take, drop, length-take, length-drop, replicate,
  write_at, u16, u32, arith,
}
use android_vendor_tms.Ese.Types.{EseStatus, success, T1State}
use android_vendor_tms.Ese.RecvList.{
  store_in_list, list_destroy, copy_node, copy_nodes, is_empty, recv_data_get,
}

-- The bytes of the segments, in order.
abbrev pub concat : List (List ℕ) → List ℕ
concat [] = []
concat (node ∷ nodes) = node ++ concat nodes

concat-append : (xs ys : List (List ℕ)) → concat (xs ++ ys) ≡ concat xs ++ concat ys
concat-append [] ys = refl
concat-append (x ∷ xs) ys =
    ap (◌++◌ x) (concat-append xs ys) ∙ sym (append_assoc x (concat xs) (concat ys))

write-front :
    (node rest : List ℕ)
    → length node ≤ length rest
    → write_at rest 0 node ≡ node ++ drop (length node) rest
write-front [] [] h = refl
write-front [] (r ∷ rest) h = refl
write-front (n ∷ node) [] h = absurd (omega arith)
write-front (n ∷ node) (r ∷ rest) h = ap (◌∷◌ n) (write-front node rest (omega arith))

write-append :
    (done rest node : List ℕ)
    → length node ≤ length rest
    → write_at (done ++ rest) (length done) node ≡ done ++ (node ++ drop (length node) rest)
write-append [] rest node h = write-front node rest h
write-append (x ∷ done) rest node h = ap (◌∷◌ x) (write-append done rest node h)

abbrev zeros : ℕ → List ℕ
zeros k = replicate k 0

zeros_eq : {m n : ℕ} → m ≡ n → zeros m ≡ zeros n
zeros_eq e = ap zeros e

drop-zeros : (n k : ℕ) → drop n (zeros k) ≡ zeros (k - n)
drop-zeros zero k = zeros_eq (omega arith)
drop-zeros (suc n) zero = zeros_eq {m = 0} {n = 0 - suc n} (omega arith)
drop-zeros (suc n) (suc k) = drop-zeros n k ∙ zeros_eq {m = k - n} {n = suc k - suc n} (omega arith)

length-zeros : (k : ℕ) → length (zeros k) ≡ k
length-zeros zero = refl
length-zeros (suc k) = ap suc (length-zeros k)

copy_node-fits :
    (done node : List ℕ) (k total : ℕ)
    → length node ≤ k
    → total ≡ length done + k
    → copy_node (done ++ zeros k) total (length done) node
      ≡ (done ++ node) ++ zeros (k - length node)
unfolding copy_node
copy_node-fits done node k total h e =
    let fits : leb (length node) (total - length done) ≡ true = ground arith in
    rw fits (
      write-append done (zeros k) node (omega (arith, length-zeros k))
      ∙ ap (λ (r : List ℕ). done ++ (node ++ r)) (drop-zeros (length node) k)
      ∙ sym (append_assoc done node (zeros (k - length node))))

-- The loop, from the state in which `done` has been copied.
copy_nodes-concat :
    (nodes : List (List ℕ)) (done : List ℕ) (k total : ℕ)
    → length (concat nodes) ≡ k
    → total ≡ length done + k
    → total < 4294967296
    → copy_nodes (done ++ zeros k) total (length done) nodes ≡ (done ++ concat nodes, total)
unfolding copy_nodes
copy_nodes-concat [] done k total e f h =
    rw (← e) (ap {B = List ℕ × ℕ} (λ n. (done ++ [], n)) (omega arith))
copy_nodes-concat (node ∷ nodes) done k total e f h =
    let sizes = length-append node (concat nodes) in
    let next : u32 (length done + length node) ≡ length (done ++ node) =
      omega (arith, length-append done node) in
    rw (copy_node-fits done node k total (omega arith) f, next)
      (copy_nodes-concat nodes (done ++ node) (k - length node) total (omega arith)
          (omega (arith, length-append done node)) h
        ∙ ap {B = List ℕ × ℕ} (λ bs. (bs, total)) (append_assoc done node (concat nodes)))

-- gRecvTotalLen is the number of bytes in the list, and fits 32 bits.
pub record IsListed (s : T1State) : Type 0 where
  pub counted : s.recv_total ≡ length (concat s.recv)
  pub small : s.recv_total < 4294967296

not_empty : (nodes : List (List ℕ)) → 0 < length (concat nodes) → is_empty nodes ≡ false
not_empty [] h = absurd (omega arith)
not_empty (node ∷ nodes) h = refl

-- A list that holds bytes is handed out whole and in order, with its length in 16 bits, and is
-- emptied.
recv_data_get-concat :
    (s : T1State)
    → IsListed s
    → 0 < s.recv_total
    → recv_data_get true s
      ≡ (list_destroy s, success, some (concat s.recv, u16 (length (concat s.recv))))
unfolding recv_data_get
recv_data_get-concat s v h =
    let copied : copy_nodes (zeros s.recv_total) s.recv_total 0 s.recv
        ≡ (concat s.recv, s.recv_total) =
      copy_nodes-concat s.recv [] s.recv_total s.recv_total (sym v.counted) (omega arith) v.small in
    let filled : is_empty s.recv ≡ false = not_empty s.recv (omega (arith, v.counted)) in
    let some_bytes : (s.recv_total == 0) ≡ false = ground arith in
    rw (filled, some_bytes, copied) (ap got v.counted)
  where
    got : ℕ → T1State × EseStatus × Option (List ℕ × ℕ)
    got n = (list_destroy s, success, some (concat s.recv, u16 n))

-- The state with one more segment.
abbrev with_segment : T1State → List ℕ → ℕ → T1State
with_segment s seg n = record s { recv = s.recv ++ seg ∷ []; recv_total = u32 (s.recv_total + n) }

store-success :
    (mem : Bool) (s : T1State) (buf : List ℕ) (offset n total_len : ℕ)
    → (store_in_list mem s buf offset n total_len).1 ≡ success
    → (0 < n)
      × ((store_in_list mem s buf offset n total_len).0
          ≡ with_segment s (take n (drop offset buf)) n)
unfolding store_in_list
store-success true s buf offset n total_len e = ground arith
store-success false s buf offset n total_len e = ground arith

length-slice :
    (buf : List ℕ) (offset n : ℕ) → offset + n ≤ length buf → length (take n (drop offset buf)) ≡ n
length-slice buf offset n h = omega (arith, length-take n (drop offset buf), length-drop offset buf)

concat-last :
    (nodes : List (List ℕ)) (seg : List ℕ) → concat (nodes ++ seg ∷ []) ≡ concat nodes ++ seg
concat-last nodes seg =
    concat-append nodes (seg ∷ []) ∙ ap (λ (r : List ℕ). concat nodes ++ r) (append-nil seg)

with_segment-IsListed :
    (s : T1State) (seg : List ℕ) (n : ℕ)
    → length seg ≡ n
    → s.recv_total + n < 4294967296
    → IsListed s
    → IsListed (with_segment s seg n)
with_segment-IsListed s seg n e h v = record {
  counted =
      omega
        (arith, v.counted, ap length (concat-last s.recv seg), length-append (concat s.recv) seg);
  small = omega arith;
}

-- From a list whose count is right, with the new count below 2^32 and the INF bytes inside the
-- block, a segment that is stored successfully comes out last: the buffer handed out is what the
-- list held before, even what an earlier command left there, followed by the INF bytes of the
-- block, with its length in 16 bits, and the list is emptied.
pub recv_data_get-store_in_list :
    (mem : Bool) (s : T1State) (buf : List ℕ) (offset n total_len : ℕ)
    → IsListed s
    → s.recv_total + n < 4294967296
    → offset + n ≤ length buf
    → (store_in_list mem s buf offset n total_len).1 ≡ success
    → let t = (store_in_list mem s buf offset n total_len).0 in
      let out = concat s.recv ++ take n (drop offset buf) in
      recv_data_get true t ≡ (list_destroy t, success, some (out, u16 (length out)))
recv_data_get-store_in_list mem s buf offset n total_len v small fits e =
    let (pos, same) = store-success mem s buf offset n total_len e in
    let seg = take n (drop offset buf) in
    let w = with_segment-IsListed s seg n (length-slice buf offset n fits) small v in
    rw same (
      recv_data_get-concat (with_segment s seg n) w (omega arith)
      ∙ ap (handed_out (with_segment s seg n)) (concat-last s.recv seg))
  where
    handed_out : T1State → List ℕ → T1State × EseStatus × Option (List ℕ × ℕ)
    handed_out t out = (list_destroy t, success, some (out, u16 (length out)))
