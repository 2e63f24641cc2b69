-- ===== src/Tml/MessageQueue/Fifo.antt =====
-- The linked list is a queue: a message that is sent goes to the end, and one is taken from the front.
use android_vendor_tms.Prelude.{
  ℕ, zero, suc, ◌<◌, true, false, Option, none, some, List, [], ◌∷◌, ◌++◌, ◌≡◌, ◌≢◌, ◌==◌, refl,
  sym, ap, ◌∙◌, length, arith,
}
use android_vendor_tms.Tml.MessageQueue.{Item, Heap, put, Queue, done, last, msg_snd, msg_rcv}

module _ {M : Type 0} where
  -- The items from an address on hold these messages, each linked to the next.
  abbrev pub Holds : Heap M → ℕ → List M → Type 0
  Holds h p [] = p ≡ 0
  Holds h p (x ∷ xs) =
      (p ≢ 0) × (it : Item M) × (h p ≡ some it) × (it.msg ≡ x) × Holds h it.p_next xs

  -- The list is determined by the heap, so that a list of items has no cycle.
  same_length :
      (h : Heap M) (p : ℕ) (xs ys : List M) → Holds h p xs → Holds h p ys → length xs ≡ length ys
  same_length h p [] [] v w = refl
  same_length h p [] (y ∷ ys) v (n, it, e, k, w) = absurd (n v)
  same_length h p (x ∷ xs) [] (n, it, e, k, v) w = absurd (n w)
  same_length h p (x ∷ xs) (y ∷ ys) (n, it, e, k, v) (n', it', e', k', w) =
      let same : it ≡ it' = cc in ap suc (same_length h it'.p_next xs ys (rw (← same) v) w)

  pub put-other : (h : Heap M) (p q : ℕ) (v : Option (Item M)) → q ≢ p → put h p v q ≡ h q
  put-other h p q v n = ground arith

  pub put-same : (h : Heap M) (p : ℕ) (v : Option (Item M)) → put h p v p ≡ v
  put-same h p v = ground arith

  apart :
      (h : Heap M) (p q : ℕ) (xs ys : List M)
      → Holds h p xs
      → Holds h q ys
      → length ys < length xs
      → q ≢ p
  apart h p q xs ys a b l e = omega (arith, same_length h p xs ys a (rw (← e) b))

  -- Freeing an item leaves the shorter lists.
  put-Holds :
      (h : Heap M) (p q : ℕ) (v : Option (Item M)) (xs ys : List M)
      → Holds h p xs
      → Holds h q ys
      → length ys < length xs
      → Holds (put h p v) q ys
  put-Holds h p q v xs [] a b l = b
  put-Holds h p q v xs (y ∷ ys) a (n, it, e, k, b) l = (
    n,
    it,
    put-other h p q v (apart h p q xs (y ∷ ys) a (n, it, e, k, b) l) ∙ e,
    k,
    put-Holds h p it.p_next v xs ys a b (omega arith),
  )

  -- The heap `t` is `h` with the item at `l` linked to a new one at `a`.
  abbrev Extends : Heap M → Heap M → ℕ → Item M → ℕ → M → Type 0
  Extends h t l last_it a m =
      ((q : ℕ) → q ≢ l → h q ≢ none → t q ≡ h q)
      × (t l ≡ some (record last_it { p_next = a }))
      × (new : Item M) × (t a ≡ some new)
      × (new.msg ≡ m)
      × (new.p_next ≡ 0)

  -- The heap `u` has what `h` has, and may have more.
  abbrev Keeps : Heap M → Heap M → Type 0
  Keeps h u = (q : ℕ) → h q ≢ none → u q ≡ h q

  not_last :
      (h : Heap M) (p l : ℕ) (it end : Item M)
      → h p ≡ some it
      → h l ≡ some end
      → end.p_next ≡ 0
      → it.p_next ≢ 0
      → p ≢ l
  not_last h p l it end e f z n q =
      let same : it ≡ end = cc in n (ap (λ (i : Item M). i.p_next) same ∙ z)

  not_none : (h : Heap M) (p : ℕ) (it : Item M) → h p ≡ some it → h p ≢ none
  not_none h p it e q = cc

  -- The last item, found by the loop, and what linking a new one to it gives.
  abbrev Ends : ℕ → Heap M → ℕ → List M → Type 0
  Ends fuel h p xs =
      (l : ℕ) × (it : Item M) × ((u : Heap M) → Keeps h u → last fuel u p ≡ some l)
      × (h l ≡ some it)
      × (it.p_next ≡ 0)
      × ((t : Heap M) (a : ℕ) (m : M) → a ≢ 0 → Extends h t l it a m → Holds t p (xs ++ m ∷ []))

  last-Ends :
      (fuel : ℕ) (h : Heap M) (p : ℕ) (x : M) (xs : List M)
      → Holds h p (x ∷ xs)
      → length xs < fuel
      → Ends fuel h p (x ∷ xs)
  unfolding last
  last-Ends zero h p x xs v f = absurd (omega arith)
  last-Ends (suc fuel) h p x [] (n, it, e, k, v) f = (
    p,
    it,
    λ u c. ground (arith, c p (not_none h p it e) ∙ e, v),
    e,
    v,
    λ t a m z (o, c, new, b, g, w). (n, record it { p_next = a }, c, k, (z, new, b, g, w)),
  )
  last-Ends (suc fuel) h p x (y ∷ ys) (n, it, e, k, v) f =
      let (l, end, found, at, stop, more) = last-Ends fuel h it.p_next y ys v (omega arith) in
      (
        l,
        end,
        λ u c. ground (arith, c p (not_none h p it e) ∙ e, found u c, v.0),
        at,
        stop,
        λ t a m z w. (
          n,
          it,
          w.0 p (not_last h p l it end e at stop v.0) (not_none h p it e) ∙ e,
          k,
          more t a m z w,
        ),
      )

  -- The queue holds these messages in order, and the semaphore counts them.
  pub record Contents (s : Queue M) (xs : List M) : Type 0 where
    pub holds : Holds s.heap s.items xs
    pub counted : s.posted ≡ length xs

  length-snoc : (xs : List M) (m : M) → length (xs ++ m ∷ []) ≡ suc (length xs)
  length-snoc [] m = refl
  length-snoc (x ∷ xs) m = ap suc (length-snoc xs m)

  abbrev pub fresh : M → Item M
  fresh m = record { msg = m; p_prev = 0; p_next = 0 }

  -- The state after a message was linked to the item `it` at `l`.
  abbrev pub linked_to : Queue M → ℕ → M → ℕ → Item M → Queue M
  linked_to s a m l it = record s {
    heap =
        put (put (put s.heap a (some (fresh m))) l (some (record it { p_next = a }))) a
          (some (record { msg = m; p_prev = l; p_next = 0 }));
    posted = suc s.posted;
  }

  pub snd-linked :
      (fuel a : ℕ) (m : M) (s : Queue M) (l : ℕ) (it : Item M)
      → s.items ≢ 0
      → last fuel (put s.heap a (some (fresh m))) s.items ≡ some l
      → put s.heap a (some (fresh m)) l ≡ some it
      → msg_snd fuel (some a) m s ≡ done (linked_to s a m l it) true
  unfolding msg_snd
  snd-linked fuel a m s l it z found at =
      let no : (s.items == 0) ≡ false = ground arith in rw (no, found, at)

  put-twice :
      (h : Heap M) (a l q : ℕ) (u v w : Option (Item M))
      → q ≢ a
      → q ≢ l
      → put (put (put h a u) l v) a w q ≡ h q
  put-twice h a l q u v w i j = ground arith

  pub put-middle :
      (h : Heap M) (a l : ℕ) (u v w : Option (Item M)) → l ≢ a → put (put (put h a u) l v) a w l ≡ v
  put-middle h a l u v w i = ground arith

  differs : (h : Heap M) (a q : ℕ) → h a ≡ none → h q ≢ none → q ≢ a
  differs h a q n j e = j (ap h e ∙ n)

  -- A message that is sent with an allocation that succeeds, at an address other than NULL where
  -- nothing is allocated, and with a round of the loop for each message there and one more, is
  -- accepted and stands behind the messages of the queue.
  pub msg_snd-Contents :
      (fuel a : ℕ) (m : M) (s : Queue M) (xs : List M)
      → Contents s xs
      → length xs < fuel
      → a ≢ 0
      → s.heap a ≡ none
      → (t : Queue M) × (msg_snd fuel (some a) m s ≡ done t true) × Contents t (xs ++ m ∷ [])
  unfolding msg_snd
  msg_snd-Contents fuel a m s [] v f z n =
      let t : Queue M = record s {
        heap = put s.heap a (some (fresh m));
        items = a;
        posted = suc s.posted;
      } in
      (
        t,
        ground (arith, v.holds),
        record {
          holds = (z, fresh m, put-same s.heap a (some (fresh m)), refl, refl);
          counted = ap suc v.counted;
        },
      )
  msg_snd-Contents fuel a m s (x ∷ xs) v f z n =
      let (l, it, found, at, stop, more) =
        last-Ends fuel s.heap s.items x xs v.holds (omega arith) in
      let u : Heap M = put s.heap a (some (fresh m)) in
      let keeps : Keeps s.heap u =
        λ q j. put-other s.heap a q (some (fresh m)) (differs s.heap a q n j) in
      let l_a : l ≢ a = differs s.heap a l n (not_none s.heap l it at) in
      let new : Item M = record { msg = m; p_prev = l; p_next = 0 } in
      let t = linked_to s a m l it in
      let extends : Extends s.heap t.heap l it a m = (
        λ q i j. put-twice s.heap a l q _ _ _ (differs s.heap a q n j) i,
        put-middle s.heap a l _ _ _ l_a,
        new,
        put-same (put u l (some (record it { p_next = a }))) a (some new),
        refl,
        refl,
      ) in
      (
        t,
        snd-linked fuel a m s l it v.holds.0 (found u keeps)
            (put-other s.heap a l (some (fresh m)) l_a ∙ at),
        record {
          holds = more t.heap a m z extends;
          counted = ap suc v.counted ∙ sym (length-snoc (x ∷ xs) m);
        },
      )

  -- Where the queue holds messages, dal4NfcMsgRcv does not wait: it takes the first one, and the
  -- queue holds the others.
  pub msg_rcv-Contents :
      (s : Queue M) (x : M) (xs : List M)
      → Contents s (x ∷ xs)
      → (t : Queue M) × (msg_rcv s ≡ done t (some x)) × Contents t xs
  unfolding msg_rcv
  msg_rcv-Contents s x xs v =
      let (n, it, e, k, w) = v.holds in
      (
        record s { heap = put s.heap s.items none; items = it.p_next; posted = length xs },
        ground (arith, v.counted, e, k, n),
        record {
          holds = put-Holds s.heap s.items it.p_next none (x ∷ xs) xs v.holds w (omega arith);
          counted = refl;
        },
      )
