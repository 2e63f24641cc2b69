-- ===== src/Download/Parse/Ends.antt =====
-- The end of a line of a script keeps to the read buffer, and parseCmd returns.
use native.Mathlib.Decide.{ℕ_discrete}
use android_vendor_tms.Prelude.{
  ℕ, zero, suc, ◌+◌, ◌-◌, ◌≤◌, ◌<◌, true, Option, none, some, List, ◌≡◌, ◌==◌, refl, length, get_or,
  set, bit_xor, arith, u16, Bool-cases, inl, inr,
}
use android_vendor_tms.Prelude.Outcome.{
  Outcome, ◌>>=◌, Returns, then-Returns, if-Returns, map-Returns,
}
use android_vendor_tms.Download.Buffer.{load-Returns, store-Returns}
use android_vendor_tms.Download.Script.{dl_cmd_invalid, dl_cmd_raw, dl_cmd_assert, same_type}
use android_vendor_tms.Download.Parse.{
  Line, CmdAt, scan, is_visible, put_visible, end_text, put_last, drop_cr, finish_buffer,
  finish_line, check_assert_cmd, finish_cmd, Parsed, with_cmd, end_line, parse_cmd,
}
use android_vendor_tms.Download.Parse.Bounds.{Split, InLine, InLineTo, Split-set, scan-InLineTo}

-- A text in a buffer of `n` bytes, with its last '\0'.
pub record Ended (n : ℕ) (l : Line) : Type 0 where
  pub size : length l.buf ≡ n
  pub start_le : l.val_start ≤ l.val_index
  pub inside : l.val_index < n

-- A buffer of `n` bytes and an index from `from` to `to`.
abbrev Put : ℕ → ℕ → ℕ → List ℕ × ℕ → Type 0
Put n from to (buf, i) = (length buf ≡ n) × ((from ≤ i) × (i ≤ to))

put_visible-Returns :
    {B : Type 0} (P : B → Type 0) (n from to c : ℕ) (buf : List ℕ) (i : ℕ)
    (f : List ℕ × ℕ → Outcome B)
    → Put n from to (buf, i)
    → to < n
    → ((r : List ℕ × ℕ) → Put n from (to + 1) r → Returns P (f r))
    → Returns P (put_visible c buf i >>= f)
put_visible-Returns P n from to c buf i f (e, (a, b)) h k =
    then-Returns Q P (put_visible c buf i) f
      (if-Returns Q (is_visible c) _ _
        (λ _. store-Returns Q buf i n c _ e (omega arith) (λ g. (g, (omega arith, omega arith))))
        (λ _. (e, (omega arith, omega arith))))
      k
  where
    Q : List ℕ × ℕ → Type 0
    Q = Put n from (to + 1)

end_text-Ended :
    (n : ℕ) (l : Line) (r : List ℕ × ℕ)
    → Put n l.val_start (n - 1) r
    → 0 < n
    → Returns (Ended n) (end_text l r)
end_text-Ended n l (buf, i) (e, (a, b)) h =
    store-Returns (Ended n) buf i n 0 _ e (omega arith)
      (λ f. record { size = f; start_le = a; inside = omega arith })

put_last-Ended :
    (n max_len : ℕ) (l : Line) (r : List ℕ × ℕ)
    → Put n l.val_start (max_len - 2 + 1) r
    → 2 ≤ max_len
    → n ≡ max_len + 1
    → Returns (Ended n) (put_last max_len l r)
put_last-Ended n max_len l (buf, i) (e, (a, b)) h k =
    load-Returns (Ended n) buf (max_len - 1) n _ e (omega arith) (
      put_visible-Returns (Ended n) n l.val_start (max_len - 2 + 1) (get_or buf (max_len - 1) 0) buf
        i (end_text l) (e, (a, b)) (omega arith)
        (λ r (e1, (a1, b1)). end_text-Ended n l r (e1, (a1, omega arith)) (omega arith)))

finish_buffer-Ended :
    (n max_len : ℕ) (l : Line)
    → InLine n l
    → l.offset ≡ max_len - 2
    → 2 ≤ max_len
    → n ≡ max_len + 1
    → Returns (Ended n) (finish_buffer max_len l)
unfolding finish_buffer
finish_buffer-Ended n max_len l v o h k =
    load-Returns P l.buf (max_len - 1) n _ v.size (omega arith) (
      store-Returns P l.buf (max_len - 1) n _ _ v.size (omega arith) (λ e1.
        load-Returns P buf (max_len - 2) n _ e1 (omega arith) (
          put_visible-Returns P n l.val_start (max_len - 2) (get_or buf (max_len - 2) 0) buf
            l.val_index (put_last max_len l) (e1, (v.split.start_le, omega (arith, v.index_le)))
            (omega arith) (λ r w. put_last-Ended n max_len l r w h k))))
  where
    P : Line → Type 0
    P = Ended n

    buf : List ℕ
    buf = set l.buf (max_len - 1) (bit_xor (get_or l.buf (max_len - 1) 0) 0x84)

-- A '\r' before the end of a text is not the byte before the text.
cr-inside :
    (l : Line)
    → Split l
    → 0 < l.val_index
    → get_or l.buf (l.val_index - 1) 0 ≡ b'\r'
    → l.val_start ≤ l.val_index - 1
cr-inside l s h e = elim (Bool-cases l.is_key_split) [
  | inl t ↦ absurd (omega (arith, s.key t))
  | inr t ↦ elim (ℕ_discrete l.val_start l.val_index) [
    | yes f ↦ absurd (s.no_cr t (rw f e))
    | no f ↦ omega (arith, s.start_le)
  ]
]

drop_cr-Ended :
    (n : ℕ) (l : Line)
    → length l.buf ≡ n
    → Split l
    → l.val_index < n
    → 0 < l.val_index
    → Returns (Ended n) (drop_cr l)
drop_cr-Ended n l e s h k = load-Returns P l.buf (l.val_index - 1) n _ e (omega arith) (
    if-Returns P (get_or l.buf (l.val_index - 1) 0 == b'\r') _ _
      (λ c.
        store-Returns P l.buf (l.val_index - 1) n 0 _ e (omega arith) (λ f. record {
          size = f;
          start_le = cr-inside l s k (ground arith);
          inside = omega arith;
        }))
      (λ _. record { size = e; start_le = s.start_le; inside = h }))
  where
    P : Line → Type 0
    P = Ended n

finish_line-Ended :
    (n : ℕ) (l : Line) → InLine n l → l.offset < n → Returns (Ended n) (finish_line l)
unfolding finish_line
finish_line-Ended n l v h =
    store-Returns P l.buf l.val_index n 0 _ v.size (omega (arith, v.index_le)) (λ e.
      let ended : Line = record l { buf = set l.buf l.val_index 0 } in
      if-Returns P (l.val_index == 0) _ _
        (λ _. record { size = e; start_le = v.split.start_le; inside = omega (arith, v.index_le) })
        (λ z.
          drop_cr-Ended n ended e (Split-set l l.val_index 0 v.split v.split.start_le)
            (omega (arith, v.index_le)) (ground arith)))
  where
    P : Line → Type 0
    P = Ended n

-- A buffer of `n` bytes, and a command's text that ends before its last one.
pub record CmdInside (n : ℕ) (buf : List ℕ) (c : CmdAt) : Type 0 where
  pub size : length buf ≡ n
  pub text : c.start + c.cmd_len < n

check_assert_cmd-Put :
    (n len start : ℕ) (buf : List ℕ)
    → length buf ≡ n
    → start + len < n
    → Returns (Put n 0 len) (check_assert_cmd len start buf)
unfolding check_assert_cmd
check_assert_cmd-Put n zero start buf e h = (e, (omega arith, omega arith))
check_assert_cmd-Put n (suc len) start buf e h =
    load-Returns P buf (start + len) n _ e (omega arith) (
      if-Returns P (get_or buf (start + len) 0 == b'*') _ _
        (λ _. store-Returns P buf (start + len) n 0 _ e (omega arith) (λ f.
          map-Returns (Put n 0 len) P (check_assert_cmd len start (set buf (start + len) 0))
            (λ r (g, (a, b)). (g, (a, omega arith)))
            (check_assert_cmd-Put n len start (set buf (start + len) 0) f (omega arith))))
        (λ _. (e, (omega arith, omega arith))))
  where
    P : List ℕ × ℕ → Type 0
    P = Put n 0 (suc len)

abbrev Given : ℕ → List ℕ × CmdAt → Type 0
Given n r = CmdInside n r.0 r.1

finish_cmd-Given : (n : ℕ) (l : Line) → Ended n l → Returns (Given n) (finish_cmd l)
unfolding finish_cmd
finish_cmd-Given n l v =
    if-Returns (Given n) (same_type dl_cmd_raw l.cmd_type) _ _
      (λ _. record { size = v.size; text = short })
      (λ _.
        if-Returns (Given n) (same_type dl_cmd_assert l.cmd_type) _ _
          (λ _.
            then-Returns (Put n 0 len) (Given n) (check_assert_cmd len l.val_start l.buf) _
              (check_assert_cmd-Put n len l.val_start l.buf v.size short)
              (λ r (e, (a, b)). record { size = e; text = omega (arith, short) }))
          (λ _. record { size = v.size; text = short }))
  where
    len : ℕ
    len = u16 (l.val_index + 65536 - l.val_start)

    short : l.val_start + len < n
    short = omega (arith, v.start_le, v.inside)

abbrev pub TextInside : ℕ → Option CmdAt → Type 0
TextInside n none = Unit
TextInside n (some c) = c.start + c.cmd_len < n

-- What parseCmd returns: an offset from `from` to `to`, and a command within the buffer.
pub record IsParsed (n from to : ℕ) (p : Parsed) : Type 0 where
  pub size : length p.buf ≡ n
  pub from_le : from ≤ p.offset
  pub le_to : p.offset ≤ to
  pub inside : TextInside n p.cmd

end_line-IsParsed :
    (n max_len from : ℕ) (l : Line)
    → 2 ≤ max_len
    → n ≡ max_len + 1
    → InLineTo n from (max_len - 2) l
    → Returns (IsParsed n from (max_len - 2)) (end_line max_len l)
end_line-IsParsed n max_len from l h k (v, (a, b)) =
    if-Returns P (l.tag_start == l.offset) _ _
      (λ _. record { size = v.size; from_le = a; le_to = b; inside = tt })
      (λ _.
        then-Returns (Given n) P _ (with_cmd l.offset)
          (then-Returns (Ended n) (Given n) _ finish_cmd
            (if-Returns (Ended n) (l.offset == max_len - 2) _ _
              (λ e. finish_buffer-Ended n max_len l v (ground arith) h k)
              (λ _. finish_line-Ended n l v (omega arith)))
            (λ r w. finish_cmd-Given n r w))
          (λ r w. record { size = w.size; from_le = a; le_to = b; inside = w.text }))
  where
    P : Parsed → Type 0
    P = IsParsed n from (max_len - 2)

-- parseCmd, called for a buffer of one byte more than `max_len` at an offset with two bytes left,
-- returns, and has read and written within the buffer only.
pub parse_cmd-IsParsed :
    (max_len offset : ℕ) (buf : List ℕ)
    → length buf ≡ max_len + 1
    → offset + 2 ≤ max_len
    → Returns (IsParsed (max_len + 1) offset (max_len - 2)) (parse_cmd buf offset max_len)
unfolding parse_cmd
parse_cmd-IsParsed max_len offset buf e h =
    then-Returns (InLineTo (max_len + 1) offset (max_len - 2))
      (IsParsed (max_len + 1) offset (max_len - 2)) (scan (max_len - 2 - offset) first_line)
      (end_line max_len)
      (scan-InLineTo (max_len + 1) (max_len - 2 - offset) (max_len - 2) first_line first_line-InLine
        (omega arith) (omega arith))
      (λ l v. end_line-IsParsed (max_len + 1) max_len offset l (omega arith) refl v)
  where
    first_line : Line
    first_line = record {
      buf = buf;
      offset = offset;
      tag_start = offset;
      val_start = 0;
      val_index = 0;
      is_key_split = true;
      cmd_type = dl_cmd_invalid;
    }

    first_line-InLine : InLine (max_len + 1) first_line
    first_line-InLine = record {
      size = e;
      index_le = omega arith;
      split = record {
        start_le = omega arith;
        key = λ f. refl;
        positive = λ f. ground arith;
        no_cr = λ f. ground arith;
      };
    }
