-- ===== src/Download/Parse/Script/Total.antt =====
-- Every script is read to its end, within the read buffer.
use android_vendor_tms.Prelude.{
  ℕ, zero, suc, ◌+◌, ◌-◌, ◌≤◌, ◌<◌, ◌&&◌, Option, none, some, List, [], ◌∷◌, ◌++◌, ◌≡◌, ◌==◌, refl,
  ap, length, length-append, map, get_or, ltb, lt→ltb, ltb→lt, bit_xor, arith,
}
use android_vendor_tms.Prelude.Outcome.{
  Outcome, returned, fault, unfinished, ◌>>=◌, Returns, then-Returns, if-Returns, map-Returns,
}
use android_vendor_tms.Download.Buffer.{load, load-Returns, store-Returns}
use android_vendor_tms.Download.Script.{VtpDlCmd}
use android_vendor_tms.Download.Parse.{CmdAt, parse_cmd}
use android_vendor_tms.Download.Parse.Ends.{IsParsed, parse_cmd-IsParsed}
use android_vendor_tms.Download.Parse.Script.{
  Script, key_of, reveal, skip_comment, add_cmd, add_line, read_line, read_round, read_rounds,
  cmd_text, cmds_of, parse_bin_sc,
}

-- A buffer of one byte more than the script has, and no more commands than bytes passed.
pub record InScript (count : ℕ) (s : Script) : Type 0 where
  pub size : length s.buf ≡ count + 1
  pub cmds_le : length s.cmds ≤ s.index
  pub index_le : s.index ≤ count

key_of-Returns :
    {B : Type 0} (P : B → Type 0) (count i : ℕ) (buf : List ℕ) (f : ℕ → Outcome B)
    → length buf ≡ count + 1
    → i < count
    → ((k : ℕ) → Returns P (f k))
    → Returns P (key_of count i buf >>= f)
key_of-Returns P count i buf f e h k =
    then-Returns (λ _. Unit) P (key_of count i buf) f
      (if-Returns (λ _. Unit) (ltb i (count - 1)) (load buf (i + 1)) (returned 0x84)
        (λ b. let inside = lt→ltb (i + 1) (count + 1) (omega arith) in rw (e, inside) tt) (λ _. tt))
      (λ a _. k a)

reveal-Returns :
    {B : Type 0} (P : B → Type 0) (count i : ℕ) (buf : List ℕ) (f : List ℕ × ℕ → Outcome B)
    → length buf ≡ count + 1
    → i < count
    → ((buf' : List ℕ) (c : ℕ) → length buf' ≡ count + 1 → Returns P (f (buf', c)))
    → Returns P (reveal count i buf >>= f)
reveal-Returns P count i buf f e h k =
    then-Returns Q P (reveal count i buf) f
      (key_of-Returns Q count i buf _ e h (λ x.
        load-Returns Q buf i (count + 1) _ e (omega arith)
          (store-Returns Q buf i (count + 1) _ _ e (omega arith) (λ g. g))))
      (λ r g. k r.0 r.1 g)
  where
    Q : List ℕ × ℕ → Type 0
    Q r = length r.0 ≡ count + 1

-- Before the last step of a round, from an index on.
record InRound (count from : ℕ) (s : Script) : Type 0 where
  pub size : length s.buf ≡ count + 1
  pub cmds_le : length s.cmds ≤ s.index + 1
  pub from_le : from ≤ s.index
  pub index_lt : s.index < count

skip_comment-InRound :
    (rounds count : ℕ) (s : Script)
    → InScript count s
    → s.index + rounds < count
    → Returns (InRound count s.index) (skip_comment rounds count s)
unfolding skip_comment
skip_comment-InRound zero count s v h = record {
  size = v.size;
  cmds_le = omega (arith, v.cmds_le);
  from_le = omega arith;
  index_lt = omega arith;
}
skip_comment-InRound (suc n) count s v h =
    reveal-Returns P count (s.index + 1) s.buf _ v.size (omega arith) (λ buf c e.
      let at : Script = record s { buf = buf; index = s.index + 1 } in
      let w : InScript count at = record {
        size = e;
        cmds_le = omega (arith, v.cmds_le);
        index_le = omega arith;
      } in
      if-Returns P (c == b'\n') _ _
        (λ _. record {
          size = e;
          cmds_le = omega (arith, v.cmds_le);
          from_le = omega arith;
          index_lt = omega arith;
        })
        (λ _.
          map-Returns (InRound count (s.index + 1)) P _
            (λ r z. record {
              size = z.size;
              cmds_le = z.cmds_le;
              from_le = omega (arith, z.from_le);
              index_lt = z.index_lt;
            })
            (skip_comment-InRound n count at w (omega arith))))
  where
    P : Script → Type 0
    P = InRound count s.index

length-add_cmd : (cs : List CmdAt) (c : Option CmdAt) → length (add_cmd cs c) ≤ length cs + 1
length-add_cmd cs none = omega arith
length-add_cmd cs (some c) = omega (arith, length-append cs (c ∷ []))

read_line-InRound :
    (count c : ℕ) (s : Script)
    → InScript count s
    → s.index + 1 < count
    → Returns (InRound count s.index) (read_line count c s)
unfolding read_line
read_line-InRound count c s v h =
    load-Returns P s.buf (s.index + 1) (count + 1) _ v.size (omega arith) (
      load-Returns P s.buf (s.index + 2) (count + 1) _ v.size (omega arith) (
        if-Returns P (c == b'\r' && (lf == b'\n' && s.start == s.index)) _ _
          (λ _. store-Returns P s.buf (s.index + 1) (count + 1) lf _ v.size (omega arith) (λ e.
            record {
              size = e;
              cmds_le = omega (arith, v.cmds_le);
              from_le = omega arith;
              index_lt = omega arith;
            }))
          (λ _.
            if-Returns P (c == b'\n' && s.start == s.index) _ _
              (λ _. record {
                size = v.size;
                cmds_le = omega (arith, v.cmds_le);
                from_le = omega arith;
                index_lt = omega arith;
              })
              (λ _.
                then-Returns (IsParsed (count + 1) s.index (count - 2)) P
                  (parse_cmd s.buf s.index count) (add_line s)
                  (parse_cmd-IsParsed count s.index s.buf v.size (omega arith))
                  (λ p w. record {
                    size = w.size;
                    cmds_le = omega (arith, v.cmds_le, w.from_le, length-add_cmd s.cmds p.cmd);
                    from_le = w.from_le;
                    index_lt = omega (arith, w.le_to);
                  })))))
  where
    P : Script → Type 0
    P = InRound count s.index

    lf : ℕ
    lf = bit_xor (get_or s.buf (s.index + 1) 0) (get_or s.buf (s.index + 2) 0)

-- The next round's state, at a later index.
abbrev Later : ℕ → ℕ → Script → Type 0
Later count from s = InScript count s × (from < s.index)

read_round-Later :
    (count : ℕ) (s : Script)
    → InScript count s
    → s.index < count - 1
    → Returns (Later count s.index) (read_round count s)
unfolding read_round
read_round-Later count s v h =
    reveal-Returns P count s.index s.buf _ v.size (omega arith) (λ buf c e.
      let at : Script = record s { buf = buf } in
      let w : InScript count at = record { size = e; cmds_le = v.cmds_le; index_le = v.index_le } in
      then-Returns (InRound count s.index) P _ _
        (if-Returns (InRound count s.index) (c == b'#') _ _
          (λ _. skip_comment-InRound (count - 1 - s.index) count at w (omega arith))
          (λ _. read_line-InRound count c at w (omega arith)))
        (λ r z. (
          record { size = z.size; cmds_le = z.cmds_le; index_le = omega (arith, z.index_lt) },
          omega (arith, z.from_le),
        )))
  where
    P : Script → Type 0
    P = Later count s.index

read_rounds-InScript :
    (fuel count : ℕ) (s : Script)
    → InScript count s
    → count ≤ fuel + s.index
    → Returns (InScript count) (read_rounds fuel count s)
unfolding read_rounds
read_rounds-InScript zero count s v h =
    if-Returns (InScript count) (ltb s.index (count - 1)) _ _ (λ b. ground arith) (λ _. v)
read_rounds-InScript (suc fuel) count s v h =
    if-Returns (InScript count) (ltb s.index (count - 1)) _ _
      (λ b.
        then-Returns (Later count s.index) (InScript count) (read_round count s) _
          (read_round-Later count s v (ltb→lt s.index (count - 1) b))
          (λ r (w, later). read_rounds-InScript fuel count r w (omega arith)))
      (λ _. v)

length-map : {A B : Type 0} (f : A → B) (xs : List A) → length (map f xs) ≡ length xs
length-map f [] = refl
length-map f (x ∷ xs) = ap suc (length-map f xs)

-- ParseBinSC ends for every content of a script, reads and writes within the buffer that is one byte
-- longer than the script only, and gives no more commands than the script has bytes.
pub parse_bin_sc-returned :
    (bytes : List ℕ)
    → (cs : List VtpDlCmd) × (parse_bin_sc bytes ≡ returned cs) × (length cs ≤ length bytes)
unfolding parse_bin_sc
parse_bin_sc-returned bytes =
    found (read_rounds (length bytes) (length bytes) first)
      (read_rounds-InScript (length bytes) (length bytes) first first-InScript (omega arith))
  where
    first : Script
    first = record { buf = bytes ++ (0 ∷ []); index = 0; start = 0; cmds = [] }

    first-InScript : InScript (length bytes) first
    first-InScript = record {
      size = length-append bytes (0 ∷ []);
      cmds_le = omega arith;
      index_le = omega arith;
    }

    found :
        (o : Outcome Script)
        → Returns (InScript (length bytes)) o
        → (cs : List VtpDlCmd) × ((o >>= λ r. returned (cmds_of r)) ≡ returned cs)
          × (length cs ≤ length bytes)
    found (returned r) v =
        let n = length-map (cmd_text r.buf) r.cmds in
        (cmds_of r, refl, omega (arith, n, v.cmds_le, v.index_le))
    found fault v = absurd v
    found unfinished v = absurd v
