-- ===== src/Download/Parse/Bounds.antt =====
-- Reading a line keeps to the read buffer.
use android_vendor_tms.Prelude.{
  ℕ, zero, suc, ◌+◌, ◌-◌, ◌≤◌, ◌<◌, true, false, not, ◌&&◌, ◌||◌, List, ◌≡◌, ◌==◌, refl, ap, ◌≢◌,
  get_or, set, get_or-set_ne, get_or-set_self, length, ltb, arith,
}
use android_vendor_tms.Prelude.Outcome.{Returns, then-Returns, if-Returns, map-Returns}
use android_vendor_tms.Download.Buffer.{load-Returns, store-Returns}
use android_vendor_tms.Download.Parse.{Line, scan_key, scan_val, advance, scan_byte, scan}

-- Nothing of the text is read yet, or the byte before the text is no '\r'.
pub record Split (l : Line) : Type 0 where
  pub start_le : l.val_start ≤ l.val_index
  pub key : l.is_key_split ≡ true → l.val_index ≡ 0
  pub positive : l.is_key_split ≡ false → 0 < l.val_start
  pub no_cr : l.is_key_split ≡ false → get_or l.buf (l.val_start - 1) 0 ≢ b'\r'

-- A buffer of `n` bytes, and positions up to the offset.
pub record InLine (n : ℕ) (l : Line) : Type 0 where
  pub size : length l.buf ≡ n
  pub index_le : l.val_index ≤ l.offset
  pub split : Split l

-- With the offset `at`, before its byte is passed.
pub record InByte (n at : ℕ) (l : Line) : Type 0 where
  pub size : length l.buf ≡ n
  pub same : l.offset ≡ at
  pub index_le : l.val_index ≤ at + 1
  pub split : Split l

-- A write behind the byte before the text.
pub Split-set :
    (l : Line) (i v : ℕ) → Split l → l.val_start ≤ i → Split (record l { buf = set l.buf i v })
Split-set l i v s h = record {
  start_le = s.start_le;
  key = s.key;
  positive = s.positive;
  no_cr = λ e.
      rw (get_or-set_ne l.buf i (l.val_start - 1) v 0 (λ f. omega (arith, s.positive e)))
        (s.no_cr e);
}

Split-offset : (l : Line) (o : ℕ) → Split l → Split (record l { offset = o })
Split-offset l o s = record {
  start_le = s.start_le;
  key = s.key;
  positive = s.positive;
  no_cr = s.no_cr;
}

plus_minus : (i : ℕ) → i + 1 - 1 ≡ i
plus_minus i = omega arith

module _ (n : ℕ) where
  scan_key-InByte :
      (c : ℕ) (l : Line)
      → InLine n l
      → l.is_key_split ≡ true
      → l.offset < n
      → Returns (InByte n l.offset) (scan_key c l)
  unfolding scan_key
  scan_key-InByte c l v t h =
      if-Returns P (c == b' ' || c == b'\r') _ _
        (λ _.
          if-Returns P (l.tag_start == l.offset) _ _
            (λ _. record {
              size = v.size;
              same = refl;
              index_le = omega (arith, v.index_le);
              split = record {
                start_le = v.split.start_le;
                key = v.split.key;
                positive = v.split.positive;
                no_cr = v.split.no_cr;
              };
            })
            (λ _. store-Returns P l.buf l.offset n 0 _ v.size h (λ e. record {
              size = e;
              same = refl;
              index_le = omega arith;
              split = record {
                start_le = omega arith;
                key = λ f. ground arith;
                positive = λ f. omega arith;
                no_cr = λ f.
                    rw (plus_minus l.offset, get_or-set_self l.buf l.offset 0 0 (omega arith))
                      (λ g. ground arith);
              };
            })))
        (λ _. record {
          size = v.size;
          same = refl;
          index_le = omega (arith, v.index_le);
          split = v.split;
        })
    where
      P : Line → Type 0
      P = InByte n l.offset

  scan_val-InByte :
      (c : ℕ) (l : Line)
      → InLine n l
      → l.is_key_split ≡ false
      → c ≡ get_or l.buf l.offset 0
      → l.offset < n
      → Returns (InByte n l.offset) (scan_val c l)
  unfolding scan_val
  scan_val-InByte c l v t r h =
      if-Returns P (c == b' ' && l.val_start == l.offset) _ _
        (λ b. record {
          size = v.size;
          same = refl;
          index_le = omega arith;
          split = record {
            start_le = omega arith;
            key = λ f. ground arith;
            positive = λ f. omega arith;
            no_cr = λ f. rw (plus_minus l.offset, ← r) (λ g. ground arith);
          };
        })
        (λ _.
          if-Returns P (not (c == b' ') && not (c == b'\r')) _ _
            (λ _.
              if-Returns P (ltb l.val_index l.offset) _ _
                (λ _.
                  store-Returns P l.buf l.val_index n c _ v.size (omega (arith, v.index_le)) (λ e.
                    next (set l.buf l.val_index c) e
                      (Split-set l l.val_index c v.split v.split.start_le)))
                (λ _. next l.buf v.size v.split))
            (λ _. record {
              size = v.size;
              same = refl;
              index_le = omega (arith, v.index_le);
              split = v.split;
            }))
    where
      P : Line → Type 0
      P = InByte n l.offset

      next :
          (buf : List ℕ)
          → length buf ≡ n
          → Split (record l { buf = buf })
          → P (record l { buf = buf; val_index = l.val_index + 1 })
      next buf e s = record {
        size = e;
        same = refl;
        index_le = omega (arith, v.index_le);
        split = record {
          start_le = omega (arith, v.split.start_le);
          key = λ f. ground arith;
          positive = s.positive;
          no_cr = s.no_cr;
        };
      }

  -- The line, with the offset.
  abbrev pub InLineAt : ℕ → Line → Type 0
  InLineAt at l = InLine n l × (l.offset ≡ at)

  advance-InLineAt :
      (at : ℕ) (l : Line) → InByte n at l → at + 2 < n → Returns (InLineAt (at + 1)) (advance l)
  advance-InLineAt at l v h =
      load-Returns P l.buf (l.offset + 1) n _ v.size (omega (arith, v.same)) (
        load-Returns P l.buf (l.offset + 1 + 1) n _ v.size (omega (arith, v.same)) (
          store-Returns P l.buf (l.offset + 1) n _ _ v.size (omega (arith, v.same)) (λ e. (
            record {
              size = e;
              index_le = omega (arith, v.same, v.index_le);
              split =
                  Split-offset (record l { buf = set l.buf (l.offset + 1) _ }) (l.offset + 1)
                    (Split-set l (l.offset + 1) _ v.split
                      (omega (arith, v.same, v.index_le, v.split.start_le)));
            },
            ap (λ (i : ℕ). i + 1) v.same,
          ))))
    where
      P : Line → Type 0
      P = InLineAt (at + 1)

  scan_byte-InLineAt :
      (l : Line)
      → InLine n l
      → l.offset + 2 < n
      → Returns (InLineAt (l.offset + 1)) (scan_byte (get_or l.buf l.offset 0) l)
  scan_byte-InLineAt l v h =
      then-Returns (InByte n l.offset) (InLineAt (l.offset + 1)) _ advance
        (if-Returns (InByte n l.offset) l.is_key_split _ _
          (λ t. scan_key-InByte _ l v t (omega arith))
          (λ t. scan_val-InByte _ l v t refl (omega arith)))
        (λ l1 v1. advance-InLineAt l.offset l1 v1 h)

  -- The line, with an offset from `from` to `to`.
  abbrev pub InLineTo : ℕ → ℕ → Line → Type 0
  InLineTo from to l = InLine n l × ((from ≤ l.offset) × (l.offset ≤ to))

  pub scan-InLineTo :
      (rounds to : ℕ) (l : Line)
      → InLine n l
      → l.offset + rounds ≤ to
      → to + 1 < n
      → Returns (InLineTo l.offset to) (scan rounds l)
  unfolding scan
  scan-InLineTo zero to l v h k = (v, (omega arith, omega arith))
  scan-InLineTo (suc rounds) to l v h k = load-Returns P l.buf l.offset n _ v.size (omega arith) (
      if-Returns P (get_or l.buf l.offset 0 == b'\n') _ _ (λ _. (v, (omega arith, omega arith)))
        (λ _.
          then-Returns (InLineAt (l.offset + 1)) P _ (scan rounds)
            (scan_byte-InLineAt l v (omega arith))
            (λ l1 (v1, e).
              map-Returns (InLineTo l1.offset to) P (scan rounds l1)
                (λ r (w, (a, b)). (w, (omega arith, b)))
                (scan-InLineTo rounds to l1 v1 (omega arith) k))))
    where
      P : Line → Type 0
      P = InLineTo l.offset to
