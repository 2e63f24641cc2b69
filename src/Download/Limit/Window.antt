-- ===== src/Download/Limit/Window.antt =====
-- The limits hold over every sequence of requests.
use android_vendor_tms.Prelude.{ℕ, ◌+◌, ◌≤◌, ◌<◌, List, [], ◌∷◌, ◌≡◌, arith}
use android_vendor_tms.Download.Limit.{
  VtpDownloadData, Routine, dl_limit, is_excess, one_if_not, requests,
}

-- Counts within the limits, which fit 8 bits.
pub record WithinLimit (limit d : VtpDownloadData) : Type 0 where
  pub long_fits : limit.long_time_count < 256
  pub short_fits : limit.short_time_count < 256
  pub some_long : 0 < limit.long_time_count
  pub some_short : 0 < limit.short_time_count
  pub long_within : d.long_time_count ≤ limit.long_time_count
  pub short_within : d.short_time_count ≤ limit.short_time_count

is_excess-WithinLimit :
    (limit d : VtpDownloadData) (now : ℕ)
    → WithinLimit limit d
    → WithinLimit limit (is_excess limit now d).0
unfolding is_excess
is_excess-WithinLimit limit d now v = ground arith

-- Every time lies in the long period that the data began.
abbrev pub AllUpTo : ℕ → List ℕ → Type 0
AllUpTo last [] = Unit
AllUpTo last (t ∷ ts) = (t ≤ last) × AllUpTo last ts

long_step :
    (limit d : VtpDownloadData) (now : ℕ)
    → WithinLimit limit d
    → now ≤ d.start_time_long + limit.start_time_long
    → ((is_excess limit now d).0.start_time_long ≡ d.start_time_long)
      × (one_if_not (is_excess limit now d).1 + d.long_time_count
          ≡ (is_excess limit now d).0.long_time_count)
unfolding is_excess
long_step limit d now v h = ground arith

long_count :
    (limit : VtpDownloadData) (times : List ℕ) (d : VtpDownloadData)
    → WithinLimit limit d
    → AllUpTo (d.start_time_long + limit.start_time_long) times
    → (requests limit times d).0 + d.long_time_count ≤ limit.long_time_count
unfolding requests
long_count limit [] d v a = omega (arith, v.long_within)
long_count limit (now ∷ times) d v (h, a) =
    let (same, more) = long_step limit d now v h in
    let d1 = (is_excess limit now d).0 in
    omega (arith, more, long_count limit times d1 (is_excess-WithinLimit limit d now v) (rw same a))

short_step :
    (limit d : VtpDownloadData) (now : ℕ)
    → WithinLimit limit d
    → now ≤ d.start_time_long + limit.start_time_long
    → now ≤ d.start_time_short + limit.start_time_short
    → ((is_excess limit now d).0.start_time_short ≡ d.start_time_short)
      × (one_if_not (is_excess limit now d).1 + d.short_time_count
          ≡ (is_excess limit now d).0.short_time_count)
unfolding is_excess
short_step limit d now v h k = ground arith

short_count :
    (limit : VtpDownloadData) (times : List ℕ) (d : VtpDownloadData)
    → WithinLimit limit d
    → AllUpTo (d.start_time_long + limit.start_time_long) times
    → AllUpTo (d.start_time_short + limit.start_time_short) times
    → (requests limit times d).0 + d.short_time_count ≤ limit.short_time_count
unfolding requests
short_count limit [] d v a b = omega (arith, v.short_within)
short_count limit (now ∷ times) d v (h, a) (k, b) =
    let (same, more) = short_step limit d now v h k in
    let (same', _) = long_step limit d now v h in
    let d1 = (is_excess limit now d).0 in
    omega (
      arith,
      more,
      short_count limit times d1 (is_excess-WithinLimit limit d now v) (rw same' a) (rw same b),
    )

dl_limit-WithinLimit :
    (r : Routine) (d : VtpDownloadData)
    → d.long_time_count ≤ (dl_limit r).long_time_count
    → d.short_time_count ≤ (dl_limit r).short_time_count
    → WithinLimit (dl_limit r) d
unfolding dl_limit
dl_limit-WithinLimit r d h k = ground arith

-- From counts within the limits of a routine: of the requests made up to the end of the long period
-- that was begun, whatever their number and order, those let through and those counted before are
-- together no more than the long limit.
pub requests-long_limit :
    (r : Routine) (times : List ℕ) (d : VtpDownloadData)
    → d.long_time_count ≤ (dl_limit r).long_time_count
    → d.short_time_count ≤ (dl_limit r).short_time_count
    → AllUpTo (d.start_time_long + (dl_limit r).start_time_long) times
    → (requests (dl_limit r) times d).0 + d.long_time_count ≤ (dl_limit r).long_time_count
requests-long_limit r times d h k a =
    long_count (dl_limit r) times d (dl_limit-WithinLimit r d h k) a

-- From counts within the limits of a routine: of the requests made up to the end of both periods
-- that were begun, those let through and those counted in the short period before are together no
-- more than the short limit.
pub requests-short_limit :
    (r : Routine) (times : List ℕ) (d : VtpDownloadData)
    → d.long_time_count ≤ (dl_limit r).long_time_count
    → d.short_time_count ≤ (dl_limit r).short_time_count
    → AllUpTo (d.start_time_long + (dl_limit r).start_time_long) times
    → AllUpTo (d.start_time_short + (dl_limit r).start_time_short) times
    → (requests (dl_limit r) times d).0 + d.short_time_count ≤ (dl_limit r).short_time_count
requests-short_limit r times d h k a b =
    short_count (dl_limit r) times d (dl_limit-WithinLimit r d h k) a b
