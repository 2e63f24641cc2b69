-- ===== src/Download/Limit.antt =====
-- How often a download may be started (tms-cos-dl-common/tmsDlCommonUtils.cpp):
-- CheckAndInitVtpDlLmit and IsVtpDownloadExcess. The counts are kept in a file, in 8 bits.
pub mod Window
use android_vendor_tms.Prelude.{
  ℕ, ◌+◌, Bool, true, false, List, [], ◌∷◌, ltb, leb, if◌then◌else◌, u8,
}

-- VtpDownloadData, of what was downloaded and of its limits.
pub record VtpDownloadData : Type 0 where
  pub start_time_long : ℕ
  pub start_time_short : ℕ
  pub long_time_count : ℕ
  pub short_time_count : ℕ

-- The names of the routines: DOWNLOAD_FW_ROUTINE, DOWNLOAD_BL_ROUTINE, DOWNLOAD_COS_PTH_ROUTINE.
pub data Routine : Type 0 where
  fw_routine bl_routine cos_pth_routine : Routine

-- The limits, in seconds.
unfoldable pub dl_limit : Routine → VtpDownloadData
dl_limit cos_pth_routine = record {
  start_time_long = 864000;
  start_time_short = 600;
  long_time_count = 100;
  short_time_count = 10;
}
dl_limit _ = record {
  start_time_long = 864000;
  start_time_short = 300;
  long_time_count = 100;
  short_time_count = 20;
}

-- One more download.
abbrev pub counted : VtpDownloadData → VtpDownloadData
counted d = record d {
  long_time_count = u8 (d.long_time_count + 1);
  short_time_count = u8 (d.short_time_count + 1);
}

-- Whether the download is refused, and the counts afterwards. `now` is the time in seconds, and a
-- difference of times may be negative.
unfoldable pub is_excess : VtpDownloadData → ℕ → VtpDownloadData → VtpDownloadData × Bool
is_excess limit now d =
    if ltb (d.start_time_long + limit.start_time_long) now
    then (
      counted (record {
        start_time_long = now;
        start_time_short = now;
        long_time_count = 0;
        short_time_count = 0;
      }),
      false,
    )
    else if ltb d.long_time_count limit.long_time_count
    then if ltb (d.start_time_short + limit.start_time_short) now
      then (counted (record d { start_time_short = now; short_time_count = 0 }), false)
      else if leb limit.short_time_count d.short_time_count
      then (d, true)
      else (counted d, false)
    else (d, true)

abbrev pub one_if_not : Bool → ℕ
one_if_not true = 0
one_if_not false = 1

-- Requests at these times, one after the other: how many are let through, and the counts.
unfoldable pub requests : VtpDownloadData → List ℕ → VtpDownloadData → ℕ × VtpDownloadData
requests limit [] d = (0, d)
requests limit (now ∷ times) d =
    let (d1, excess) = is_excess limit now d in
    let (n, d2) = requests limit times d1 in (one_if_not excess + n, d2)
