-- ===== src/Ese/Api/Sessions.antt =====
-- The sessions of the SE API: opening and closing are counted, and a refused seInit closes.
use android_vendor_tms.Prelude.{ℕ, ◌<◌, true, false, ◌≡◌, arith}
use android_vendor_tms.Prelude.Outcome.{Outcome, returned, fault, unfinished}
use android_vendor_tms.Ese.Types.{EseStatus, success, busy, opened, closed}
use android_vendor_tms.Ese.Phy.{Phy}
use android_vendor_tms.Ese.Api.{
  InitMode, normal, Config, Se, Node, is_dl, se_open, se_close, se_init,
}

module _ {D : Type 0} (phy : Phy D) (node : Node D) (cfg : Config) (fuel : ℕ) where
  -- While the device is open and has between 1 and 254 users, seClose undoes a seOpen that
  -- succeeded: the state and the device are those of before.
  pub se_close-se_open :
      (mode : InitMode) (d : D) (se : Se)
      → se.t1.ese_lib_status ≡ opened
      → 0 < se.opened_cnt
      → se.opened_cnt < 255
      → (se_open phy node cfg fuel mode d se).2 ≡ success
      → let (d', se', st) = se_open phy node cfg fuel mode d se in
        se_close phy node cfg fuel d' se' ≡ (d, se, success)
  unfolding se_open se_close
  se_close-se_open mode d se o p l e = ground arith

  -- The session that is closed: the status, the count and the initialisation.
  abbrev IsClosed : Se → Type 0
  IsClosed se = (se.t1.ese_lib_status ≡ closed) × (se.opened_cnt ≡ 0) × (se.is_initialized ≡ false)

  abbrev pub Refused : D → Outcome (D × Se × EseStatus) → Type 0
  Refused d (returned (d', se, st)) = (st ≡ busy) × (d' ≡ node.close_node d) × IsClosed se
  Refused d fault = ⊥
  Refused d unfinished = ⊥

  -- While one user holds the device in a download mode, which is not initialised, seInit in the
  -- normal mode is refused with ESESTATUS_BUSY, and closes the device and the session of that user.
  pub se_init-busy :
      (d : D) (se : Se)
      → se.t1.ese_lib_status ≡ opened
      → is_dl se.init_mode ≡ true
      → se.opened_cnt ≡ 1
      → se.is_initialized ≡ false
      → Refused d (se_init phy node cfg fuel normal d se)
  unfolding se_open se_close se_init
  se_init-busy d se o m c i = ground arith
