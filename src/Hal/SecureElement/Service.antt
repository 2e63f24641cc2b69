-- ===== src/Hal/SecureElement/Service.antt =====
-- The life of the secure element service (secure_element/1.0/SecureElement.cpp): init, getAtr and
-- serviceDied.
use android_vendor_tms.Prelude.{ℕ, Bool, true, List, [], ◌∷◌, if◌then◌else◌}
use android_vendor_tms.Prelude.Outcome.{Outcome, returned, ◌>>=◌}
use android_vendor_tms.Ese.Types.{EseStatus, is_success}
use android_vendor_tms.Hal.SecureElement.{SeApi, Hal, hal_deinit}

-- The state that the client of the call is told.
abbrev pub registered : Bool → Hal → Hal
registered state h = record h { has_callback = true; told = state ∷ h.told }

module _ {D : Type 0} (api : SeApi D) where
  -- `has_client` says that the callback is not null.
  unfoldable pub init : Bool → D → Hal → Outcome (D × Hal)
  init has_client d h =
      let opened = api.init d >>= λ r. returned (r.0, registered (is_success r.1) h) in
      let known = if api.is_open d then returned (d, registered true h) else opened in
      if has_client then known else returned (d, h)

  -- The bytes given to the callback, by the function seGetATR.
  unfoldable pub get_atr : (D → Outcome (D × EseStatus × List ℕ)) → D → Outcome (D × List ℕ)
  get_atr se_get_atr d = se_get_atr d >>= λ r. returned (r.0, (if is_success r.1 then r.2 else []))

  unfoldable pub service_died : D → Hal → Outcome (D × Hal)
  unfolding hal_deinit
  service_died d h = hal_deinit api d h >>= λ r. returned (r.0, r.1)
