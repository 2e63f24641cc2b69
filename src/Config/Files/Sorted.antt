-- ===== src/Config/Files/Sorted.antt =====
-- However the files are read, the vector of the settings is sorted, as the search in it needs.
use android_vendor_tms.Prelude.{
  ℕ, Bool, true, false, ◌&&◌, Option, none, some, List, [], ◌∷◌, ◌++◌, ◌≡◌, refl, subst, sym, ◌==◌,
  if◌then◌else◌, if-keeps, if-cases, length, arith,
}
use android_vendor_tms.Prelude.Outcome.{
  returned, Ensures, then-Ensures, if-Ensures, Ensures-returned,
}
use android_vendor_tms.Download.Script.{codes, same_text}
use android_vendor_tms.Config.Names.{contains}
use android_vendor_tms.Config.Store.{CNfcParam, CNfcConfig, clean, move_from_list, move_to_list}
use android_vendor_tms.Config.Store.Place.{Sorted}
use android_vendor_tms.Config.Read.{steps}
use android_vendor_tms.Config.Read.Invariant.{steps-Settings}
use android_vendor_tms.Config.Files.{
  read_config_file, start, transit_config_path, config_name, with_crc, with_room, read_text,
  read_config_text, read_config, read_all, load, get_instance,
}

-- Between two readings the list is empty, and mCurrentFile does not name the transit file.
abbrev pub ConfigOk : CNfcConfig → Type 0
ConfigOk c =
    Sorted c.params × (c.m_list ≡ []) × (contains (codes "tmsTransit") c.current_file ≡ false)

-- While a file is read, the vector is empty and the list is sorted.
abbrev Reading : CNfcConfig → Type 0
Reading c =
    (c.params ≡ []) × Sorted c.m_list × (contains (codes "tmsTransit") c.current_file ≡ false)

params-nil : (params : List CNfcParam) → (length params == 0) ≡ true → params ≡ []
params-nil [] h = refl
params-nil (p ∷ params) h = absurd (ground arith)

module _ (files : List ℕ → Option (List ℕ)) (is_regular : List ℕ → Bool) (crc : List ℕ → ℕ)
    (rf_path alternative file_name sku : List ℕ) where
  with_crc-ConfigOk :
      (name text : List ℕ) (c : CNfcConfig)
      → ConfigOk c
      → ConfigOk (with_crc files is_regular crc rf_path alternative file_name sku name text c)
  with_crc-ConfigOk name text c h =
      if-keeps ConfigOk (same_text name rf_path) _ _ h
        (if-keeps ConfigOk (same_text name transit_config_path) _ _ h h)

  with_room-Reading :
      (reset : Bool) (c : CNfcConfig)
      → ConfigOk c
      → Reading (with_room files is_regular crc rf_path alternative file_name sku reset c)
  unfolding clean move_to_list
  with_room-Reading reset c (sorted, empty, file) =
      let nothing : Sorted c.m_list = subst Sorted (sym empty) tt in
      if-cases Reading (length c.params == 0) c _ (λ e. (params-nil c.params e, nothing, file))
        (λ _. if-keeps Reading reset _ _ (refl, nothing, file) (refl, sorted, file))

  read_text-ConfigOk :
      (c : CNfcConfig) (text : List ℕ)
      → Reading c
      → Ensures
          (λ r. ConfigOk r.0)
          (read_text files is_regular crc rf_path alternative file_name sku c text)
  unfolding move_from_list
  read_text-ConfigOk c text (empty, sorted, file) =
      then-Ensures (λ r. Sorted r.m_list) (λ r. ConfigOk r.0)
        (steps c.current_file text (start c.m_list)) _
        (steps-Settings c.current_file file text (start c.m_list) sorted)
        (λ r s. (subst (λ ps. Sorted (ps ++ r.m_list)) (sym empty) s, refl, file))

  read_config_text-ConfigOk :
      (c : CNfcConfig) (name : List ℕ) (reset : Bool) (text : Option (List ℕ))
      → ConfigOk c
      → Ensures
          (λ r. ConfigOk r.0)
          (read_config_text files is_regular crc rf_path alternative file_name sku c name reset
            text)
  read_config_text-ConfigOk c name reset none h = if-keeps ConfigOk reset _ _ h h
  read_config_text-ConfigOk c name reset (some text) h =
      read_text-ConfigOk _ text (with_room-Reading reset _ (with_crc-ConfigOk name text c h))

  read_config-ConfigOk :
      (c : CNfcConfig) (name : List ℕ) (reset : Bool)
      → ConfigOk c
      → Ensures
          (λ r. ConfigOk r.0)
          (read_config files is_regular crc rf_path alternative file_name sku c name reset)
  unfolding read_config
  read_config-ConfigOk c name reset h =
      read_config_text-ConfigOk c name reset (read_config_file (files name)) h

  read_all-ConfigOk :
      (c : CNfcConfig)
      → ConfigOk c
      → Ensures ConfigOk (read_all files is_regular crc rf_path alternative file_name sku c)
  unfolding read_all
  read_all-ConfigOk c h =
      then-Ensures (λ r. ConfigOk r.0) ConfigOk _ _ (read_config-ConfigOk c _ true h)
        (λ first h₁.
          then-Ensures (λ r. ConfigOk r.0) ConfigOk _ _
            (read_config-ConfigOk first.0 rf_path false h₁)
            (λ second h₂.
              then-Ensures (λ r. ConfigOk r.0) ConfigOk _ _
                (read_config-ConfigOk second.0 transit_config_path false h₂) (λ third h₃. h₃)))

  load-ConfigOk :
      (c : CNfcConfig)
      → ConfigOk c
      → Ensures ConfigOk (load files is_regular crc rf_path alternative file_name sku c)
  load-ConfigOk c h =
      if-Ensures ConfigOk (length alternative == 0) _ _ (λ _. read_all-ConfigOk c h)
        (λ _.
          then-Ensures (λ r. ConfigOk r.0) ConfigOk _ _
            (read_config-ConfigOk c (alternative ++ config_name) true h)
            (λ first h₁.
              if-Ensures ConfigOk (length first.0.params == 0) _ _
                (λ _. read_all-ConfigOk first.0 h₁) (λ _. h₁)))

  -- Where the settings were sorted, those that a client of getInstance gets are: whatever stands in
  -- the files, if no number in them has so many digits that the reader shifts by 64 bits or more.
  pub get_instance-Sorted :
      (modified : Bool) (c d : CNfcConfig)
      → ConfigOk c
      → get_instance files is_regular crc rf_path alternative file_name sku modified c ≡ returned d
      → ConfigOk d
  unfolding get_instance clean
  get_instance-Sorted modified c d h e =
      let cleaned : CNfcConfig = if modified then clean c else c in
      let ok : ConfigOk cleaned =
        let (sorted, empty, file) = h in
        if-keeps ConfigOk modified (clean c) c (tt, empty, file) h in
      Ensures-returned ConfigOk _ d
        (if-Ensures ConfigOk (length cleaned.params == 0 && cleaned.valid_file) _ _
          (λ _. load-ConfigOk cleaned ok) (λ _. ok))
        e
