-- ===== src/Config/Files.antt =====
-- Which files the settings are read from, and in which order
-- (nfc/THN31/halimpl/utils/TmsConfig.cc): readConfigFile, CNfcConfig::readConfig,
-- findConfigFilePathFromTransportConfigPaths, CNfcConfig::getInstance and readOptionalConfig.
pub mod Sorted
use android_vendor_tms.Prelude.{
  ℕ, Bool, true, false, not, ◌&&◌, Option, none, some, List, [], ◌∷◌, ◌++◌, ◌==◌, if◌then◌else◌,
  length,
}
use android_vendor_tms.Prelude.Outcome.{Outcome, returned, ◌>>=◌}
use android_vendor_tms.Download.Script.{codes, same_text}
use android_vendor_tms.Config.Store.{CNfcParam, CNfcConfig, clean, move_from_list, move_to_list}
use android_vendor_tms.Config.Read.{Reader, begin_line, steps}

-- The bytes of a file with a line end after them; an empty file gives none.
unfoldable pub read_config_file : Option (List ℕ) → Option (List ℕ)
read_config_file none = none
read_config_file (some []) = none
read_config_file (some (b ∷ bytes)) = some (b ∷ bytes ++ b'\n' ∷ [])

-- The variables before the loop.
abbrev pub start : List CNfcParam → Reader
start params = record {
  state = begin_line;
  is_string_value = false;
  token = [];
  str_value = [];
  num_value = 0;
  i = 0;
  base = 0;
  bflag = 0;
  m_list = params;
}

abbrev pub transit_config_path : List ℕ
transit_config_path = codes "/data/vendor/nfc/libnfc-tmsTransit.conf"

-- gpTransportConfigPaths
abbrev pub transport_config_paths : List (List ℕ)
transport_config_paths =
    codes "/odm/etc/" ∷ codes "/vendor/etc/" ∷ codes "/etc/" ∷ codes "/data/vendor/nfc/" ∷ []

abbrev pub config_name : List ℕ
config_name = codes "libnfc-tms.conf"

-- The files of the device by their paths, those that stat finds regular, sparseCrc32, the path of
-- the RF file, the path of an alternative, and the values of the two properties.
module _ (files : List ℕ → Option (List ℕ)) (is_regular : List ℕ → Bool) (crc : List ℕ → ℕ)
    (rf_path alternative file_name sku : List ℕ) where
  abbrev pub with_crc : List ℕ → List ℕ → CNfcConfig → CNfcConfig
  with_crc name text c =
      let rf : CNfcConfig = record c { config_rf_crc = crc text; valid_file = true } in
      let tr : CNfcConfig = record c { config_tr_crc = crc text; valid_file = true } in
      let other : CNfcConfig = record c { config_crc = crc text; valid_file = true } in
      if same_text name rf_path
      then rf
      else if same_text name transit_config_path
      then tr
      else other

  abbrev pub with_room : Bool → CNfcConfig → CNfcConfig
  with_room reset c = if length c.params == 0 then c else if reset then clean c else move_to_list c

  -- The reading of a text into the list of the settings, which then becomes the vector.
  abbrev pub read_text : CNfcConfig → List ℕ → Outcome (CNfcConfig × Bool)
  read_text c text =
      let ended : Reader → CNfcConfig × Bool = λ r.
        (let filled : CNfcConfig = record c { m_list = r.m_list } in
          let moved = move_from_list filled in (moved, not (length moved.params == 0))) in
      steps c.current_file text (start c.m_list) >>= λ r. returned (ended r)

  abbrev pub read_config_text :
      CNfcConfig → List ℕ → Bool → Option (List ℕ) → Outcome (CNfcConfig × Bool)
  read_config_text c name reset none =
      let failed : CNfcConfig = record c { valid_file = false } in
      returned (if reset then failed else c, false)
  read_config_text c name reset (some text) =
      read_text (with_room reset (with_crc name text c)) text

  unfoldable pub read_config : CNfcConfig → List ℕ → Bool → Outcome (CNfcConfig × Bool)
  unfolding clean move_from_list move_to_list read_config_file steps same_text
  read_config c name reset = read_config_text c name reset (read_config_file (files name))

  -- The first of the paths where the file is, or the empty path.
  abbrev pub find_in : List (List ℕ) → List ℕ → Bool × List ℕ
  find_in [] name = (false, [])
  find_in (path ∷ paths) name =
      let rest = find_in paths name in
      if is_regular (path ++ name) then (true, path ++ name) else rest

  unfoldable pub find_config_file_path : List ℕ → Bool × List ℕ
  find_config_file_path name =
      if length name == 0 then (false, []) else find_in transport_config_paths name

  -- The path that getInstance reads the settings from.
  unfoldable pub config_path : List ℕ
  unfolding find_config_file_path
  config_path =
      let by_name = find_config_file_path file_name in
      let by_sku = find_config_file_path (codes "libnfc-" ++ (sku ++ codes ".conf")) in
      let default = find_config_file_path config_name in
      if by_name.0 then by_name.1 else if by_sku.0 then by_sku.1 else default.1

  -- The three files: only the first one takes the place of the settings that were there.
  unfoldable pub read_all : CNfcConfig → Outcome CNfcConfig
  unfolding config_path read_config
  read_all c = read_config c config_path true >>= λ first.
      read_config first.0 rf_path false >>= λ second.
      read_config second.0 transit_config_path false >>= λ third. returned third.0

  abbrev pub load : CNfcConfig → Outcome CNfcConfig
  load c =
      if length alternative == 0
      then read_all c
      else (read_config c (alternative ++ config_name) true >>= λ first.
          if length first.0.params == 0 then read_all first.0 else returned first.0)

  -- `modified` is isRfConfigPathModified, which is false after this.
  unfoldable pub get_instance : Bool → CNfcConfig → Outcome CNfcConfig
  unfolding read_config read_all clean
  get_instance modified c =
      let cleaned = if modified then clean c else c in
      if length cleaned.params == 0 && cleaned.valid_file then load cleaned else returned cleaned

  unfoldable pub read_optional_config : List ℕ → CNfcConfig → Outcome CNfcConfig
  unfolding find_config_file_path read_config
  read_optional_config extra c =
      let name = codes "libnfc-" ++ (extra ++ codes ".conf") in
      let path =
        if length alternative == 0 then (find_config_file_path name).1 else alternative ++ name in
      read_config c path false >>= λ done. returned done.0
