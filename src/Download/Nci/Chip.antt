-- ===== src/Download/Nci/Chip.antt =====
-- What the answers of the NFC controller say of its firmware and its chip, and whether a download is
-- needed (tms-cos-dl-ree/tmsDlNciUtils.cpp and tmsNfccDl.cpp): parseFwVerFromNciRsp,
-- parseBlVerFromNciRsp, ComputeNfccChipInfo, TryComputeNfccChipInfo and isNeedDownload. The `|` of
-- shifted bytes is a sum. What is only logged is left out.
use android_vendor_tms.Prelude.{
  ℕ, zero, suc, ◌+◌, ◌*◌, [], ◌∷◌, ◌++◌, Bool, true, false, not, ◌&&◌, ◌||◌, List, ◌≡◌, ◌≢◌, ◌⊎◌,
  ◌==◌, ltb, leb, if◌then◌else◌, bit_and, arith,
}
use android_vendor_tms.Prelude.Outcome.{Outcome, returned, ◌>>=◌}
use android_vendor_tms.Download.Buffer.{load}

-- INVALID_FW_VER
abbrev pub invalid_fw_ver : ℕ
invalid_fw_ver = 0xFFFFFFFF

-- The last three bytes of the packet, by the length in its header.
abbrev pub version_at : List ℕ → Outcome ℕ
version_at rsp = load rsp 2 >>= λ len. load rsp len >>= λ a.
    load rsp (len + 1) >>= λ b. load rsp (len + 2) >>= λ c. returned (a * 65536 + b * 256 + c)

-- The bytes of the packet that are printed.
unfoldable pub printed : ℕ → List ℕ → Outcome (List ℕ)
printed zero rsp = returned []
printed (suc n) rsp = printed n rsp >>= λ bytes. load rsp n >>= λ b. returned (bytes ++ b ∷ [])

-- CORE_RESET_NTF, by its trigger; with another one its bytes are printed, and its reason is looked at.
abbrev pub reset_ntf : List ℕ → ℕ → Outcome ℕ
reset_ntf rsp len =
    let version = version_at rsp in
    let other : Outcome ℕ =
      printed len rsp >>= λ bytes. load rsp 3 >>= λ reason. returned invalid_fw_ver in
    load rsp 3 >>= λ t. if t == 0x02 || t == 0x01 then version else other

-- CORE_RESET_RSP, whose version of NCI is only printed.
abbrev pub reset_rsp : List ℕ → Outcome ℕ
reset_rsp rsp =
    let status : Outcome ℕ = load rsp 3 >>= λ s. returned invalid_fw_ver in
    load rsp 2 >>= λ len. if len == 0x01 || len == 0x03 then status else returned invalid_fw_ver

unfoldable pub parse_fw_ver_from_nci_rsp : List ℕ → ℕ → Outcome ℕ
unfolding printed
parse_fw_ver_from_nci_rsp rsp len =
    let version = version_at rsp in
    let reset = reset_ntf rsp len in
    let answer = reset_rsp rsp in
    let by_head : ℕ → ℕ → Outcome ℕ = λ a b.
      (if a == 0x40 && b == 0x00
        then answer
        else if a == 0x60 && b == 0x00
        then reset
        else if a == 0x40 && b == 0x01
        then version
        else returned invalid_fw_ver) in
    let parsed : Outcome ℕ = load rsp 0 >>= λ a. load rsp 1 >>= λ b. by_head a (bit_and b 0x3F) in
    if len == 0 then returned invalid_fw_ver else parsed

unfoldable pub parse_bl_ver_from_nci_rsp : List ℕ → ℕ → Outcome ℕ
parse_bl_ver_from_nci_rsp rsp len =
    let version : Outcome ℕ = load rsp 4 >>= λ a. load rsp 5 >>= λ b.
    load rsp 6 >>= λ c. load rsp 7 >>= λ d. returned (a * 16777216 + b * 65536 + c * 256 + d) in
    let parsed : Outcome ℕ = load rsp 0 >>= λ a. load rsp 1 >>= λ b. load rsp 2 >>= λ c.
    load rsp 3 >>= λ d.
    if a == 0x4F && b == 0x25 && c == 0x05 && d == 0x00 then version else returned invalid_fw_ver in
    if ltb 3 len then parsed else returned invalid_fw_ver

-- The versions and the types of ChipInfo, whose types are 0xFF where they are not known.
pub record NfccChipInfo : Type 0 where
  pub fw_ver : ℕ
  pub nfcc_bl_ver : ℕ
  pub chip_type : ℕ
  pub chip_key_type : ℕ

unfoldable pub chip_type_of : ℕ → ℕ → ℕ
chip_type_of bl known =
    if not (known == 0xFF)
    then known
    else if ltb bl 0xB400
    then 0x10
    else if not (bl == invalid_fw_ver)
    then 0x20
    else known

unfoldable pub chip_key_type_of : ℕ → ℕ → ℕ → ℕ
chip_key_type_of bl fw known =
    if not (known == 0xFF)
    then known
    else if leb bl 0xB206
    then 0x00
    else if not (fw == invalid_fw_ver)
    then (if bit_and fw 0x1000 == 0 then 0x00 else 0x80)
    else 0x80

unfoldable pub compute_nfcc_chip_info : NfccChipInfo → NfccChipInfo
unfolding chip_type_of chip_key_type_of
compute_nfcc_chip_info c = record c {
  chip_type = chip_type_of c.nfcc_bl_ver c.chip_type;
  chip_key_type = chip_key_type_of c.nfcc_bl_ver c.fw_ver c.chip_key_type;
}

-- The chip's type and key type, where only the firmware's version is known.
unfoldable pub try_compute_nfcc_chip_info : ℕ → ℕ × ℕ
try_compute_nfcc_chip_info fw = (
  if bit_and fw 0x00FF0000 == 0x00C20000
      then 0x10
      else if bit_and fw 0x00F00000 == 0x00D00000
      then 0x20
      else 0x20,
  if bit_and fw 0x00001000 == 0 then 0x00 else 0x80,
)

-- The result, whether the download is forced, and whether the status is set to success.
pub record Need : Type 0 where
  pub needed : Bool
  pub forced : Bool
  pub latest : Bool

unfoldable pub is_need_download : ℕ → ℕ → Bool → Bool → Need
is_need_download vtp chip forced latest =
    let by_chip : Need =
      if chip == invalid_fw_ver
      then record { needed = true; forced = true; latest = latest }
      else if not (vtp == chip)
      then record { needed = true; forced = forced; latest = latest }
      else record { needed = false; forced = forced; latest = true } in
    if not (vtp == invalid_fw_ver)
    then by_chip
    else record { needed = false; forced = forced; latest = latest }

-- The type of the chip is known after the computation unless neither it nor the version of the boot
-- loader was known, and the type of its keys is one of the two or the one that was known.
pub compute_nfcc_chip_info-known :
    (c : NfccChipInfo)
    → (((compute_nfcc_chip_info c).chip_type ≢ 0xFF)
        ⊎ ((c.chip_type ≡ 0xFF) × (c.nfcc_bl_ver ≡ invalid_fw_ver)))
      × ((compute_nfcc_chip_info c).chip_key_type ≢ 0xFF)
unfolding compute_nfcc_chip_info chip_type_of chip_key_type_of
compute_nfcc_chip_info-known c = (ground arith, ground arith)

-- A download is needed exactly where the script has a version and the chip has another or none, and
-- it is forced by this where the chip has none.
pub is_need_download_iff :
    (vtp chip : ℕ)
    → ((is_need_download vtp chip false false).needed
        ≡ not (vtp == invalid_fw_ver) && not (vtp == chip))
      × ((is_need_download vtp chip false false).forced
          ≡ not (vtp == invalid_fw_ver) && chip == invalid_fw_ver)
unfolding is_need_download
is_need_download_iff vtp chip = (ground arith, ground arith)
