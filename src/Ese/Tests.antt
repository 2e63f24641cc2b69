-- ===== src/Ese/Tests.antt =====
-- Concrete runs of the T=1 layer, and its theorems at inputs that meet their hypotheses.
use android_vendor_tms.Prelude.{
  ℕ, ◌+◌, ◌≤◌, Bool, true, false, none, some, List, [], ◌∷◌, ◌≡◌, refl, length, replicate, set,
  ◌++◌, ◌-◌, arith,
}
use android_vendor_tms.Prelude.Outcome.{unfinished}
use android_vendor_tms.Ese.Types.{
  success, opened, parity_error, SeContext, zero_params, T1State, state_idle,
}
use android_vendor_tms.Ese.Epilogue.{uses_lrc, calculate_lrc, set_epilogue, chk_epilogue}
use android_vendor_tms.Ese.Epilogue.Laws.{chk_epilogue-set_epilogue, chk_epilogue-changed}
use android_vendor_tms.Ese.Frame.{default_atr, ext_hdr, sends_cip, header_len}
use android_vendor_tms.Ese.RecvList.{store_in_list, list_destroy, recv_data_get}
use android_vendor_tms.Ese.RecvList.Laws.{IsListed, recv_data_get-store_in_list}
use android_vendor_tms.Ese.Phy.{Phy}
use android_vendor_tms.Ese.Read.Silent.{IsSilent}
use android_vendor_tms.Ese.Read.Terminated.{IsTerminated}
use android_vendor_tms.Ese.Transceive.{transceive_process, init_iframe}
use android_vendor_tms.Ese.Transceive.Bounds.{StartsOk, InvAtEnd, transceive_process-Inv}
use android_vendor_tms.Ese.Transceive.Silent.{IsConfigured, Fails, transceive_process-silent}
use android_vendor_tms.Ese.Transceive.Terminated.{transceive_process-unfinished}
use android_vendor_tms.Ese.Api.{
  normal, ese_dl, nfcc_dl, Se, Node, zero_config, se_open, se_close, se_init,
}
use android_vendor_tms.Ese.Api.Sessions.{Refused, se_close-se_open, se_init-busy}
use android_vendor_tms.Ese.Driver.{WriteRet, wrote, Os, write_loop, ph_write, ph_write-total}

-- A context with the default configuration, opened, and a card that takes 4 bytes in a block.
abbrev ctx0 : SeContext
ctx0 = record {
  ese_lib_status = opened;
  dev_open = true;
  is_read_done = false;
  max_write_retry_cnt = 10;
  write_retry_time = 1000;
  max_read_retry_cnt = 2;
  read_retry_time = 1000;
  read_timeout = 10;
  max_recovery_cnt = 3;
  max_blk_retry_cnt = 3;
  max_wtx_cnt = 30;
  is_resync_recovery = false;
  max_ifsd = 258;
  max_ifsc = 4;
  is_t1_ext_hdr_len = false;
  seq_num_device = 0;
  seq_num_card = 0;
  is_seq_num_dr = false;
  next_t1_state = state_idle;
}

unfoldable start : T1State
start = record {
  ctx = ctx0;
  params = zero_params;
  atr = default_atr;
  recv = [];
  recv_total = 0;
  data_rx = replicate 258 0;
}

abbrev command : List ℕ
command = 0x00 ∷ 0xA4 ∷ 0x04 ∷ 0x00 ∷ 0x02 ∷ 0xA0 ∷ 0x00 ∷ 0x00 ∷ 0x01 ∷ []

-- A driver that sends every block and reads nothing. The world counts the blocks sent.
none_read : {D : Type 0} → (d : D) (n : ℕ) (bs : List ℕ) → none ≡ some bs → length bs ≤ n
none_read d n bs e = cc

abbrev mute : Bool → Phy ℕ
mute over = record {
  write = λ d bs. (d + 1, true);
  read = λ d n. (d, none);
  read_at_most = none_read;
  alloc = λ d. (d, true);
  read_done = λ d. over;
  elapsed = λ d. 0;
  interrupted = λ d. false;
}

-- S(CIP request) with its LRC.
abbrev cip_block : List ℕ
cip_block = 0x5A ∷ 0xC4 ∷ 0x00 ∷ 0x9E ∷ []

cip_lrc : calculate_lrc cip_block 0 3 ≡ 0x9E
unfolding calculate_lrc
cip_lrc = refl

chk_epilogue-set_epilogue_example :
    chk_epilogue start (set_epilogue start cip_block 0 4) 0 4 ≡ success
chk_epilogue-set_epilogue_example = chk_epilogue-set_epilogue start cip_block 2 (omega arith)

chk_epilogue-changed_example : chk_epilogue start (set cip_block 1 0xC5) 0 4 ≡ parity_error
unfolding start chk_epilogue uses_lrc calculate_lrc default_atr
chk_epilogue-changed_example =
    chk_epilogue-changed start cip_block 3 1 0xC5 refl (omega arith) (omega arith) (omega arith)
      refl

start-StartsOk : StartsOk start
unfolding start
start-StartsOk = omega arith

transceive_process-Inv_example :
    InvAtEnd (transceive_process (mute false) 40 0 (init_iframe (mute false) command 9 start))
transceive_process-Inv_example =
    transceive_process-Inv (mute false) 40 command 9 0 start start-StartsOk

mute-IsSilent : IsSilent (mute false)
mute-IsSilent = record { no_data = λ d n. refl; not_interrupted = λ d. refl; not_done = λ d. refl }

start-IsConfigured : IsConfigured 3 3 10 start
unfolding start
start-IsConfigured = record {
  recovery_limit = refl;
  blk_limit = refl;
  timeout = refl;
  some_polls = omega arith;
  room = omega arith;
}

transceive_process-silent_example :
    Fails (transceive_process (mute false) 40 0 (init_iframe (mute false) command 9 start))
transceive_process-silent_example =
    transceive_process-silent (mute false) mute-IsSilent 3 3 10 (omega arith) (λ d. refl) 40 command
      9 0 start (omega arith) start-IsConfigured (omega arith)

mute-IsTerminated : IsTerminated (mute true)
mute-IsTerminated = record { no_data = λ d n. refl; not_interrupted = λ d. refl; done = λ d. refl }

start-polls : 2 ≤ start.max_read_retry_cnt
unfolding start
start-polls = omega arith

start-room : 5 ≤ length start.data_rx
unfolding start
start-room = omega arith

transceive_process-unfinished_example :
    transceive_process (mute true) 1000 0 (init_iframe (mute true) command 9 start) ≡ unfinished
transceive_process-unfinished_example =
    transceive_process-unfinished (mute true) mute-IsTerminated (λ d. refl) (λ d bs. refl) 1000
      command 9 0 start start-polls start-room

-- The state while a command of 9 bytes is sent to a card that takes 4 in a block.
abbrev sending : T1State
sending = init_iframe (mute false) command 9 start

-- A driver that keeps the blocks it is given.
abbrev recorder : Phy (List (List ℕ))
recorder = record {
  write = λ d bs. (d ++ bs ∷ [], true);
  read = λ d n. (d, none);
  read_at_most = none_read;
  alloc = λ d. (d, true);
  read_done = λ d. false;
  elapsed = λ d. 0;
  interrupted = λ d. false;
}

-- A block of two INF bytes, the second of a chained response.
abbrev listed : T1State
listed = record start { recv = (1 ∷ 2 ∷ []) ∷ []; recv_total = 2 }

listed-IsListed : IsListed listed
listed-IsListed = record { counted = refl; small = omega arith }

store-ok : (store_in_list true listed (0xA5 ∷ 0x00 ∷ 2 ∷ 3 ∷ 4 ∷ 0 ∷ []) 3 2 6).1 ≡ success
unfolding start store_in_list header_len ext_hdr sends_cip default_atr
store-ok = refl

recv_data_get-store_in_list_example :
    let t = (store_in_list true listed (0xA5 ∷ 0x00 ∷ 2 ∷ 3 ∷ 4 ∷ 0 ∷ []) 3 2 6).0 in
    recv_data_get true t ≡ (list_destroy t, success, some (1 ∷ 2 ∷ 3 ∷ 4 ∷ [], 4))
recv_data_get-store_in_list_example =
    recv_data_get-store_in_list true listed (0xA5 ∷ 0x00 ∷ 2 ∷ 3 ∷ 4 ∷ 0 ∷ []) 3 2 6 listed-IsListed
      (omega arith) (omega arith) store-ok

-- An operating system that accepts one byte of the first write and all of the second. The world
-- lists what was passed to write(2).
abbrev short_ret : List (List ℕ) → List ℕ → WriteRet
short_ret [] bs = wrote 0
short_ret (_ ∷ _) bs = wrote (length bs - 1)

abbrev short_os : Os (List (List ℕ))
short_os = record {
  os_write = λ d bs. (d ++ bs ∷ [], short_ret d bs);
  os_read = λ d n. (d, none);
  os_read_at_most = none_read;
  alloc = λ d. (d, true);
  read_done = λ d. false;
  elapsed = λ d. 0;
  interrupted = λ d. false;
}

ph_write-total_example :
    write_loop short_os 15 10 0 0 [] cip_block ≡ some (ph_write short_os 10 [] cip_block)
ph_write-total_example = ph_write-total short_os 10 [] cip_block

-- One user holds the device for the download of a COS.
abbrev downloading : Se
downloading = record {
  t1 = start;
  is_initialized = false;
  opened_cnt = 1;
  init_mode = ese_dl;
  data_rx_len = 258;
}

-- The world of the device node counts the blocks sent, and a close adds 100.
abbrev counting_node : Node ℕ
counting_node = record { open_node = λ d mode. (d, true); close_node = λ d. d + 100 }

start-opened : start.ese_lib_status ≡ opened
unfolding start
start-opened = refl

downloads_again :
    (se_open (mute false) counting_node zero_config 40 nfcc_dl 0 downloading).2 ≡ success
unfolding start se_open
downloads_again = refl

se_close-se_open_example :
    let (d, se, st) = se_open (mute false) counting_node zero_config 40 nfcc_dl 0 downloading in
    se_close (mute false) counting_node zero_config 40 d se ≡ (0, downloading, success)
se_close-se_open_example =
    se_close-se_open (mute false) counting_node zero_config 40 nfcc_dl 0 downloading start-opened
      (omega arith) (omega arith) downloads_again

se_init-busy_example :
    Refused
      (mute false)
      counting_node
      zero_config
      40
      0
      (se_init (mute false) counting_node zero_config 40 normal 0 downloading)
se_init-busy_example =
    se_init-busy (mute false) counting_node zero_config 40 0 downloading start-opened refl refl refl
