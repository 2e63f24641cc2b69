-- ===== src/Hal/Tests.antt =====
-- Concrete runs of the secure element HAL.
use android_vendor_tms.Prelude.{ℕ, ◌+◌, true, false, [], ◌∷◌, ◌≡◌, refl, arith}
use android_vendor_tms.Prelude.Outcome.{returned, ◌>>=◌, Ensures}
use android_vendor_tms.Ese.Types.{success, failed}
use android_vendor_tms.Hal.SecureElement.{
  hal_success, SeApi, Hal, close_channel, hal_deinit, open_basic_channel, open_logical_channel,
}
use android_vendor_tms.Hal.SecureElement.Channels.{
  Counted, CountedAfter, CountedOpened, close_channel-Counted, open_basic_channel-Counted,
  close_channel-unopened,
}
use android_vendor_tms.Hal.SecureElement.Service.{init, get_atr, service_died}
use android_vendor_tms.Hal.SecureElement.Logical.{CountedLogical, open_logical_channel-Counted}

-- A secure element that accepts every command and gives channel 2. The world counts the commands.
abbrev card : SeApi ℕ
card = record {
  is_open = λ d. true;
  init = λ d. returned (d, success);
  deinit = λ d. returned (d + 100, success);
  reset = λ d. returned (d, success);
  transceive = λ d cmd. returned (d + 1, success, 0x02 ∷ 0x90 ∷ 0x00 ∷ []);
  alloc = λ d. (d, true);
}

-- The service with channel 1 open.
abbrev one_open : Hal
one_open = record {
  channels = false ∷ true ∷ false ∷ false ∷ [];
  count = 1;
  opening_logical = false;
  opening_basic = false;
  has_callback = true;
  told = true ∷ [];
}

one_open-Counted : Counted one_open
one_open-Counted = record { sized = refl; counted = refl }

-- Channel 2 is opened beside channel 1.
logical_opened :
    open_logical_channel card (0xA0 ∷ []) 0 0 one_open
    ≡ returned (
      2,
      record one_open { channels = false ∷ true ∷ true ∷ false ∷ []; count = 2 },
      2,
      0x02 ∷ 0x90 ∷ 0x00 ∷ [],
      hal_success,
    )
unfolding open_logical_channel
logical_opened = refl

-- The death of the client closes every channel, and the next client is told that the element is there.
died_and_back :
    (service_died card 0 one_open >>= λ r. init card true r.0 r.1)
    ≡ returned (
      100,
      record one_open {
        channels = false ∷ false ∷ false ∷ false ∷ [];
        count = 0;
        told = true ∷ true ∷ [];
      },
    )
unfolding service_died init
died_and_back = refl

-- A failed seGetATR gives an empty ATR.
no_atr : get_atr card (λ d. returned (d, failed, 0x3B ∷ [])) 0 ≡ returned (0, [])
unfolding get_atr
no_atr = refl

close_channel-Counted_example : Ensures (CountedAfter card) (close_channel card 1 0 one_open)
close_channel-Counted_example =
    close_channel-Counted card 1 0 one_open (λ e. absurd (omega arith)) one_open-Counted

open_basic_channel-Counted_example :
    Ensures (CountedOpened card) (open_basic_channel card (0xA0 ∷ []) 0 0 one_open)
open_basic_channel-Counted_example =
    open_basic_channel-Counted card (0xA0 ∷ []) 0 0 one_open one_open-Counted

open_logical_channel-Counted_example :
    Ensures (CountedLogical card) (open_logical_channel card (0xA0 ∷ []) 0 0 one_open)
open_logical_channel-Counted_example =
    open_logical_channel-Counted card (0xA0 ∷ []) 0 0 one_open (λ e f. refl) one_open-Counted

close_channel-unopened_example :
    close_channel card 0 0 one_open ≡ hal_deinit card 0 (record one_open { count = 0 })
close_channel-unopened_example =
    close_channel-unopened card 0 one_open refl one_open-Counted refl refl refl
