-- ===== src/Hal/Stack.antt =====
-- The SE API that the service calls, filled from the model of SEApi.c.
use android_vendor_tms.Prelude.{ℕ, Option, none, some, List, [], length, take, u16}
use android_vendor_tms.Prelude.Outcome.{Outcome, returned, ◌>>=◌}
use android_vendor_tms.Ese.Types.{EseStatus}
use android_vendor_tms.Ese.Phy.{Phy}
use android_vendor_tms.Ese.Api.{
  normal, Config, Se, Node, is_opened, se_init, se_transceive, se_deinit, se_reset,
}
use android_vendor_tms.Hal.SecureElement.{SeApi}

abbrev response : Option (List ℕ × ℕ) → List ℕ
response none = []
response (some (buf, n)) = take n buf

module _ {D : Type 0} (phy : Phy D) (node : Node D) (cfg : Config) (fuel : ℕ) where
  abbrev paired : D × Se × EseStatus → Outcome ((D × Se) × EseStatus)
  paired (d, se, st) = returned ((d, se), st)

  abbrev answered :
      D × Se × EseStatus × Option (List ℕ × ℕ) → Outcome ((D × Se) × EseStatus × List ℕ)
  answered (d, se, st, out) = returned ((d, se), st, response out)

  -- SeData.len has 16 bits.
  unfoldable pub api_of : SeApi (D × Se)
  api_of = record {
    is_open = λ w. is_opened w.1.t1.ese_lib_status;
    init = λ w. se_init phy node cfg fuel normal w.0 w.1 >>= paired;
    deinit = λ w. se_deinit phy node cfg fuel w.0 w.1 >>= paired;
    reset = λ w. se_reset phy node cfg fuel w.0 w.1 >>= paired;
    transceive =
        λ w cmd. se_transceive phy node cfg fuel (some cmd) (u16 (length cmd)) w.0 w.1 >>= answered;
    alloc = λ w. (((phy.alloc w.0).0, w.1), (phy.alloc w.0).1);
  }
