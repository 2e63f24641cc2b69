-- ===== src/Tml/Transport/Retransmission.antt =====
-- With retransmission a packet is sent a bounded number of times, and the client has one message
-- about it.
use android_vendor_tms.Prelude.{
  ℕ, ◌+◌, ◌-◌, Bool, true, false, not, ◌||◌, Option, List, [], ◌∷◌, ◌≡◌, ◌==◌,
}
use android_vendor_tms.Tml.Transport.{Context}
use android_vendor_tms.Tml.Transport.Threads.{is_control, writer_round, retx_timer_cb}
use android_vendor_tms.Tml.Transport.Pending.{pending_writes}

-- One round of the writer and then the callback of its timer.
unfoldable pub round : Option ℕ → Context → Context
unfolding writer_round retx_timer_cb
round w c = retx_timer_cb c.timer_id true (writer_round w true c)

abbrev count : Bool → ℕ
count true = 1
count false = 0

-- Rounds with the given answers of the bus, and how often the packet is sent in them.
unfoldable pub rounds : List (Option ℕ) → Context → Context × ℕ
unfolding round
rounds [] c = (c, 0)
rounds (w ∷ ws) c =
    let rest = rounds ws (round w c) in (rest.0, count c.write_info.enabled + rest.1)

-- A packet that is not a data packet, with retransmission and an open device.
abbrev pub Sending : Context → Type 0
Sending c = (c.retrans ≡ true) × (c.dev_handle ≡ true) × (is_control c.write_info.buffer ≡ true)

-- What a round keeps: the message was posted already, or is still to be posted.
abbrev due : Context → ℕ
due c = pending_writes c.messages + count (not c.write_cb_invoked)

-- What a round of the writer leaves.
abbrev Sent : Context → Context → Type 0
Sent c x =
    Sending x
    × (x.timer_id ≡ c.timer_id)
    × (x.current_retry_count ≡ c.current_retry_count)
    × (x.write_info.enabled ≡ false)
    × (due x ≡ due c)
    × ((x.write_cb_invoked || not (c.current_retry_count == 0)) ≡ true)

-- What a round leaves: the packet is to be sent again, unless no retry was left.
abbrev Round : Context → Context → Type 0
Round c y =
    Sending y
    × (due y ≡ due c)
    × (y.current_retry_count ≡ c.current_retry_count - 1)
    × (y.write_info.enabled ≡ not (c.current_retry_count == 0))
    × ((y.write_cb_invoked || not (c.current_retry_count == 0)) ≡ true)

-- A writer without a request, and a timer without a retry.
abbrev Over : Context → Context → Type 0
Over c y =
    (due y ≡ due c)
    × (y.write_cb_invoked ≡ c.write_cb_invoked)
    × (y.current_retry_count ≡ 0)
    × (y.write_info.enabled ≡ false)
