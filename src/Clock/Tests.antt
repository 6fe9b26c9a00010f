-- ===== src/Clock/Tests.antt =====
-- Examples of src/Clock.cc.
use gz_transport.Common.{◌≡◌, arith}
use gz_transport.Common.Int.{negsuc, pos}
use gz_transport.Clock.{sim_time, set_time, on_clock_message}
use gz_transport.Clock.Exchange.{on_clock_message-set_time}

on_clock_message-set_time_example :
    on_clock_message sim_time (set_time sim_time (negsuc 1500000000)) (pos 4) ≡ negsuc 1500000000
on_clock_message-set_time_example =
    on_clock_message-set_time sim_time (negsuc 1500000000) (pos 4) (omega arith)
