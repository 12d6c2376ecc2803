-- ===== src/Syslog/Tests.antt =====
-- Runs of the syslog client, and its theorems at concrete states.

use sync_agent.Base.{
  leb, ◌-◌, ◌≤◌, ◌≡◌, ◌≢◌, ◌⊎◌, refl, true, false, none, some, [], ◌∷◌, ◌++◌, arith, length, take,
  get_elem?, Bytes, codes, if◌then◌else◌,
}
use sync_agent.Base.Decimal.{show_nat, show_int, show_padded}
use sync_agent.Base.Int.{ℤ, pos, minus_one, ltb_ℤ}
use sync_agent.Effect.{send, close}
use sync_agent.Syslog.{
  Syslog, Tm, closed, syslog_open, syslog_write, syslog_close, months, month_name, packet_size,
  packet, write_level, send_packet, pri_field, header_field, tag_field, add_message, makepri,
}
use sync_agent.Syslog.Open.{
  Accepts, IsOpen, syslog_open_lem, syslog_open_ignores_aton, syslog_open_keeps_socket,
}
use sync_agent.Syslog.Packet.{syslog_write_lem, fields, syslog_write_january, month_name_behind}

-- `inet_aton` as documented: 1 for an address, 0 for anything else.
abbrev aton : Bytes → ℤ
aton ip = if leb (length ip) 6 then pos 0 else pos 1

abbrev opened : Syslog
opened = record {
  ip = codes "127.0.0.1";
  port = pos 514;
  sock_fd = pos 5;
  facility = pos 128;
  hostname = codes "host";
  program = codes "test";
}

-- The 5th of March, as `localtime_r` gives it.
abbrev march : Tm
march = record { mon = 2; mday = 5; hour = 7; minute = 8; sec = 59 }

opens :
    syslog_open aton
      (pos 5)
      (some (codes "127.0.0.1"))
      (pos 514)
      (pos 128)
      (some (codes "host"))
      (some (codes "test"))
      closed
    ≡ (pos 1, opened)
unfolding syslog_open
opens = refl

sends_february :
    syslog_write opened march 42 (pos 30) (pos 6) (codes "hello")
    ≡ some (true, send (pos 5) (codes "<134>Feb  5 07:08:59 host test[42]: hello") ∷ [])
unfolding syslog_write write_level packet send_packet pri_field header_field tag_field add_message
    month_name show_nat show_int show_padded makepri
sends_february = refl

closes : syslog_close opened ≡ (close (pos 5) ∷ [], record opened { sock_fd = minus_one })
unfolding syslog_close
closes = refl

opened-IsOpen : IsOpen opened
opened-IsOpen = omega arith

syslog_open_lem_example :
    let (result, s') =
      syslog_open aton
        (pos 5)
        (some (codes "127.0.0.1"))
        (pos 514)
        (pos 200)
        none
        (some (codes "test"))
        closed in
    let asked = Accepts aton (pos 5) (some (codes "127.0.0.1")) (pos 200) (some (codes "test")) in
    ((result ≡ pos 1)
      × asked
      × IsOpen s'
      × (some s'.ip ≡ some (codes "127.0.0.1"))
      × (s'.port ≡ pos 514)
      × (s'.sock_fd ≡ pos 5)
      × (s'.facility ≡ pos 200)
      × (s'.hostname ≡ [])
      × (some s'.program ≡ some (codes "test")))
    ⊎ ((result ≢ pos 1)
        × ¬ asked
        × (s'.facility ≡ minus_one)
        × (s'.hostname ≡ [])
        × (s'.program ≡ []))
syslog_open_lem_example =
    syslog_open_lem aton (pos 5) (some (codes "127.0.0.1")) (pos 514) (pos 200) none
      (some (codes "test")) closed

syslog_open_ignores_aton_example :
    (syslog_open aton
      (pos 5)
      (some (codes "x"))
      (pos 514)
      (pos 128)
      none
      (some (codes "t"))
      closed).0
    ≡ pos 1
syslog_open_ignores_aton_example =
    syslog_open_ignores_aton aton (pos 5) (codes "x") (pos 514) (pos 128) none (codes "t") closed
      refl (omega arith) (omega arith) (omega arith)

syslog_open_keeps_socket_example :
    let (result, s') =
      syslog_open aton
        (pos 5)
        (some (codes "127.0.0.1"))
        (pos 514)
        (pos 999)
        none
        (some (codes "t"))
        closed in
    (result ≡ minus_one) × (s'.sock_fd ≡ pos 5) × (s'.facility ≡ minus_one)
syslog_open_keeps_socket_example =
    syslog_open_keeps_socket aton (pos 5) (codes "127.0.0.1") (pos 514) (pos 999) none (codes "t")
      closed (omega arith) (omega arith) refl

syslog_write_lem_example :
    (month bytes : Bytes) × (month_name 2 ≡ some month)
    × (bytes
        ≡ fields opened march 42 6 month
          ++ take (packet_size - length (fields opened march 42 6 month)) (codes "hello"))
    × (length bytes ≤ packet_size)
    × (syslog_write opened march 42 (pos 30) (pos 6) (codes "hello")
        ≡ some (if ltb_ℤ (pos 30) (pos 0) then false else true, send (pos 5) bytes ∷ []))
syslog_write_lem_example =
    syslog_write_lem opened march 42 6 (pos 30) (codes "hello") opened-IsOpen (omega arith)
      (omega arith) (omega arith)

syslog_write_january_example :
    syslog_write opened (record march { mon = 0 }) 42 (pos 30) (pos 6) (codes "hello") ≡ none
syslog_write_january_example =
    syslog_write_january opened (record march { mon = 0 }) 42 6 (pos 30) (codes "hello")
      (omega arith) (omega arith) refl

month_name_behind_example :
    (month_name 2 ≡ get_elem? months 1) × (month_name 2 ≢ get_elem? months 2)
month_name_behind_example = month_name_behind 2 (omega arith) (omega arith)
