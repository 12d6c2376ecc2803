-- ===== src/Syslog.antt =====
-- src/core/base/esyslog.c and esyslog.h: the client of a syslog server over UDP. The static variables
-- are a record; the results of system calls are arguments. `none` is an access out of bounds.
pub mod Open
pub mod Packet
mod Tests
use Prim.Native.Nat.{bit_and, bit_or}
use sync_agent.Base.{
  ℕ, zero, suc, ◌+◌, ◌-◌, ◌*◌, Bool, true, false, ◌||◌, Option, none, some, List, [], ◌∷◌, ◌++◌,
  ltb, leb, if◌then◌else◌, length, take, get_elem?, Bytes, codes,
}
use sync_agent.Base.Int.{ℤ, pos, negsuc, minus_one, ltb_ℤ, eq_ℤ}
use sync_agent.Base.Decimal.{show_nat, show_int, show_padded}
use sync_agent.Effect.{Effect, close, send}

-- The severities.
abbrev pub syslog_emerg : ℤ
syslog_emerg = pos 0

abbrev pub syslog_debug : ℤ
syslog_debug = pos 7

-- The first and the last facility.
abbrev pub syslog_kern : ℤ
syslog_kern = pos 0

abbrev pub syslog_local7 : ℤ
syslog_local7 = pos (23 * 8)

-- `SYSLOG_MAKEPRI(fac, pri)`, `fac | pri` on `int`, for a `pri` that is not negative.
unfoldable pub makepri : ℤ → ℕ → ℤ
makepri (pos fac) pri = pos (bit_or fac pri)
makepri (negsuc fac) pri = negsuc (fac - bit_and fac pri)

-- The static variables; `syslog_addr` is made of the ip and the port.
pub record Syslog : Type 0 where
  pub ip : Bytes
  pub port : ℤ
  pub sock_fd : ℤ
  pub facility : ℤ
  pub hostname : Bytes
  pub program : Bytes

-- Their values when the program starts.
abbrev pub closed : Syslog
closed = record {
  ip = [];
  port = pos 0;
  sock_fd = minus_one;
  facility = minus_one;
  hostname = [];
  program = [];
}

-- `strncpy` into a zeroed array of 32 bytes.
abbrev pub copy_name : Bytes → Bytes
copy_name s = take 31 s

-- The names that the end of `syslog_open` stores; `hostname` may be NULL.
abbrev pub host_name : Option Bytes → Bytes
host_name none = []
host_name (some h) = copy_name h

-- `syslog_open` with the pointers tested. `aton` is the result of `inet_aton`, `sock` that of
-- `socket`.
open_with :
    (aton : Bytes → ℤ) (sock : ℤ) → Bytes → ℤ → ℤ → Option Bytes → Bytes → Syslog → ℤ × Syslog
open_with aton sock ip port facility hostname program s =
    let s₁ = record s { ip = copy_name ip; port = port } in
    let s₂ = record s₁ { sock_fd = sock } in
    let s₃ = record s₂ {
      facility = facility;
      hostname = host_name hostname;
      program = copy_name program;
    } in
    if ltb_ℤ (aton (copy_name ip)) (pos 0)
    then (minus_one, s₁)
    else if ltb_ℤ sock (pos 0)
    then (minus_one, s₂)
    else if ltb_ℤ facility syslog_kern || ltb_ℤ syslog_local7 facility
    then (minus_one, s₂)
    else (pos 1, s₃)

-- `syslog_open`
unfoldable pub syslog_open :
    (aton : Bytes → ℤ) (sock : ℤ)
    → Option Bytes
    → ℤ
    → ℤ
    → Option Bytes
    → Option Bytes
    → Syslog
    → ℤ × Syslog
unfolding open_with
syslog_open aton sock none port facility hostname program s = (pos 0, s)
syslog_open aton sock (some ip) port facility hostname none s = (pos 0, s)
syslog_open aton sock (some ip) port facility hostname (some program) s =
    open_with aton sock ip port facility hostname program s

-- `struct tm`, as `localtime_r` fills it in: `mon` counts the months from 0.
pub record Tm : Type 0 where
  pub mon : ℕ
  pub mday : ℕ
  pub hour : ℕ
  pub minute : ℕ
  pub sec : ℕ

abbrev pub months : List Bytes
months =
    codes "Jan"
    ∷ codes "Feb"
    ∷ codes "Mar"
    ∷ codes "Apr"
    ∷ codes "May"
    ∷ codes "Jun"
    ∷ codes "Jul"
    ∷ codes "Aug"
    ∷ codes "Sep"
    ∷ codes "Oct"
    ∷ codes "Nov"
    ∷ codes "Dec"
    ∷ []

-- `months[tm.tm_mon - 1]`
unfoldable pub month_name : ℕ → Option Bytes
month_name zero = none
month_name (suc m) = get_elem? months m

-- The field PRI.
unfoldable pub pri_field : Syslog → ℕ → Bytes
unfolding makepri
pri_field s level = codes "<" ++ (show_int (makepri s.facility level) ++ codes ">")

-- The field HEADER, with the name of the month.
unfoldable pub header_field : Syslog → Tm → Bytes → Bytes
header_field s tm month =
    month
    ++ (codes " "
        ++ (show_padded b' ' 2 tm.mday
            ++ (codes " "
                ++ (show_padded b'0' 2 tm.hour
                    ++ (codes ":"
                        ++ (show_padded b'0' 2 tm.minute
                            ++ (codes ":"
                                ++ (show_padded b'0' 2 tm.sec
                                    ++ (codes " " ++ (s.hostname ++ codes " "))))))))))

-- The start of the field MSG.
unfoldable pub tag_field : Syslog → ℕ → Bytes
tag_field s pid = s.program ++ (codes "[" ++ (show_nat pid ++ codes "]: "))

abbrev pub packet_size : ℕ
packet_size = 1024

-- The message behind the fields, cut at the end of the buffer. Fields that do not fit would make the
-- size left wrap round: a fault.
unfoldable pub add_message : Bytes → Bytes → Option Bytes
add_message fields msg =
    if leb packet_size (length fields)
    then none
    else if ltb (length msg) (packet_size - length fields)
    then some (fields ++ msg)
    else some (fields ++ take (packet_size - length fields) msg)

-- The datagram that `syslog_write` builds.
unfoldable pub packet : Syslog → Tm → ℕ → ℕ → Bytes → Option Bytes
packet s tm pid level msg = elim (month_name tm.mon) [
  | none ↦ none
  | some month ↦ add_message (pri_field s level ++ (header_field s tm month ++ tag_field s pid)) msg
]

-- The end of `syslog_write`: the datagram is sent, and `sent` is the result of `sendto`.
unfoldable pub send_packet : Syslog → ℤ → Option Bytes → Option (Bool × List Effect)
send_packet s sent none = none
send_packet s sent (some bytes) =
    some (if ltb_ℤ sent (pos 0) then false else true, send s.sock_fd bytes ∷ [])

-- `syslog_write` of a message of `length msg` bytes at a severity that is not negative.
unfoldable pub write_level : Syslog → Tm → ℕ → ℤ → ℕ → Bytes → Option (Bool × List Effect)
write_level s tm pid sent level msg =
    if ltb 7 level
    then some (false, [])
    else if ltb_ℤ s.sock_fd (pos 0)
    then some (false, [])
    else send_packet s sent (packet s tm pid level msg)

-- `syslog_write`
unfoldable pub syslog_write : Syslog → Tm → ℕ → ℤ → ℤ → Bytes → Option (Bool × List Effect)
syslog_write s tm pid sent (negsuc level) msg = some (false, [])
syslog_write s tm pid sent (pos level) msg = write_level s tm pid sent level msg

-- `syslog_close`
unfoldable pub syslog_close : Syslog → List Effect × Syslog
syslog_close s =
    if ltb_ℤ s.sock_fd (pos 0)
    then ([], s)
    else (close s.sock_fd ∷ [], record s { sock_fd = minus_one })
