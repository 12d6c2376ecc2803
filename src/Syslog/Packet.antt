-- ===== src/Syslog/Packet.antt =====
-- The datagram of `syslog_write`: its size, and the month that it names.

use sync_agent.Base.{
  ℕ, zero, suc, ◌+◌, ◌-◌, ◌<◌, ◌≤◌, ◌≡◌, ◌≢◌, inl, inr, ap, refl, true, false, none, some, List, [],
  ◌∷◌, ◌++◌, arith, length, take, get_elem?, get_or, get_elem?-eq-get_or, ltb, if◌then◌else◌,
  Bool-cases, Bytes, codes, length-append, length-take, take-of_le,
}
use sync_agent.Base.Int.{ℤ, pos, ltb_ℤ, ◌≤ℤ◌}
use sync_agent.Base.Decimal.{show_int, length-show_nat, length-show_int, length-show_padded}
use sync_agent.Effect.{send}
use sync_agent.Syslog.{
  Syslog, Tm, months, month_name, pri_field, header_field, tag_field, add_message, packet,
  packet_size, send_packet, syslog_write, write_level, makepri,
}
use sync_agent.Syslog.Open.{IsOpen}

-- The text in front of the message.
abbrev pub fields : Syslog → Tm → ℕ → ℕ → Bytes → Bytes
fields s tm pid level month = pri_field s level ++ (header_field s tm month ++ tag_field s pid)

length-pri_field : (s : Syslog) (level : ℕ) → length (pri_field s level) ≤ 13
unfolding pri_field
length-pri_field s level = omega (
  arith,
  length-show_int (makepri s.facility level),
  length-append (show_int (makepri s.facility level)) (codes ">"),
)

length-header_field :
    (s : Syslog) (tm : Tm) (month : Bytes)
    → length s.hostname ≤ 31
    → length (header_field s tm month) ≤ length month + 85
unfolding header_field
length-header_field s tm month h = omega (arith, length-append {0}, length-show_padded)

length-tag_field : (s : Syslog) (pid : ℕ) → length s.program ≤ 31 → length (tag_field s pid) ≤ 45
unfolding tag_field
length-tag_field s pid h = omega (arith, length-append {0}, length-show_nat)

-- The twelve months that `month_name` finds.
length-month_name : (m : ℕ) (name : Bytes) → month_name m ≡ some name → length name ≡ 3
length-month_name zero name h = unfold month_name in cc
length-month_name (suc m) name h = unfold month_name in three months m name (omega arith) h
  where
    Three : List Bytes → Type 0
    Three [] = Unit
    Three (x ∷ xs) = (length x ≡ 3) × Three xs

    three :
        (xs : List Bytes) (i : ℕ) (name : Bytes)
        → Three xs
        → get_elem? xs i ≡ some name
        → length name ≡ 3
    three [] i name t e = cc
    three (x ∷ xs) zero name t e = ground (arith, t)
    three (x ∷ xs) (suc i) name t e = three xs i name t.1 e

length-fields :
    (s : Syslog) (tm : Tm) (pid level : ℕ) (month : Bytes)
    → length s.hostname ≤ 31
    → length s.program ≤ 31
    → length month ≡ 3
    → length (fields s tm pid level month) ≤ 146
length-fields s tm pid level month h p m = omega (
  arith,
  length-append (pri_field s level) (header_field s tm month ++ tag_field s pid),
  length-append (header_field s tm month) (tag_field s pid),
  length-pri_field s level,
  length-header_field s tm month h,
  length-tag_field s pid p,
)

add_message_lem :
    (f msg : Bytes)
    → length f < packet_size
    → add_message f msg ≡ some (f ++ take (packet_size - length f) msg)
unfolding add_message
add_message_lem f msg h = elim (Bool-cases (ltb (length msg) (packet_size - length f))) [
  | inl e ↦ ground (arith, take-of_le (packet_size - length f) msg)
  | inr e ↦ ground arith
]

month_found : (m : ℕ) → 1 ≤ m → m ≤ 12 → month_name m ≡ some (get_or months (m - 1) [])
unfolding month_name
month_found zero lo hi = absurd (omega arith)
month_found (suc m) lo hi =
    let e : suc m - 1 ≡ m = omega arith in rw e (get_elem?-eq-get_or months m [] (omega arith))

write_sends :
    (s : Syslog) (tm : Tm) (pid level : ℕ) (sent : ℤ) (msg bytes : Bytes)
    → ltb 7 level ≡ false
    → ltb_ℤ s.sock_fd (pos 0) ≡ false
    → packet s tm pid level msg ≡ some bytes
    → syslog_write s tm pid sent (pos level) msg
      ≡ some (if ltb_ℤ sent (pos 0) then false else true, send s.sock_fd bytes ∷ [])
unfolding write_level send_packet syslog_write
write_sends s tm pid level sent msg bytes high low made = rw (high, low, made)

sends :
    (s : Syslog) (tm : Tm) (pid level : ℕ) (sent : ℤ) (msg month bytes : Bytes)
    → pos 0 ≤ℤ s.sock_fd
    → level ≤ 7
    → month_name tm.mon ≡ some month
    → add_message (fields s tm pid level month) msg ≡ some bytes
    → syslog_write s tm pid sent (pos level) msg
      ≡ some (if ltb_ℤ sent (pos 0) then false else true, send s.sock_fd bytes ∷ [])
sends s tm pid level sent msg month bytes sock lv named built =
    let high : ltb 7 level ≡ false = ground arith in
    let low : ltb_ℤ s.sock_fd (pos 0) ≡ false = ground arith in
    let made : packet s tm pid level msg ≡ some bytes = unfold packet in rw (named, packet) built in
    write_sends s tm pid level sent msg bytes high low made

-- A severity and a month number from 1 to 12: `syslog_write` on an open client sends one datagram of
-- at most 1024 bytes, which is the fields and then as much of the message as fits. It returns 1
-- exactly if `sendto` does not fail.
pub syslog_write_lem :
    (s : Syslog) (tm : Tm) (pid level : ℕ) (sent : ℤ) (msg : Bytes)
    → IsOpen s
    → level ≤ 7
    → 1 ≤ tm.mon
    → tm.mon ≤ 12
    → (month bytes : Bytes) × (month_name tm.mon ≡ some month)
      × (bytes
          ≡ fields s tm pid level month
            ++ take (packet_size - length (fields s tm pid level month)) msg)
      × (length bytes ≤ packet_size)
      × (syslog_write s tm pid sent (pos level) msg
          ≡ some (if ltb_ℤ sent (pos 0) then false else true, send s.sock_fd bytes ∷ []))
syslog_write_lem s tm pid level sent msg o lv lo hi =
    let month = get_or months (tm.mon - 1) [] in
    let named : month_name tm.mon ≡ some month = month_found tm.mon lo hi in
    let f = fields s tm pid level month in
    let small : length f ≤ 146 =
      length-fields s tm pid level month o.hostname_fits o.program_fits
        (length-month_name tm.mon month named) in
    (
      month,
      f ++ take (packet_size - length f) msg,
      named,
      refl,
      omega (
        arith,
        length-append f (take (packet_size - length f) msg),
        length-take (packet_size - length f) msg,
      ),
      sends s tm pid level sent msg month (f ++ take (packet_size - length f) msg) o.socket lv named
          (add_message_lem f msg (omega arith)),
    )

-- In January `tm_mon` is 0, and `syslog_write` reads in front of the table of months, whatever else
-- it is given, if the client has a socket and the severity is in range.
pub syslog_write_january :
    (s : Syslog) (tm : Tm) (pid level : ℕ) (sent : ℤ) (msg : Bytes)
    → pos 0 ≤ℤ s.sock_fd
    → level ≤ 7
    → tm.mon ≡ 0
    → syslog_write s tm pid sent (pos level) msg ≡ none
syslog_write_january s tm pid level sent msg sock lv jan =
    let high : ltb 7 level ≡ false = ground arith in
    let low : ltb_ℤ s.sock_fd (pos 0) ≡ false = ground arith in
    let lost : packet s tm pid level msg ≡ none = unfold packet month_name in rw jan in
    unfold syslog_write write_level send_packet in rw (high, low, lost)

-- Neighbours in a list differ.
abbrev Changing : List Bytes → Type 0
Changing [] = Unit
Changing (x ∷ []) = Unit
Changing (x ∷ y ∷ r) = (x ≢ y) × Changing (y ∷ r)

months-Changing : Changing months
months-Changing = ground arith

Changing_lem :
    (xs : List Bytes) (i : ℕ)
    → Changing xs
    → suc i < length xs
    → get_elem? xs i ≢ get_elem? xs (suc i)
Changing_lem [] i c h = absurd (omega arith)
Changing_lem (x ∷ []) i c h = absurd (omega arith)
Changing_lem (x ∷ y ∷ r) zero c h = λ e. c.0 (cc)
Changing_lem (x ∷ y ∷ r) (suc i) c h = Changing_lem (y ∷ r) i c.1 (omega arith)

-- In any other month the datagram names the month before: `month_name` of `tm_mon` is the name at
-- `tm_mon - 1` in a table that starts with January at 0.
pub month_name_behind :
    (mon : ℕ)
    → 1 ≤ mon
    → mon ≤ 11
    → (month_name mon ≡ get_elem? months (mon - 1)) × (month_name mon ≢ get_elem? months mon)
unfolding month_name
month_name_behind zero lo hi = absurd (omega arith)
month_name_behind (suc m) lo hi =
    (ap (get_elem? months) (omega arith), Changing_lem months m months-Changing (omega arith))
