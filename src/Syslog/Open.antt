-- ===== src/Syslog/Open.antt =====
-- `syslog_open` on all its branches.
use mathlib.Core.Option
use sync_agent.Base.{
  ◌≤◌, ◌≡◌, ◌≢◌, ◌⊎◌, inl, inr, refl, true, false, Bool-cases, ◌||◌, none, some, Option, arith,
  length, take, Bytes, length-take, [],
}
use sync_agent.Base.Int.{ℤ, pos, minus_one, ltb_ℤ, ◌≤ℤ◌}
use sync_agent.Syslog.{Syslog, copy_name, host_name, syslog_open, syslog_kern, syslog_local7}

-- The client can send: a socket, a facility in range, and names that fit their arrays.
pub record IsOpen (s : Syslog) : Type 0 where
  pub socket : pos 0 ≤ℤ s.sock_fd
  pub facility_low : syslog_kern ≤ℤ s.facility
  pub facility_high : s.facility ≤ℤ syslog_local7
  pub hostname_fits : length s.hostname ≤ 31
  pub program_fits : length s.program ≤ 31

length-copy_name : (s : Bytes) → length (copy_name s) ≤ 31
length-copy_name s = omega (arith, length-take 31 s)

length-host_name : (h : Option Bytes) → length (host_name h) ≤ 31
length-host_name none = omega arith
length-host_name (some h) = length-copy_name h

-- What `syslog_open` asks of its arguments and of what it calls.
abbrev pub Accepts :
    (aton : Bytes → ℤ) (sock : ℤ) (ip : Option Bytes) (facility : ℤ) (program : Option Bytes)
    → Type 0
Accepts aton sock none facility program = ⊥
Accepts aton sock (some ip) facility none = ⊥
Accepts aton sock (some ip) facility (some program) =
    (pos 0 ≤ℤ aton (take 31 ip))
    × (pos 0 ≤ℤ sock)
    × (syslog_kern ≤ℤ facility)
    × (facility ≤ℤ syslog_local7)

-- The first 31 bytes of a string that may be NULL.
abbrev pub first_31 : Option Bytes → Bytes
first_31 none = []
first_31 (some s) = take 31 s

-- `syslog_open` returns 1 exactly if it has an address and a program, `inet_aton` does not return a
-- negative number, `socket` does not fail and the facility is in range. The client is then open on the
-- address, the port, the socket, the facility and the names asked for, each name cut to 31 bytes; that
-- the address is valid does not follow. Else the facility and the names stay as they were.
pub syslog_open_lem :
    (aton : Bytes → ℤ) (sock : ℤ) (ip : Option Bytes) (port facility : ℤ)
    (hostname program : Option Bytes) (s : Syslog)
    → let (result, s') = syslog_open aton sock ip port facility hostname program s in
      ((result ≡ pos 1)
        × Accepts aton sock ip facility program
        × IsOpen s'
        × (some s'.ip ≡ Option.map (take 31) ip)
        × (s'.port ≡ port)
        × (s'.sock_fd ≡ sock)
        × (s'.facility ≡ facility)
        × (s'.hostname ≡ first_31 hostname)
        × (some s'.program ≡ Option.map (take 31) program))
      ⊎ ((result ≢ pos 1)
          × ¬ (Accepts aton sock ip facility program)
          × (s'.facility ≡ s.facility)
          × (s'.hostname ≡ s.hostname)
          × (s'.program ≡ s.program))
unfolding syslog_open
syslog_open_lem aton sock none port facility hostname program s =
    inr (ground arith, λ h. h, refl, refl, refl)
syslog_open_lem aton sock (some ip) port facility hostname none s =
    inr (ground arith, λ h. h, refl, refl, refl)
syslog_open_lem aton sock (some ip) port facility hostname (some program) s =
    elim (Bool-cases (ltb_ℤ (aton (take 31 ip)) (pos 0))) [
      | inl a ↦ rw a (inr (not_one, λ h. negative (aton (take 31 ip)) a h.0, refl, refl, refl))
      | inr a ↦ elim (Bool-cases (ltb_ℤ sock (pos 0))) [
        | inl b ↦ rw (a, b) (inr (not_one, λ h. negative sock b h.1, refl, refl, refl))
        | inr b ↦ elim (Bool-cases (ltb_ℤ facility syslog_kern || ltb_ℤ syslog_local7 facility)) [
          | inl c ↦ rw (a, b, c) (inr (not_one, λ h. outside facility c h.2 h.3, refl, refl, refl))
          | inr c ↦
              let (low, high) = in_range facility c in
              rw (a, b, c)
                (inl (
                  refl,
                  (not_negative (aton (take 31 ip)) a, not_negative sock b, low, high),
                  record {
                    socket = not_negative sock b;
                    facility_low = low;
                    facility_high = high;
                    hostname_fits = length-host_name hostname;
                    program_fits = length-copy_name program;
                  },
                  refl,
                  refl,
                  refl,
                  refl,
                  host_name_lem hostname,
                  refl,
                ))
        ]
      ]
    ]
  where
    not_one : minus_one ≢ pos 1
    not_one = ground arith

    negative : (x : ℤ) → ltb_ℤ x (pos 0) ≡ true → pos 0 ≤ℤ x → ⊥
    negative x e h = ground arith

    not_negative : (x : ℤ) → ltb_ℤ x (pos 0) ≡ false → pos 0 ≤ℤ x
    not_negative x e = ground arith

    outside :
        (x : ℤ)
        → (ltb_ℤ x syslog_kern || ltb_ℤ syslog_local7 x) ≡ true
        → syslog_kern ≤ℤ x
        → x ≤ℤ syslog_local7
        → ⊥
    outside x e l h = ground arith

    in_range :
        (x : ℤ)
        → (ltb_ℤ x syslog_kern || ltb_ℤ syslog_local7 x) ≡ false
        → (syslog_kern ≤ℤ x) × (x ≤ℤ syslog_local7)
    in_range x e = ground arith

    host_name_lem : (h : Option Bytes) → host_name h ≡ first_31 h
    host_name_lem none = refl
    host_name_lem (some h) = refl

-- A refused address: `inet_aton` returns 0 for it, never a negative number, so `syslog_open` does
-- not notice, and returns 1 as for a good one.
pub syslog_open_ignores_aton :
    (aton : Bytes → ℤ) (sock : ℤ) (ip : Bytes) (port facility : ℤ) (hostname : Option Bytes)
    (program : Bytes) (s : Syslog)
    → aton (copy_name ip) ≡ pos 0
    → pos 0 ≤ℤ sock
    → syslog_kern ≤ℤ facility
    → facility ≤ℤ syslog_local7
    → (syslog_open aton sock (some ip) port facility hostname (some program) s).0 ≡ pos 1
unfolding syslog_open
syslog_open_ignores_aton aton sock ip port facility hostname program s bad sk lo hi = ground arith

-- A facility out of range makes `syslog_open` fail, but its socket stays open in the state, so that
-- `syslog_write` goes on sending.
pub syslog_open_keeps_socket :
    (aton : Bytes → ℤ) (sock : ℤ) (ip : Bytes) (port facility : ℤ) (hostname : Option Bytes)
    (program : Bytes) (s : Syslog)
    → pos 0 ≤ℤ aton (copy_name ip)
    → pos 0 ≤ℤ sock
    → (ltb_ℤ facility syslog_kern || ltb_ℤ syslog_local7 facility) ≡ true
    → let (result, s') = syslog_open aton sock (some ip) port facility hostname (some program) s in
      (result ≡ minus_one) × (s'.sock_fd ≡ sock) × (s'.facility ≡ s.facility)
unfolding syslog_open
syslog_open_keeps_socket aton sock ip port facility hostname program s a sk bad = ground arith
