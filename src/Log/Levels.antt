-- ===== src/Log/Levels.antt =====
-- The levels: their names, the filter of `log_by_level`, and `log_set_level`.
use sync_agent.Base.{
  ℕ, zero, suc, ◌≤◌, ◌≡◌, ◌∙◌, ◌⊎◌, inl, inr, ap, refl, Bool, true, false, none, some, List, Option,
  [], arith, if◌then◌else◌, Bool-cases, Bytes, codes, equal_nocase,
}
use sync_agent.Base.Int.{ℤ, pos, negsuc, minus_one, ltb_ℤ, ◌≤ℤ◌}
use sync_agent.Effect.{Effect}
use sync_agent.Log.{
  Log, Env, Args, is_syslog, log_level_map, at_level, format_line, full_format, put_line, log_to_fd,
  log_by_level, log_set_level, log_level_str, log_level_int, log_level_error,
}

-- The name of each level is read back as that level.
pub log_level_int-log_level_str :
    (log : Log) (env : Env) (args : Args) (level : ℕ)
    → level ≤ 3
    → (name : Bytes) × (log_level_str log env args (pos level) ≡ some (some name, []))
      × (log_level_int name ≡ pos level)
unfolding log_level_str log_level_int equal_nocase
log_level_int-log_level_str log env args zero h = (codes "DEBUG", refl, refl)
log_level_int-log_level_str log env args (suc zero) h = (codes "INFO", refl, refl)
log_level_int-log_level_str log env args (suc (suc zero)) h = (codes "WARN", refl, refl)
log_level_int-log_level_str log env args (suc (suc (suc zero))) h = (codes "ERROR", refl, refl)
log_level_int-log_level_str log env args (suc (suc (suc (suc n)))) h = absurd (omega arith)

-- `log_level_int` returns a level from 0 to 3, or -1.
pub log_level_int_range :
    (s : Bytes)
    → ((log_level_int s ≡ minus_one) ⊎ ((level : ℕ) × (log_level_int s ≡ pos level) × (level ≤ 3)))
unfolding log_level_int
log_level_int_range s = elim (Bool-cases (equal_nocase s (codes "debug"))) [
  | inl e ↦ inr (0, rw e, omega arith)
  | inr a ↦ elim (Bool-cases (equal_nocase s (codes "info"))) [
    | inl e ↦ inr (1, rw (a, e), omega arith)
    | inr b ↦ elim (Bool-cases (equal_nocase s (codes "warn"))) [
      | inl e ↦ inr (2, rw (a, b, e), omega arith)
      | inr c ↦ elim (Bool-cases (equal_nocase s (codes "error"))) [
        | inl e ↦ inr (3, rw (a, b, c, e), omega arith)
        | inr d ↦ inl (rw (a, b, c, d))
      ]
    ]
  ]
]

-- What `log_by_level` does where it does not log to syslog: nothing below the threshold, and else one
-- line, with the name of the level, to the descriptor.
pub data Outcome (log : Log) (env : Env) (level : ℤ) (fmt : Bytes) (args : Args)
    : Option (Bool × List Effect) → Type 0 where
  filtered :
      {r : Option (Bool × List Effect)}
      → ltb_ℤ level log.log_level ≡ true
      → r ≡ some (true, [])
      → Outcome log env level fmt args r
  logged :
      {r : Option (Bool × List Effect)} (name : Bytes)
      → ltb_ℤ level log.log_level ≡ false
      → at_level log_level_map (if ltb_ℤ log_level_error level then log_level_error else level)
        ≡ some name
      → r ≡ some (put_line log (format_line args (full_format env name fmt)))
      → Outcome log env level fmt args r

pub above :
    (n : ℕ)
    → (if ltb_ℤ log_level_error (pos (suc (suc (suc n))))
        then log_level_error
        else pos (suc (suc (suc n))))
      ≡ log_level_error
above n = ground arith

level_name :
    (n : ℕ)
    → (name : Bytes) × (at_level log_level_map
          (if ltb_ℤ log_level_error (pos n) then log_level_error else pos n)
        ≡ some name)
level_name zero = (codes "DEBUG", refl)
level_name (suc zero) = (codes "INFO", refl)
level_name (suc (suc zero)) = (codes "WARN", refl)
level_name (suc (suc (suc n))) = (codes "ERROR", rw (above n))

below :
    (log : Log) (env : Env) (level : ℤ) (fmt : Bytes) (args : Args)
    → ltb_ℤ level log.log_level ≡ true
    → log_by_level log env level fmt args ≡ some (true, [])
unfolding log_by_level
below log env level fmt args low = rw low

above_fd :
    (log : Log) (env : Env) (level : ℤ) (fmt : Bytes) (args : Args) (name : Bytes)
    → ltb_ℤ level log.log_level ≡ false
    → is_syslog log.log_dst ≡ false
    → at_level log_level_map (if ltb_ℤ log_level_error level then log_level_error else level)
      ≡ some name
    → log_by_level log env level fmt args
      ≡ some (put_line log (format_line args (full_format env name fmt)))
unfolding log_by_level log_to_fd
above_fd log env level fmt args name high d e = rw (high, d, e)

-- With a threshold that is not negative, `log_by_level` to the console or a file never faults: a level
-- below the threshold is dropped, any other writes one line with the name of the level, or, where the
-- text cannot be formatted or is empty, returns 0.
pub log_by_level_lem :
    (log : Log) (env : Env) (level : ℤ) (fmt : Bytes) (args : Args)
    → pos 0 ≤ℤ log.log_level
    → is_syslog log.log_dst ≡ false
    → Outcome log env level fmt args (log_by_level log env level fmt args)
log_by_level_lem log env (negsuc n) fmt args h d =
    let low : ltb_ℤ (negsuc n) log.log_level ≡ true = ground arith in
    filtered low (below log env (negsuc n) fmt args low)
log_by_level_lem log env (pos n) fmt args h d = elim (Bool-cases (ltb_ℤ (pos n) log.log_level)) [
  | inl low ↦ filtered low (below log env (pos n) fmt args low)
  | inr high ↦
      let (name, e) = level_name n in
      logged name high e (above_fd log env (pos n) fmt args name high d e)
]

-- The names of the levels, from ERROR on the same.
abbrev pub level_label : ℕ → Bytes
level_label zero = codes "DEBUG"
level_label (suc zero) = codes "INFO"
level_label (suc (suc zero)) = codes "WARN"
level_label (suc (suc (suc n))) = codes "ERROR"

-- With a negative threshold, a negative level that passes it reads in front of the table of names.
pub log_by_level_faults :
    (log : Log) (env : Env) (n : ℕ) (fmt : Bytes) (args : Args)
    → is_syslog log.log_dst ≡ false
    → log.log_level ≤ℤ negsuc n
    → log_by_level log env (negsuc n) fmt args ≡ none
log_by_level_faults log env n fmt args d h =
    let high : ltb_ℤ (negsuc n) log.log_level ≡ false = ground arith in
    let small : ltb_ℤ log_level_error (negsuc n) ≡ false = ground arith in
    unfold log_by_level log_to_fd in rw (high, d, small)

set_in_range :
    (log : Log) (level : ℤ)
    → pos 0 ≤ℤ log.log_level
    → log.log_level ≤ℤ pos 3
    → log_set_level level log ≡ record log { log_level = level }
unfolding log_set_level
set_in_range log level lo hi = ground arith

set_from_low :
    (log : Log) (level : ℤ)
    → log.log_level ≤ℤ minus_one
    → (log_set_level level log).log_level ≡ pos 0
unfolding log_set_level
set_from_low log level low = ground arith

set_from_high :
    (log : Log) (level : ℤ) → pos 4 ≤ℤ log.log_level → (log_set_level level log).log_level ≡ pos 3
unfolding log_set_level
set_from_high log level high = ground arith

-- `log_set_level` tests the old threshold where it means the new one. From a threshold in range it
-- takes any level, in range or not; and the call after one that left the range only brings the
-- threshold back to DEBUG or ERROR, whatever it asks for.
pub log_set_level_lem :
    (log : Log) (first second : ℤ)
    → pos 0 ≤ℤ log.log_level
    → log.log_level ≤ℤ pos 3
    → let log' = log_set_level first log in
      (log'.log_level ≡ first)
      × (first ≤ℤ minus_one → (log_set_level second log').log_level ≡ pos 0)
      × (pos 4 ≤ℤ first → (log_set_level second log').log_level ≡ pos 3)
log_set_level_lem log first second lo hi =
    let e = set_in_range log first lo hi in
    (
      ap (λ (l : Log). l.log_level) e,
      λ low.
          ap (λ l. (log_set_level second l).log_level) e
          ∙ set_from_low (record log { log_level = first }) second low,
      λ high.
          ap (λ l. (log_set_level second l).log_level) e
          ∙ set_from_high (record log { log_level = first }) second high,
    )
