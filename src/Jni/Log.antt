-- ===== src/Jni/Log.antt =====
-- android_log (ircodec/projects/android/jni/ircodec.c:342): a line of the log from a text that has been
-- formatted.
use irbridge.Base.{
  ℕ, ◌-◌, ◌<◌, ◌≡◌, refl, false, List, [], ◌∷◌, ◌++◌, codes, length, take, take_all, leb,
  if◌then◌else◌, arith,
}

-- `sizeof(buf)`; `bp` is always at the start of `buf`.
abbrev pub available : ℕ
available = 1024

-- What is written to the log: a priority and a text. `vsnprintf` keeps one place for the zero.
pub record LogLine : Type 0 where
  pub priority : ℕ
  pub text : List ℕ

-- `warn` is `ANDROID_LOG_WARN`, which the platform gives.
unfoldable pub android_log : ℕ → ℕ → List ℕ → List LogLine → List LogLine
android_log warn type formatted log =
    let line : LogLine = record { priority = type; text = take (available - 1) formatted } in
    let warning : LogLine = record {
      priority = warn;
      text = codes "previous log line has been truncated!";
    } in
    log ++ (line ∷ (if leb available (length formatted) then warning ∷ [] else []))

-- A text that fits is logged as it is, without a warning.
android_log_whole :
    (warn type : ℕ) (formatted : List ℕ) (log : List LogLine)
    → length formatted < available
    → android_log warn type formatted log
      ≡ log ++ (record { priority = type; text = formatted } ∷ [])
unfolding android_log
android_log_whole warn type formatted log fits =
    let short : leb 1024 (length formatted) ≡ false = ground arith in
    let whole = take_all 1023 formatted (omega arith) in rw (short, whole) refl
