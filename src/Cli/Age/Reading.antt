-- ===== src/Cli/Age/Reading.antt =====
-- What a reader of cmd/cli/helpers.go's ages learns.
use kubecopilot_core.Common.{
  ℕ, suc, ◌-◌, ◌*◌, ◌/◌, ◌≤◌, ◌<◌, ◌≡◌, refl, ◌∙◌, arith, String, false, ltb, Bool-cases, inl, inr,
}
use kubecopilot_core.Common.Text.{◌<>◌, decimal}
use kubecopilot_core.Common.Text.Numbers.{read, read-decimal, read-EndsNumber, EndsNumber}
use kubecopilot_core.Cli.Age.{second, minute, hour, day, format_age}

pub data AgeUnit : Type 0 where
  seconds minutes hours days : AgeUnit

abbrev pub symbol : AgeUnit → String
symbol AgeUnit.seconds = "s"
symbol AgeUnit.minutes = "m"
symbol AgeUnit.hours = "h"
symbol AgeUnit.days = "d"

abbrev pub millis : AgeUnit → ℕ
millis AgeUnit.seconds = second
millis AgeUnit.minutes = minute
millis AgeUnit.hours = hour
millis AgeUnit.days = day

-- The counts for which a unit is the largest that fits.
abbrev pub Fits : AgeUnit → ℕ → Type 0
Fits AgeUnit.seconds n = n < 60
Fits AgeUnit.minutes n = (0 < n) × (n < 60)
Fits AgeUnit.hours n = (0 < n) × (n < 24)
Fits AgeUnit.days n = 0 < n

-- The text is a count of a unit, which is the duration `d` rounded down.
pub record Reads (d : ℕ) (text : String) : Type 0 where
  pub unit : AgeUnit
  pub count : ℕ
  pub text_read : read 0 text ≡ (count, symbol unit)
  pub not_above : count * millis unit ≤ d
  pub not_below : d < suc count * millis unit
  pub fits : Fits unit count

read-printed : (n : ℕ) (t : String) → EndsNumber t → read 0 (decimal n <> t) ≡ (n, t)
read-printed n t h = read-decimal n t ∙ read-EndsNumber n t h

-- The age of an object that is not from the future reads as a number and a unit, s, m, h or d. The
-- unit is the largest that the age reaches, or seconds, and the number is how often the unit goes
-- into the age.
pub format_age-Reads : (now t : ℕ) → t ≤ now → Reads (now - t) (format_age now t)
unfolding format_age
format_age-Reads now t past =
    let d = now - t in
    let present : ltb now t ≡ false = ground arith in
    rw present (elim (Bool-cases (ltb d minute)) [
      | inl s ↦ rw s (record {
        unit = AgeUnit.seconds;
        count = d / second;
        text_read = read-printed (d / second) "s" refl;
        not_above = omega arith;
        not_below = omega arith;
        fits = ground arith;
      })
      | inr s ↦ rw s (elim (Bool-cases (ltb d hour)) [
        | inl m ↦ rw m (record {
          unit = AgeUnit.minutes;
          count = d / minute;
          text_read = read-printed (d / minute) "m" refl;
          not_above = omega arith;
          not_below = omega arith;
          fits = ground arith;
        })
        | inr m ↦ rw m (elim (Bool-cases (ltb d day)) [
          | inl h ↦ rw h (record {
            unit = AgeUnit.hours;
            count = d / hour;
            text_read = read-printed (d / hour) "h" refl;
            not_above = omega arith;
            not_below = omega arith;
            fits = ground arith;
          })
          | inr h ↦ rw h (record {
            unit = AgeUnit.days;
            count = d / day;
            text_read = read-printed (d / day) "d" refl;
            not_above = omega arith;
            not_below = omega arith;
            fits = ground arith;
          })
        ])
      ])
    ])
