-- ===== src/Line/Tracker.antt =====
-- control/line_tracker.c: the turn that the line asks for. The controller and the sensor behind the
-- two static pointers, which `Control_LineTracker_Init` sets, are arguments and results.
use nuedc_control_car_freert.Prelude.{Bool, if◌then◌else◌}
use nuedc_control_car_freert.Platform.{Reader}
use nuedc_control_car_freert.Control.Pid
use nuedc_control_car_freert.Control.Pid.{Pid}
use nuedc_control_car_freert.Line
use nuedc_control_car_freert.Line.{LineSensor}
use nuedc_control_car_freert.Float.{Float, ◌≺◌, lit, zero_f, neg}

module _ {F : Type 0} ⦃f : Float F⦄ where
  -- TRACK_LOST_DIFF
  abbrev pub track_lost_diff : F
  track_lost_diff = lit 18 2

  unfoldable pub init : LineSensor F → LineSensor F
  init s = Line.reset s

  -- the turn away from the line, by the side on which it was seen last
  unfoldable pub seek : F → F
  seek hold =
      if zero_f ≺ hold
      then track_lost_diff
      else if hold ≺ zero_f
      then neg track_lost_diff
      else zero_f

  unfoldable pub update : Reader → LineSensor F → Pid F → LineSensor F × Pid F × F
  update reader s pid =
      let seen = Line.update reader s in
      let followed = Pid.update pid zero_f seen.frame.bias in
      if seen.frame.on_line
      then (seen, followed, followed.last_output)
      else (seen, pid, seek seen.frame.last_bias)

  unfoldable pub is_on_line : LineSensor F → Bool
  is_on_line s = s.frame.on_line

  unfoldable pub get_last_bias : LineSensor F → F
  get_last_bias s = s.frame.last_bias
