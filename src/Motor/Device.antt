-- ===== src/Motor/Device.antt =====
-- modules/motor/dev_motor.c. An operation returns the motor and the DriverLib calls that it makes.
-- A null `DevMotor` pointer does not occur: bsp_motor.c passes the elements of its array.
use nuedc_control_car_freert.Prelude.{◌≤◌, ◌≡◌, Bool, true, false, ◌||◌, List, arith, if◌then◌else◌}
use nuedc_control_car_freert.Prelude.Int.{ℤ, pos, negsuc, ltb_ℤ, neg_ℤ, clamp_ℤ, nat_abs}
use nuedc_control_car_freert.Prelude.Words.{i16}
use nuedc_control_car_freert.Platform.{Call, Reader}
use nuedc_control_car_freert.Platform.Gpio.{GpioPin}
use nuedc_control_car_freert.Platform.HBridge
use nuedc_control_car_freert.Platform.HBridge.{HBridgeMotor, is_zero}
use nuedc_control_car_freert.Platform.QuadEncoder
use nuedc_control_car_freert.Platform.QuadEncoder.{QuadEncoder, QuadEncoderConfig}

pub record DevMotorConfig : Type 0 where
  pub output : HBridgeMotor
  pub encoder : QuadEncoderConfig
  pub max_duty : ℤ
  pub has_encoder : Bool

pub record DevMotor : Type 0 where
  pub config : DevMotorConfig
  pub encoder : QuadEncoder
  pub duty : ℤ
  pub started : Bool

-- DEV_MOTOR_DUTY_MAX_DEFAULT
abbrev pub duty_max_default : ℤ
duty_max_default = pos 1000

abbrev not_positive : ℤ → Bool
not_positive z = ltb_ℤ z (pos 0) || is_zero z

unfoldable pub max_duty : DevMotor → ℤ
max_duty m = if not_positive m.config.max_duty then duty_max_default else m.config.max_duty

unfoldable pub clamp_signed : DevMotor → ℤ → ℤ
clamp_signed m duty =
    let limit = max_duty m in
    if ltb_ℤ limit duty
    then limit
    else if ltb_ℤ duty (i16 (neg_ℤ limit))
    then i16 (neg_ℤ limit)
    else duty

abbrev zero_pin : GpioPin
zero_pin = record { port = 0; pin = 0; active_low = false }

-- the encoder that `memset` leaves in a motor without one
abbrev pub zero_encoder : QuadEncoder
zero_encoder = record {
  config = record { phase_a = zero_pin; phase_b = zero_pin; direction = pos 0 };
  last_state = 0;
  delta = pos 0;
  total = pos 0;
}

unfoldable pub init : Reader → DevMotorConfig → DevMotor
init read_pins c = record {
  config = record c { max_duty = if not_positive c.max_duty then duty_max_default else c.max_duty };
  encoder = if c.has_encoder then QuadEncoder.init read_pins c.encoder else zero_encoder;
  duty = pos 0;
  started = false;
}

unfoldable pub start : Reader → DevMotor → DevMotor × List Call
start read_pins m = (
  record m {
    duty = pos 0;
    encoder = if m.config.has_encoder then QuadEncoder.reset read_pins m.encoder else m.encoder;
    started = true;
  },
  HBridge.start m.config.output,
)

unfoldable pub set_signed_duty : DevMotor → ℤ → DevMotor × List Call
unfolding clamp_signed
set_signed_duty m d =
    let duty = clamp_signed m d in
    (
      record m { duty = duty },
      if is_zero duty
          then HBridge.coast m.config.output
          else HBridge.set_signed_duty m.config.output duty,
    )

unfoldable pub set_duty : DevMotor → ℤ → DevMotor × List Call
unfolding set_signed_duty
set_duty m duty = set_signed_duty m (if ltb_ℤ duty (pos 0) then pos 0 else duty)

unfoldable pub coast : DevMotor → DevMotor × List Call
coast m = (record m { duty = pos 0 }, HBridge.coast m.config.output)

unfoldable pub brake : DevMotor → DevMotor × List Call
brake m = (record m { duty = pos 0 }, HBridge.brake m.config.output)

unfoldable pub get_duty : DevMotor → ℤ
get_duty m = m.duty

unfoldable pub poll_encoder : Reader → DevMotor → DevMotor
poll_encoder read_pins m =
    if m.config.has_encoder then record m { encoder = QuadEncoder.poll read_pins m.encoder } else m

unfoldable pub get_encoder_delta : DevMotor → DevMotor × ℤ
get_encoder_delta m =
    let (e, d) = QuadEncoder.get_delta m.encoder in
    if m.config.has_encoder then (record m { encoder = e }, d) else (m, pos 0)

unfoldable pub get_encoder_total : DevMotor → ℤ
get_encoder_total m = if m.config.has_encoder then QuadEncoder.get_total m.encoder else pos 0

unfoldable pub reset_encoder : Reader → DevMotor → DevMotor
reset_encoder read_pins m =
    if m.config.has_encoder then record m { encoder = QuadEncoder.reset read_pins m.encoder } else m

pub max_duty_board : (m : DevMotor) → m.config.max_duty ≡ pos 1000 → max_duty m ≡ pos 1000
unfolding max_duty
max_duty_board m e = rw e

-- With the board's limit the clamp is the interval from -1000 to 1000.
pub clamp_signed_board :
    (m : DevMotor) (d : ℤ)
    → m.config.max_duty ≡ pos 1000
    → clamp_signed m d ≡ clamp_ℤ (negsuc 999) (pos 1000) d
unfolding clamp_signed
clamp_signed_board m d e = rw (max_duty_board m e)

pub clamp_ℤ_thousand : (d : ℤ) → nat_abs (clamp_ℤ (negsuc 999) (pos 1000) d) ≤ 1000
clamp_ℤ_thousand (pos n) = ground arith
clamp_ℤ_thousand (negsuc n) = ground arith

pub clamp_ℤ_idem :
    (d : ℤ)
    → clamp_ℤ (negsuc 999) (pos 1000) (clamp_ℤ (negsuc 999) (pos 1000) d)
      ≡ clamp_ℤ (negsuc 999) (pos 1000) d
clamp_ℤ_idem (pos n) = ground arith
clamp_ℤ_idem (negsuc n) = ground arith
