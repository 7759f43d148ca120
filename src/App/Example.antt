-- ===== src/App/Example.antt =====
-- A car at concrete values, for the runs.
use nuedc_control_car_freert.Prelude.{true, false, none, some}
use nuedc_control_car_freert.Prelude.Int.{ℤ, pos, negsuc}
use nuedc_control_car_freert.Platform.{Reader}
use nuedc_control_car_freert.Encoder
use nuedc_control_car_freert.Encoder.{Encoders, EncoderPins}
use nuedc_control_car_freert.Motor.Board
use nuedc_control_car_freert.Motor.Board.{MotorBoard, MotorPins}
use nuedc_control_car_freert.Control.Pid
use nuedc_control_car_freert.Control.Chassis.Setup
use nuedc_control_car_freert.Line
use nuedc_control_car_freert.Line.{LineSensorConfig}
use nuedc_control_car_freert.Telemetry.{Requests, cal_none}
use nuedc_control_car_freert.App.{World, Inputs, idle}
use nuedc_control_car_freert.Telemetry.Emit.{Bindings, Memory}
use nuedc_control_car_freert.Imu.State.{init_handle, zero_axes}
use nuedc_control_car_freert.Imu.Calibration
use nuedc_control_car_freert.Imu.Calibration.{Service, cleared, wait_still, service_yaw_requests}
use nuedc_control_car_freert.Imu.Task.{Snapshot, off}
use nuedc_control_car_freert.Float.{lit, zero_f, neg}
use nuedc_control_car_freert.Float.Micro.{micro}

abbrev pub low : Reader
low port mask = 0

abbrev pub motor_pins : MotorPins
motor_pins = record {
  pwm_inst = 1;
  pwm_channel = 0;
  dir_port1 = 2;
  dir_pin1 = 4;
  dir_port2 = 2;
  dir_pin2 = 8;
  enc_port = 3;
  enc_a_pin = 1;
  enc_b_pin = 2;
}

abbrev pub encoder_pins : EncoderPins
encoder_pins = record { port = 3; a_pin = 1; b_pin = 2 }

abbrev pub inputs : Inputs
inputs = record { reader = low; left_pins = encoder_pins; right_pins = encoder_pins }

abbrev pub no_requests : Requests
no_requests = record {
  start = false;
  stop = false;
  duty_pending = false;
  imu_cal = cal_none;
  duty = record { left_pwm = pos 0; right_pwm = pos 0; hold_ms = 0 };
}

-- seven sensors, none read
abbrev pub sensor_config : LineSensorConfig ℤ
sensor_config = record {
  array = none;
  read_raw = none;
  count = 7;
  contrast_threshold = 120;
  strength_threshold = 260;
  bias_alpha = lit 35 2;
}

-- the car idle, at 1000 ms told to turn its wheels at 700 and -50 for 300 ms
abbrev pub held : World ℤ
held = record {
  ctx = record {
    state = idle;
    chassis =
        Setup.set_debug_duty (Setup.init none (lit 8 0) (lit 1 1) zero_f) (pos 700) (negsuc 49) 1000
          300;
    line_pid = Pid.init (lit 18 2) zero_f (lit 2 2) (neg (lit 40 0)) (lit 40 0);
    line_turn = zero_f;
    imu_ready = true;
  };
  requests = no_requests;
  sensor = Line.init sensor_config;
  encoders = record { left = Encoder.fresh 0; right = Encoder.fresh 0 };
  motors = (Board.init low motor_pins motor_pins).0;
}

-- the car idle, with nothing asked of it
abbrev pub at_rest : World ℤ
at_rest = record held {
  ctx = record held.ctx { chassis = Setup.init none (lit 8 0) (lit 1 1) zero_f };
}

abbrev pub calm : Service ℤ
calm = record {
  imu = init_handle true;
  yaw_cal = cleared;
  start_requested = false;
  cancel_requested = false;
}

abbrev pub memory : Memory ℤ
memory = record { float_at = λ a. pos a; u8_at = λ a. a; u16_at = λ a. a }

abbrev pub bindings : Bindings
bindings = record {
  chassis = record {
    state = some 1;
    x_cm = some 2;
    y_cm = some 3;
    theta_rad = some 4;
    target_l = some 5;
    target_r = some 6;
    meas_l = some 7;
    meas_r = some 8;
    line_turn = some 9;
    valid = true;
  };
  line = record {
    raw = none;
    raw_count = 0;
    contrast = none;
    strength = none;
    bias = none;
    on_line = none;
    valid = false;
  };
  imu = record {
    pitch_deg = none;
    roll_deg = none;
    yaw_deg = none;
    gx_dps = none;
    gy_dps = none;
    gz_dps = none;
    ax_g = none;
    ay_g = none;
    az_g = none;
    ready = none;
    valid = false;
  };
}

abbrev pub asked_to_start : World ℤ
asked_to_start = record held { requests = record no_requests { start = true } }

abbrev pub no_snapshot : Snapshot ℤ
no_snapshot = record {
  sequence = 0;
  timestamp_ms = 0;
  accel_g = zero_axes;
  gyro_dps = zero_axes;
  temperature_c = zero_f;
  pitch_deg = zero_f;
  roll_deg = zero_f;
  yaw_deg = zero_f;
  gyro_bias_z_dps = zero_f;
  gyro_scale_z = zero_f;
  status = 0;
  state = off;
  yaw_cal_state = Calibration.idle;
  stationary = false;
  is_ready = false;
}
