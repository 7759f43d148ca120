-- ===== src/Control/Pid.antt =====
-- common/pid.c: the PID controller with a limited integral and a limited output.
pub mod Bounds
use nuedc_control_car_freert.Prelude.{if◌then◌else◌}
use nuedc_control_car_freert.Float.{Float, ◌⊕◌, ◌⊖◌, ◌⊗◌, ◌⊘◌, ◌≺◌, lit, zero_f, neg, abs, fmax}

-- `PID_t`
pub record Pid (F : Type 0) : Type 0 where
  pub kp : F
  pub ki : F
  pub kd : F
  pub integral : F
  pub prev_err : F
  pub last_setpoint : F
  pub last_measure : F
  pub last_error : F
  pub last_p : F
  pub last_i : F
  pub last_d : F
  pub last_deriv : F
  pub last_raw_output : F
  pub last_output : F
  pub out_min : F
  pub out_max : F

module _ {F : Type 0} ⦃f : Float F⦄ where
  unfoldable pub init : F → F → F → F → F → Pid F
  init kp ki kd omin omax = record {
    kp = kp;
    ki = ki;
    kd = kd;
    integral = zero_f;
    prev_err = zero_f;
    last_setpoint = zero_f;
    last_measure = zero_f;
    last_error = zero_f;
    last_p = zero_f;
    last_i = zero_f;
    last_d = zero_f;
    last_deriv = zero_f;
    last_raw_output = zero_f;
    last_output = zero_f;
    out_min = omin;
    out_max = omax;
  }

  unfoldable pub set_gains : Pid F → F → F → F → Pid F
  set_gains p kp ki kd = record p { kp = kp; ki = ki; kd = kd }

  unfoldable pub reset : Pid F → Pid F
  reset p = record p {
    integral = zero_f;
    prev_err = zero_f;
    last_setpoint = zero_f;
    last_measure = zero_f;
    last_error = zero_f;
    last_p = zero_f;
    last_i = zero_f;
    last_d = zero_f;
    last_deriv = zero_f;
    last_raw_output = zero_f;
    last_output = zero_f;
  }

  -- `if (x > hi) x = hi; if (x < lo) x = lo;`
  unfoldable pub limit : F → F → F → F
  limit lo hi x = let y = if hi ≺ x then hi else x in if y ≺ lo then lo else y

  -- `i_limit`
  abbrev pub integral_limit : Pid F → F
  integral_limit p = fmax (abs p.out_min) (abs p.out_max) ⊘ abs p.ki

  -- the integral after one more error
  unfoldable pub integrate : Pid F → F → F
  integrate p err =
      let sum = p.integral ⊕ err in
      if lit 1 8 ≺ abs p.ki then limit (neg (integral_limit p)) (integral_limit p) sum else sum

  unfoldable pub update : Pid F → F → F → Pid F
  update p setpoint measure =
      let err = setpoint ⊖ measure in
      let deriv = err ⊖ p.prev_err in
      let integral = integrate p err in
      let raw = p.kp ⊗ err ⊕ p.ki ⊗ integral ⊕ p.kd ⊗ deriv in
      record p {
        integral = integral;
        prev_err = err;
        last_setpoint = setpoint;
        last_measure = measure;
        last_error = err;
        last_p = p.kp ⊗ err;
        last_i = p.ki ⊗ integral;
        last_d = p.kd ⊗ deriv;
        last_deriv = deriv;
        last_raw_output = raw;
        last_output = limit p.out_min p.out_max raw;
      }
