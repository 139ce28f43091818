-- ===== src/Earthquake.antt =====
-- EARTHQUAKE.cpp of Backup/Adil Project/Documents/EarthQuake_Monitoring_System/
-- Final_code_including_web_server_data_V5: what the program asks of the sensor, and its globals for
-- the calibration. The classes MPU6050 and I2Cdev are not the program's own; `World` stands for the
-- sensor and the clock, and what the program calls is an argument.
pub mod Offsets
pub mod Means
pub mod Ideal
pub mod Settles
pub mod Stuck
pub mod Floats
pub mod Effects
pub mod Report
pub mod Ladder
pub mod Monitor
pub mod Calculate
pub mod Judge
pub mod Watch
pub mod Frame
pub mod Rounds
pub mod Pauses
pub mod Blind
pub mod Runs
use live_streamer.Common.{Bool}
use live_streamer.Common.Int.{ℤ, IsInt16}

-- A value for each of the axes: `mean.x` is `mean_ax`, `offset.z` is `az_offset`.
pub record Axes {ℓ} (A : Type ℓ) : Type ℓ where
  pub x : A
  pub y : A
  pub z : A

pub record Device (World : Type 0) : Type 0 where
  pub initialize : World → World
  pub test_connection : World → Bool × World
  pub set_x_accel_offset : ℤ → World → World
  pub set_y_accel_offset : ℤ → World → World
  pub set_z_accel_offset : ℤ → World → World
  -- `getMotion6`, without the gyroscope, which nothing reads
  pub get_motion : World → Axes ℤ × World
  pub get_acceleration_x : World → ℤ × World
  pub get_acceleration_y : World → ℤ × World
  pub get_acceleration_z : World → ℤ × World
  pub get_temperature : World → ℤ × World
  -- `gettimeofday`: the seconds and the microseconds
  pub gettimeofday : World → (ℤ × ℤ) × World
  -- The results are written through `int16_t *`.
  pub get_motion-IsInt16 :
      (w : World)
      → IsInt16 (get_motion w).0.x × IsInt16 (get_motion w).0.y × IsInt16 (get_motion w).0.z

-- The globals that the calibration reads and writes, beside the sensor.
pub record Sensor (World : Type 0) : Type 0 where
  pub world : World
  pub mean : Axes ℤ
  pub offset : Axes ℤ
