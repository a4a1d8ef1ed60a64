-- ===== src/Examples/WebDemo/Tests/Readings.antt =====
-- Runs and instances of the readings of the CC26xx web demo.
use nsdscourse.Base.{◌≡◌, refl, true, false, arith}
use nsdscourse.Contiki.Mqtt.Text.{codes, decimal}
use nsdscourse.Examples.WebDemo.Server.{pos, negsuc}
use nsdscourse.Examples.WebDemo.Readings.{
  Sample, hundredths, measure, compare_and_update, print_mpu_reading,
}
use nsdscourse.Examples.WebDemo.Readings.Written.{read_hundredths, print_mpu_reading-read}

turning : print_mpu_reading (negsuc 104) ≡ codes "-1.05"
unfolding print_mpu_reading decimal
turning = refl

-- Below zero the point is followed by another sign.
freezing : hundredths (negsuc 149) ≡ codes "-1.-50"
unfolding decimal
freezing = refl

abbrev still : Sample
still = record {
  publish = true;
  raw = pos 0;
  last = pos 7;
  changed = true;
  converted = codes "0.07";
}

same_again : (measure hundredths (pos 7) still).changed ≡ false
unfolding compare_and_update
same_again = refl

print_mpu_reading-read_example : read_hundredths (print_mpu_reading (negsuc 104)) ≡ negsuc 104
print_mpu_reading-read_example = print_mpu_reading-read (negsuc 104) (omega arith)
