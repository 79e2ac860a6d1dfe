-- ===== src/Probes/Feedback.antt =====
-- server/src/measurements.rs: the counts that a measurement probe's feedback carries.
use netpoke.Probes.Floats.{Floats}
