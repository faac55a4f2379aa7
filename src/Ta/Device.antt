-- ===== src/Ta/Device.antt =====
-- A device on which the storage calls do not fail, and parameters, for the tests of the trusted
-- applications.
use frameworks_security.Base.{ℕ, List, [], arith}
use frameworks_security.Tee.{Param, Params}
use frameworks_security.Tee.Memory.{device, open_existing, read}
use frameworks_security.Ta.Laws.{Reliable}

pub device-Reliable : Reliable device
unfolding open_existing read
device-Reliable = record {
  open_ok = λ n f m there. ground arith;
  read_ok = λ h size o m live reads there. ground (arith, m.fresh h);
}

abbrev pub param : ℕ → ℕ → List ℕ → Param
param a b buffer = record { a = a; b = b; buffer = buffer }

abbrev pub blank : Param
blank = param 0 0 []

abbrev pub params : ℕ → ℕ → List ℕ → Params
params a b buffer = record { p0 = param a b []; p1 = param 0 0 buffer; p2 = blank; p3 = blank }
