-- ===== src/ControlPlane/Jobs/Tests.antt =====
-- crates/control-plane/src/job_store.rs: three events of a job, of which one fills a file.
use simchain.Base.{ℕ, ◌*◌, none, List, [], ◌∷◌, refl, arith, length}
use simchain.ControlPlane.Jobs.{JobEvent}
use simchain.ControlPlane.Jobs.Events.{ReadsBack, read_events-append_events}

abbrev numbered : ℕ → JobEvent ℕ
numbered n = record {
  sequence = n;
  job_id = "job-1";
  timestamp_ms = 10;
  event = "progress";
  phase = "running";
  message = "mined";
  data_value = none;
}

-- every event takes a whole file
abbrev large : List (JobEvent ℕ) → ℕ
large es = length es * 2097152

read_events-append_events_example :
    ReadsBack large "job-1" (numbered 1 ∷ numbered 2 ∷ []) (numbered 3)
read_events-append_events_example =
    read_events-append_events large "job-1" (numbered 1 ∷ numbered 2 ∷ []) (numbered 3) refl
      (refl, (refl, tt)) refl ((omega arith, (omega arith, tt)), ((omega arith, tt), (tt, tt)))
