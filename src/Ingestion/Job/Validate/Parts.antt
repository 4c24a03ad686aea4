-- ===== src/Ingestion/Job/Validate/Parts.antt =====
-- Job.Validate passes exactly where each group of its checks passes.

use manu.Ingestion.Result.{Passed, then-eq-ok, then_ok}
use manu.Ingestion.Job.{Job}
use manu.Ingestion.Job.Validate.{
  validate, validate_names, validate_references, validate_times, validate_lease_fields,
  validate_switch, validate_details,
}

pub record IsValid (j : Job) : Type 0 where
  pub names : Passed (validate_names j)
  pub references : Passed (validate_references j)
  pub times : Passed (validate_times j)
  pub lease : Passed (validate_lease_fields j)
  pub switch : Passed (validate_switch j.state j)
  pub details : Passed (validate_details j)

pub validate→IsValid : (j : Job) → Passed (validate j) → IsValid j
unfolding validate
validate→IsValid j h =
    let (names, h₁) = then-eq-ok (validate_names j) _ h in
    let (references, h₂) = then-eq-ok (validate_references j) _ h₁ in
    let (times, h₃) = then-eq-ok (validate_times j) _ h₂ in
    let (lease, h₄) = then-eq-ok (validate_lease_fields j) _ h₃ in
    let (switch, details) = then-eq-ok (validate_switch j.state j) (validate_details j) h₄ in
    record {
      names = names;
      references = references;
      times = times;
      lease = lease;
      switch = switch;
      details = details;
    }

pub IsValid→validate : (j : Job) → IsValid j → Passed (validate j)
unfolding validate
IsValid→validate j v = then_ok (validate_names j) _ v.names (
    then_ok (validate_references j) _ v.references (
      then_ok (validate_times j) _ v.times (
        then_ok (validate_lease_fields j) _ v.lease
          (then_ok (validate_switch j.state j) (validate_details j) v.switch v.details))))
