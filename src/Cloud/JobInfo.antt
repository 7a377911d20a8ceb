-- ===== src/Cloud/JobInfo.antt =====
-- src/CustomerPrintClientCore/PrintJobInfo.cpp: the description of a job that the server sends. Dates
-- are numbers; their parser, which calls the C library, is a parameter. The price, a float that the
-- module only stores, is left out.
use customer_print_client.Prelude.{
  and_then, ℕ, Bool, false, not, ◌||◌, ◌≡◌, refl, arith, List, [], ◌∷◌, Option, none, some, Text,
  codes, text_eq, ◌==◌, if◌then◌else◌,
}
use customer_print_client.Core.Json.{JsonObject, Numbers, get_boolean, read_string, read_number}

pub data PrintJobStatus : Type 0 where
  created canceled uploaded printing rejected done error : PrintJobStatus

unfoldable pub print_job_status_to_string : PrintJobStatus → Text
print_job_status_to_string created = codes "created"
print_job_status_to_string canceled = codes "canceled"
print_job_status_to_string uploaded = codes "uploaded"
print_job_status_to_string printing = codes "printing"
print_job_status_to_string rejected = codes "rejected"
print_job_status_to_string done = codes "done"
print_job_status_to_string error = codes "error"

unfoldable pub print_job_status_from_string : Text → PrintJobStatus
print_job_status_from_string status =
    if text_eq status (codes "created")
    then created
    else if text_eq status (codes "canceled")
    then canceled
    else if text_eq status (codes "uploaded")
    then uploaded
    else if text_eq status (codes "printing")
    then printing
    else if text_eq status (codes "rejected")
    then rejected
    else if text_eq status (codes "done")
    then done
    else error

abbrev pub status_number : PrintJobStatus → ℕ
status_number created = 0
status_number canceled = 1
status_number uploaded = 2
status_number printing = 3
status_number rejected = 4
status_number done = 5
status_number error = 6

-- The members that JobsDiffers and UpdateJobFromAnother read and write, and the job's id.
pub record PrintJobInfo : Type 0 where
  pub id : Text
  pub access_code : Text
  pub name : Text
  pub update_time : ℕ
  pub office_id : Text
  pub profile_id : Text
  pub status : PrintJobStatus
  pub copies : ℕ
  pub pages_count : ℕ
  pub payed_off : Bool
  pub office_name : Text
  pub currency_symbol : Text

abbrev differ : Bool → Bool → Bool
differ Bool.true b = not b
differ Bool.false b = b

unfoldable pub jobs_differ : PrintJobInfo → PrintJobInfo → Bool
jobs_differ job1 job2 =
    not (job1.update_time == job2.update_time)
    || not (status_number job1.status == status_number job2.status)
    || differ job1.payed_off job2.payed_off

unfoldable pub update_job_from_another : PrintJobInfo → PrintJobInfo → PrintJobInfo
update_job_from_another job1 job2 = record job1 {
  update_time = job2.update_time;
  status = job2.status;
  payed_off = job2.payed_off;
}

abbrev or_default {ℓ} : {A : Type ℓ} → A → Option A → A
or_default a none = a
or_default a (some b) = b

-- The constructor from JSON and `operator bool`: `none` is a job that is not loaded. The reading of
-- a number never fails.
module _ {J N F : Type 0} (json : JsonObject J N) (nums : Numbers N F) (invalid : Text)
    (date : Text → Option ℕ) where
  abbrev text : J → Text → Option Text
  text j k = read_string json invalid j k

  abbrev count : J → Text → ℕ
  count j k = nums.to_count (read_number json nums.nan j k)

  unfoldable pub read_job : J → Option PrintJobInfo
  unfolding print_job_status_from_string read_string read_number
  read_job j = and_then (text j (codes "juid")) λ id.
      and_then (text j (codes "accessCode")) λ access_code. and_then (text j (codes "name")) λ name.
        and_then (text j (codes "timeUpdated")) λ time_updated.
          and_then (date time_updated) λ update_time. and_then (text j (codes "ouid")) λ office_id.
            and_then (text j (codes "puid")) λ profile_id.
              and_then (text j (codes "status")) λ status. some (record {
                id = id;
                access_code = access_code;
                name = name;
                update_time = update_time;
                office_id = office_id;
                profile_id = profile_id;
                status = print_job_status_from_string status;
                copies = count j (codes "copies");
                pages_count = count j (codes "amount");
                payed_off = or_default false (get_boolean json j (codes "payedOff"));
                office_name = or_default [] (text j (codes "officeName"));
                currency_symbol = or_default [] (text j (codes "symbol"));
              })

  -- The loop of AsyncGetJobsList over the body: jobs that are not loaded are skipped, and `none` is
  -- undefined behaviour, for an element that is no object.
  unfoldable pub read_jobs : List (Option J) → Option (List PrintJobInfo)
  unfolding read_job
  read_jobs [] = some []
  read_jobs (j ∷ js) =
      let rest = read_jobs js in
      and_then j λ json_job.
        and_then rest
          λ jobs. elim (read_job json_job) [ none ↦ some jobs | some job ↦ some (job ∷ jobs) ]

-- The name of each status is read back to that status.
pub print_job_status_from_string-to_string :
    (status : PrintJobStatus)
    → print_job_status_from_string (print_job_status_to_string status) ≡ status
unfolding print_job_status_from_string print_job_status_to_string text_eq
print_job_status_from_string-to_string created = refl
print_job_status_from_string-to_string canceled = refl
print_job_status_from_string-to_string uploaded = refl
print_job_status_from_string-to_string printing = refl
print_job_status_from_string-to_string rejected = refl
print_job_status_from_string-to_string done = refl
print_job_status_from_string-to_string error = refl

same : (b : Bool) → differ b b ≡ false
same Bool.true = refl
same Bool.false = refl

-- A job that was updated from another one does not differ from it any more, whatever the two were
-- before, and keeps its own id.
pub update_settles :
    (job1 job2 : PrintJobInfo)
    → (jobs_differ (update_job_from_another job1 job2) job2 ≡ false)
      × ((update_job_from_another job1 job2).id ≡ job1.id)
unfolding jobs_differ update_job_from_another
update_settles job1 job2 = (ground (arith, same job2.payed_off), refl)
