-- ===== src/Cloud/Listings.antt =====
-- The callbacks of src/CustomerPrintClientCore/CloudPrintClient.cpp that read offices and jobs. A
-- success that is `none` is undefined behaviour in the constructors that they call.
use customer_print_client.Prelude.{
  ℕ, ◌⊎◌, inl, inr, Option, none, some, List, Text, codes, and_then,
}
use customer_print_client.Core.Json.{JsonObject, Numbers, get_object, get_array}
use customer_print_client.Cloud.Json.{JsonLib}
use customer_print_client.Cloud.Replies.{Reply, failed_parse, on_success, server_error}
use customer_print_client.Cloud.JobInfo.{PrintJobInfo, read_jobs}
use customer_print_client.Jobs.Types.{Exception}
use customer_print_client.Networking.Http.Response.{HttpResponse}
use customer_print_client.Offices.Offices.{
  PrintOffice, loaded, skipped, undefined, read_office, read_offices,
}

module _ {J N F : Type 0} (lib : JsonLib J) (json : JsonObject J N) (nums : Numbers N F)
    (invalid : Text) where
  -- `contentParsed && content.has<Array>("body")`
  abbrev pub body_array : HttpResponse → Option (List (Option J))
  body_array r = and_then (lib.parse r.content) λ content. get_array json content (codes "body")

  -- `contentParsed && content.has<Object>("body")`
  abbrev pub body_object : HttpResponse → Option J
  body_object r = and_then (lib.parse r.content) λ content. get_object json content (codes "body")

  -- AsyncSearchPrintOffices
  unfoldable pub search_reply : List Text → Reply → Option (List (PrintOffice F)) ⊎ Exception
  unfolding server_error read_offices
  search_reply exclude_keys = on_success lib λ r. elim (body_array r) [
    | none ↦ inr failed_parse
    | some js ↦ inl (read_offices json nums invalid exclude_keys js)
  ]

  -- AsyncGetPrintOffice
  unfoldable pub get_print_office_reply : Reply → Option (PrintOffice F) ⊎ Exception
  unfolding server_error read_office
  get_print_office_reply = on_success lib λ r. elim (body_object r) [
    | none ↦ inr failed_parse
    | some j ↦ elim (read_office json nums invalid j) [
      | loaded o ↦ inl (some o)
      | skipped ↦ inr failed_parse
      | undefined ↦ inl none
    ]
  ]

  -- AsyncGetJobsList
  unfoldable pub get_jobs_list_reply :
      (Text → Option ℕ) → Reply → Option (List PrintJobInfo) ⊎ Exception
  unfolding server_error read_jobs
  get_jobs_list_reply date = on_success lib λ r. elim (body_array r) [
    | none ↦ inr failed_parse
    | some js ↦ inl (read_jobs json nums invalid date js)
  ]
