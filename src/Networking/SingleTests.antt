-- ===== src/Networking/SingleTests.antt =====
-- Concrete histories of src/Networking/Http/HttpClient.cpp.
use customer_print_client.Prelude.{
  ℕ, ◌≡◌, refl, arith, false, true, List, [], ◌∷◌, ◌++◌, codes, if◌then◌else◌,
}
use customer_print_client.Networking.Http.Definitions.{get}
use customer_print_client.Networking.Http.Request.{HttpRequest, new_request}
use customer_print_client.Networking.Http.Exchange.{
  failure, operation_aborted, Completion, Exchange, start_exchange,
}
use customer_print_client.Networking.Http.ReadBack.{got}
use customer_print_client.Networking.Http.SingleClient.{
  HttpRequestContext, SingleClient, new_single_client, new_context, SingleEvent, request_posted,
  proc_run, cancel_called, operation_ended, single_run, canceled_callbacks,
}
use customer_print_client.Networking.Http.SingleSteps.{track, in_work}
use customer_print_client.Networking.Http.SingleOrder.{one_in_work, posted_ids, answered_in_order}
use customer_print_client.Networking.Http.SingleCancel.{again, cancelled_is_sent_again}

abbrev request_of : ℕ → HttpRequest
request_of id = new_request id get (codes "/jobs") []

abbrev broken : Completion
broken = record (got []) { error = failure; message = codes "refused" }

abbrev aborted : Completion
aborted = record (got []) { error = operation_aborted }

-- Two requests are posted, and the first fails to resolve, so that it is sent again.
abbrev two_posts : List SingleEvent
two_posts =
    request_posted (request_of 1)
    ∷ request_posted (request_of 2)
    ∷ proc_run
    ∷ operation_ended broken
    ∷ proc_run
    ∷ []

one_in_work_example :
    let c = single_run (new_single_client false (codes "host")) two_posts in
    (in_work c ≡ (if c.is_processing then 1 else 0)) × (c.is_processing ≡ false → c.wait_list ≡ [])
one_in_work_example = one_in_work false (codes "host") two_posts

answered_in_order_example :
    track (single_run (new_single_client false (codes "host")) two_posts) ≡ posted_ids two_posts
answered_in_order_example = answered_in_order false (codes "host") two_posts refl

two_posts_ids : posted_ids two_posts ≡ 1 ∷ 2 ∷ []
unfolding new_request
two_posts_ids = refl

abbrev first_context : HttpRequestContext
first_context = new_context (request_of 1)

abbrev sending_exchange : Exchange
sending_exchange = start_exchange false (codes "host") true

abbrev in_use : SingleClient
in_use = record (new_single_client false (codes "host")) {
  is_processing = true;
  has_socket = true;
  cancellable = true;
  active = (first_context, sending_exchange) ∷ [];
  wait_list = new_context (request_of 2) ∷ [];
}

cancelled_is_sent_again_example :
    let c' = single_run in_use (cancel_called ∷ operation_ended aborted ∷ []) in
    (c'.callbacks ≡ in_use.callbacks ++ canceled_callbacks in_use.wait_list)
    × (c'.posted ≡ again first_context ∷ [])
    × (c'.wait_list ≡ [])
cancelled_is_sent_again_example =
    cancelled_is_sent_again in_use first_context sending_exchange aborted refl
      (unfold new_single_client in refl) (unfold start_exchange in refl) (omega arith) refl
