-- ===== src/Admission.antt =====
-- novalsm/rdma_admission_ctrl.h and novalsm/rdma_admission_ctrl.cpp: how many RDMA requests an
-- endpoint has pending. The array is a list; `none` is an index out of range or an assertion.
pub mod Bound
mod Examples
use bl_nova_lsm.Common.{
  ℕ, zero, suc, ◌+◌, ◌-◌, Bool, true, false, ◌&&◌, Option, none, some, List, [], ◌∷◌, ltb, leb,
  if◌then◌else◌, ◌>>=◌, ◌>>◌, guard, get_elem?, set_elem,
}

-- RDMAAdmissionCtrl::AddRequests
unfoldable pub add_requests : ℕ → ℕ → List ℕ → Option (List ℕ)
add_requests server_id requests pending = do
  n ← get_elem? pending server_id
  some (set_elem pending server_id (n + requests))

-- RDMAAdmissionCtrl::RemoveRequests
unfoldable pub remove_requests : ℕ → ℕ → List ℕ → Option (List ℕ)
remove_requests server_id requests pending = do
  n ← get_elem? pending server_id
  guard (leb requests n)
  some (set_elem pending server_id (n - requests))

-- RDMAAdmissionCtrl::CanIssueRequest(int), where `max` is the limit of an endpoint.
unfoldable pub can_issue_request : ℕ → ℕ → List ℕ → Option (Bool × List ℕ)
unfolding add_requests
can_issue_request max server_id pending = do
  n ← get_elem? pending server_id
  (if ltb n max
      then (do pending' ← add_requests server_id 1 pending; some (true, pending'))
      else some (false, pending))

-- The first loop of CanIssueRequest(const std::vector<int> &): it goes over all servers.
unfoldable pub all_below_limit : ℕ → List ℕ → List ℕ → Option Bool
all_below_limit max [] pending = some true
all_below_limit max (sid ∷ sids) pending = do
  n ← get_elem? pending sid
  later ← all_below_limit max sids pending
  some (ltb n max && later)

-- The second loop.
unfoldable pub add_to_each : List ℕ → List ℕ → Option (List ℕ)
unfolding add_requests
add_to_each [] pending = some pending
add_to_each (sid ∷ sids) pending = do
  pending' ← add_requests sid 1 pending
  add_to_each sids pending'

-- RDMAAdmissionCtrl::CanIssueRequest(const std::vector<int> &)
unfoldable pub can_issue_requests : ℕ → List ℕ → List ℕ → Option (Bool × List ℕ)
unfolding all_below_limit add_to_each
can_issue_requests max server_ids pending = do
  success ← all_below_limit max server_ids pending
  (if success
      then (do pending' ← add_to_each server_ids pending; some (true, pending'))
      else some (false, pending))
