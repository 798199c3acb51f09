-- ===== src/Admission/Examples.antt =====
-- Three endpoints with a limit of two.
use bl_nova_lsm.Common.{ℕ, ◌+◌, ◌≤◌, ◌≡◌, refl, true, some, List, [], ◌∷◌, get_elem?, All, arith}
use bl_nova_lsm.Admission.{can_issue_requests}
use bl_nova_lsm.Admission.Bound.{can_issue_requests-limit, can_issue_requests-times, times}

granted_two : can_issue_requests 2 (0 ∷ 2 ∷ []) (1 ∷ 2 ∷ 0 ∷ []) ≡ some (true, 2 ∷ 2 ∷ 1 ∷ [])
unfolding can_issue_requests
granted_two = refl

can_issue_requests-limit_example : All (λ n. n ≤ 2) (2 ∷ 2 ∷ 1 ∷ [])
can_issue_requests-limit_example =
    can_issue_requests-limit 2 (0 ∷ 2 ∷ []) (1 ∷ 2 ∷ 0 ∷ []) (2 ∷ 2 ∷ 1 ∷ []) true
      (((λ e. absurd (omega (arith, e))), tt), (tt, tt))
      (omega arith, (omega arith, (omega arith, tt))) granted_two

-- The endpoint 0 has room for one and is named twice: it ends above the limit.
can_issue_requests-times_example :
    (pending' : List ℕ) × (can_issue_requests 2 (0 ∷ 0 ∷ []) (1 ∷ 2 ∷ []) ≡ some (true, pending'))
    × ((sid n : ℕ)
        → get_elem? (1 ∷ 2 ∷ []) sid ≡ some n
        → get_elem? pending' sid ≡ some (n + times sid (0 ∷ 0 ∷ [])))
can_issue_requests-times_example =
    can_issue_requests-times 2 (0 ∷ 0 ∷ []) (1 ∷ 2 ∷ [])
      ((1, refl, omega arith), ((1, refl, omega arith), tt))
