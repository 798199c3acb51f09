-- ===== src/Admission/Bound.antt =====
-- The limit on the pending requests of an endpoint.
use bl_nova_lsm.Common.{
  ℕ, zero, suc, ◌+◌, ◌≤◌, ◌<◌, ◌≡◌, ◌≢◌, refl, ap, Bool, true, false, ◌&&◌, Option, none, some,
  List, [], ◌∷◌, ltb, ◌==◌, sym, Bool-cases, inl, inr, if◌then◌else◌, ◌>>=◌, get_elem?, set_elem,
  All, arith,
}
use mathlib.Core.Path.{subst, ◌∙◌}
use mathlib.Core.Option.{some-injective}
use bl_nova_lsm.Common.Ordered.{Ordered}
use bl_nova_lsm.Admission.{add_requests, all_below_limit, add_to_each, can_issue_requests}

get-set_elem : (xs : List ℕ) (i j y : ℕ) → i ≢ j → get_elem? (set_elem xs i y) j ≡ get_elem? xs j
get-set_elem [] i j y h = refl
get-set_elem (x ∷ xs) zero zero y h = absurd (h refl)
get-set_elem (x ∷ xs) zero (suc j) y h = refl
get-set_elem (x ∷ xs) (suc i) zero y h = refl
get-set_elem (x ∷ xs) (suc i) (suc j) y h = get-set_elem xs i j y (λ e. h (ap suc e))

All-set_elem_below :
    (max : ℕ) (xs : List ℕ) (i y : ℕ)
    → All (λ n. n ≤ max) xs
    → y ≤ max
    → All (λ n. n ≤ max) (set_elem xs i y)
All-set_elem_below max [] i y h k = tt
All-set_elem_below max (x ∷ xs) zero y h k = (k, h.1)
All-set_elem_below max (x ∷ xs) (suc i) y h k = (h.0, All-set_elem_below max xs i y h.1 k)

-- The endpoint is in the array and below its limit.
abbrev pub HasRoom : ℕ → List ℕ → ℕ → Type 0
HasRoom max pending sid = (n : ℕ) × (get_elem? pending sid ≡ some n) × (n < max)

test_head :
    (max : ℕ) (o : Option ℕ) (later : Option Bool)
    → ◌>>=◌ {B = Bool} o (λ n. ◌>>=◌ {B = Bool} later (λ l. some (ltb n max && l))) ≡ some true
    → ((n : ℕ) × (o ≡ some n) × (n < max)) × (later ≡ some true)
test_head max none later h = absurd (cc)
test_head max (some n) none h = absurd (cc)
test_head max (some n) (some false) h =
    let test : (ltb n max && false) ≡ true = some-injective _ _ h in absurd (ground (arith, test))
test_head max (some n) (some true) h =
    let test : (ltb n max && true) ≡ true = some-injective _ _ h in
    ((n, refl, ground (arith, test)), refl)

room_of_test :
    (max : ℕ) (sids pending : List ℕ)
    → all_below_limit max sids pending ≡ some true
    → All (HasRoom max pending) sids
unfolding all_below_limit
room_of_test max [] pending h = tt
room_of_test max (sid ∷ sids) pending h =
    let (room, later) =
      test_head max (get_elem? pending sid) (all_below_limit max sids pending) h in
    (room, room_of_test max sids pending later)

room_elsewhere :
    (max sid y : ℕ) (sids pending : List ℕ)
    → All (λ s. sid ≢ s) sids
    → All (HasRoom max pending) sids
    → All (HasRoom max (set_elem pending sid y)) sids
room_elsewhere max sid y [] pending d h = tt
room_elsewhere max sid y (s ∷ sids) pending d h =
    let (n, e, l) = h.0 in
    ((n, get-set_elem pending sid s y d.0 ∙ e, l), room_elsewhere max sid y sids pending d.1 h.1)

add_to_each-below :
    (max : ℕ) (sids pending pending' : List ℕ)
    → Ordered ◌≢◌ sids
    → All (HasRoom max pending) sids
    → All (λ n. n ≤ max) pending
    → add_to_each sids pending ≡ some pending'
    → All (λ n. n ≤ max) pending'
unfolding add_to_each add_requests
add_to_each-below max [] pending pending' d room w =
    λ h. subst (All (λ n. n ≤ max)) (some-injective _ _ h) w
add_to_each-below max (sid ∷ sids) pending pending' d room w =
    let (n, e, l) = room.0 in
    rw e (
      add_to_each-below max sids (set_elem pending sid (n + 1)) pending' d.1
        (room_elsewhere max sid (n + 1) sids pending d.0 room.1)
        (All-set_elem_below max pending sid (n + 1) w (omega arith)))

issued :
    (max : ℕ) (sids pending pending' : List ℕ) (b : Bool) (o : Option Bool)
    → all_below_limit max sids pending ≡ o
    → Ordered ◌≢◌ sids
    → All (λ n. n ≤ max) pending
    → ◌>>=◌ {B = Bool × List ℕ} o (λ success.
      if success
      then ◌>>=◌ {B = Bool × List ℕ} (add_to_each sids pending) (λ p. some (true, p))
      else some (false, pending))
      ≡ some (b, pending')
    → All (λ n. n ≤ max) pending'
issued max sids pending pending' b none e d w h = absurd (cc)
issued max sids pending pending' b (some false) e d w h =
    subst (All (λ n. n ≤ max)) (ap (λ p. p.1) (some-injective _ _ h)) w
issued max sids pending pending' b (some true) e d w h = added (add_to_each sids pending) refl h
  where
    added :
        (o : Option (List ℕ))
        → add_to_each sids pending ≡ o
        → ◌>>=◌ {B = Bool × List ℕ} o (λ p. some (true, p)) ≡ some (b, pending')
        → All (λ n. n ≤ max) pending'
    added none e' h' = absurd (cc)
    added (some p) e' h' =
        subst (All (λ n. n ≤ max)) (ap (λ x. x.1) (some-injective _ _ h'))
          (add_to_each-below max sids pending p d (room_of_test max sids pending e) w e')

-- A request to several different servers, granted or not, leaves every endpoint within its limit if
-- all were before.
pub can_issue_requests-limit :
    (max : ℕ) (server_ids pending pending' : List ℕ) (granted : Bool)
    → Ordered ◌≢◌ server_ids
    → All (λ n. n ≤ max) pending
    → can_issue_requests max server_ids pending ≡ some (granted, pending')
    → All (λ n. n ≤ max) pending'
unfolding can_issue_requests
can_issue_requests-limit max sids pending pending' granted d w =
    issued max sids pending pending' granted (all_below_limit max sids pending) refl d w

get-set_same :
    (xs : List ℕ) (i x y : ℕ) → get_elem? xs i ≡ some x → get_elem? (set_elem xs i y) i ≡ some y
get-set_same [] i x y e = absurd (cc)
get-set_same (z ∷ zs) zero x y e = refl
get-set_same (z ∷ zs) (suc i) x y e = get-set_same zs i x y e

-- How often the server is named.
abbrev pub times : ℕ → List ℕ → ℕ
times sid [] = 0
times sid (s ∷ sids) = (if s == sid then 1 else 0) + times sid sids

-- The endpoint is in the array.
abbrev InArray : List ℕ → ℕ → Type 0
InArray pending sid = (n : ℕ) × (get_elem? pending sid ≡ some n)

all_below_limit-HasRoom :
    (max : ℕ) (sids pending : List ℕ)
    → All (HasRoom max pending) sids
    → all_below_limit max sids pending ≡ some true
unfolding all_below_limit
all_below_limit-HasRoom max [] pending h = refl
all_below_limit-HasRoom max (sid ∷ sids) pending h =
    let (n, e, l) = h.0 in
    let room : ltb n max ≡ true = ground arith in
    rw (e, all_below_limit-HasRoom max sids pending h.1, room) refl

after_one :
    (pending : List ℕ) (sid n s m : ℕ)
    → get_elem? pending sid ≡ some n
    → get_elem? pending s ≡ some m
    → get_elem? (set_elem pending sid (n + 1)) s ≡ some (m + (if sid == s then 1 else 0))
after_one pending sid n s m e f = elim (Bool-cases (sid == s)) [
  | inl same ↦
      let at : sid ≡ s = ground arith in
      let eq : n ≡ m = some-injective n m (sym e ∙ (ap (get_elem? pending) at ∙ f)) in
      rw same (
        subst (λ i. get_elem? (set_elem pending sid (n + 1)) i ≡ some (m + 1)) at
          (get-set_same pending sid n (n + 1) e ∙ ap (λ k. some (k + 1)) eq))
  | inr other ↦
      let apart : sid ≢ s = λ e'. absurd (ground (arith, e', other)) in
      let more : m ≡ m + 0 = omega arith in
      rw other (get-set_elem pending sid s (n + 1) apart ∙ (f ∙ ap some more))
]

add_to_each-times :
    (sids pending : List ℕ)
    → All (InArray pending) sids
    → (pending' : List ℕ) × (add_to_each sids pending ≡ some pending')
      × ((s m : ℕ) → get_elem? pending s ≡ some m → get_elem? pending' s ≡ some (m + times s sids))
unfolding add_to_each add_requests
add_to_each-times [] pending h =
    (pending, refl, λ s m e. let more : m ≡ m + 0 = omega arith in e ∙ ap some more)
add_to_each-times (sid ∷ sids) pending h =
    let (n, e) = h.0 in
    let (pending', added, counted) =
      add_to_each-times sids (set_elem pending sid (n + 1)) (still n e sids h.1) in
    rw e (
      pending',
      added,
      λ s m f.
          let total : m + (if sid == s then 1 else 0) + times s sids
              ≡ m + ((if sid == s then 1 else 0) + times s sids) =
            omega arith in
          counted s (m + (if sid == s then 1 else 0)) (after_one pending sid n s m e f)
          ∙ ap some total,
    )
  where
    still :
        (n : ℕ)
        → get_elem? pending sid ≡ some n
        → (sids : List ℕ) → All (InArray pending) sids
        → All (InArray (set_elem pending sid (n + 1))) sids
    still n e [] k = tt
    still n e (s ∷ ss) k =
        let (m, f) = k.0 in ((_, after_one pending sid n s m e f), still n e ss k.1)

in_array :
    (max : ℕ) (pending sids : List ℕ) → All (HasRoom max pending) sids → All (InArray pending) sids
in_array max pending [] h = tt
in_array max pending (s ∷ ss) h = let (n, e, l) = h.0 in ((n, e), in_array max pending ss h.1)

-- A request to servers of which each has room for one is granted, however often a server is named,
-- and each endpoint of the array gets as many pending requests more as it is named times.
pub can_issue_requests-times :
    (max : ℕ) (server_ids pending : List ℕ)
    → All (HasRoom max pending) server_ids
    → (pending' : List ℕ) × (can_issue_requests max server_ids pending ≡ some (true, pending'))
      × ((sid n : ℕ)
          → get_elem? pending sid ≡ some n
          → get_elem? pending' sid ≡ some (n + times sid server_ids))
unfolding can_issue_requests
can_issue_requests-times max sids pending room =
    let (pending', added, counted) =
      add_to_each-times sids pending (in_array max pending sids room) in
    (pending', rw (all_below_limit-HasRoom max sids pending room, added) refl, counted)
