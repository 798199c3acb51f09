-- ===== src/VersionEdit/Shrinks.antt =====
-- The input that each decoder leaves, and the loop of DecodeFrom.
use bl_nova_lsm.Common.{
  ℕ, zero, suc, ◌≤◌, ◌<◌, ◌≢◌, Option, none, some, List, [], ◌∷◌, ◌>>=◌, length, drop, arith, inl,
  inr, Bool-cases, ◌==◌, leb,
}
use bl_nova_lsm.Common.Sets.{insert}
use bl_nova_lsm.Coding.{
  Bytes, decode_fixed32, decode_fixed64, decode_str, decode_slice, decode_bool,
}
use bl_nova_lsm.Coding.Lists.{decode_all}
use bl_nova_lsm.Range.{decode_range}
use bl_nova_lsm.Subrange.{decode_subrange}
use bl_nova_lsm.Files.{
  FileMetaData, new_file, decode_handle, decode_handles, decode_replica, get_internal_key,
  decode_ids, decode_memtable_ids, decode_replicas, decode_file,
}
use bl_nova_lsm.VersionEdit.{
  VersionEdit, Round, next, bad, abort, Reason, or_bad, or_abort, get_level, read_next_file_number,
  read_last_sequence, read_deleted_file, read_new_file, read_subrange, read_tag, tag_end_edit,
  tag_comparator, tag_next_file_number, tag_last_sequence, tag_deleted_file, tag_new_file,
  tag_update_subrange, bad_next_file_number, bad_last_sequence, bad_deleted_file, bad_new_file,
  clear, out_of_fuel, corruption, aborted, decode_loop, decode_edit,
}

-- A result leaves at most `n` bytes.
abbrev Within : {A : Type 0} → ℕ → Option (A × Bytes) → Type 0
Within n none = Unit {0}
Within n (some (a, rest)) = length rest ≤ n

bind-Within :
    {A B : Type 0} (n : ℕ) (m : Option (A × Bytes)) (k : A × Bytes → Option (B × Bytes))
    → Within n m
    → ((a : A) (rest : Bytes) → length rest ≤ n → Within n (k (a, rest)))
    → Within n (m >>= k)
bind-Within n none k h hk = tt
bind-Within n (some (a, rest)) k h hk = hk a rest h

length-drop-le : (n : ℕ) (xs : Bytes) → length (drop n xs) ≤ length xs
length-drop-le zero xs = omega arith
length-drop-le (suc n) [] = omega arith
length-drop-le (suc n) (x ∷ xs) = omega (arith, length-drop-le n xs)

fixed32-Within : (n : ℕ) (input : Bytes) → length input ≤ n → Within n (decode_fixed32 input)
unfolding decode_fixed32
fixed32-Within n (a ∷ b ∷ c ∷ d ∷ rest) h = omega arith
fixed32-Within n (a ∷ b ∷ c ∷ []) h = tt
fixed32-Within n (a ∷ b ∷ []) h = tt
fixed32-Within n (a ∷ []) h = tt
fixed32-Within n [] h = tt

fixed64-Within : (n : ℕ) (input : Bytes) → length input ≤ n → Within n (decode_fixed64 input)
unfolding decode_fixed64
fixed64-Within n (a ∷ b ∷ c ∷ d ∷ e ∷ f ∷ g ∷ i ∷ rest) h = omega arith
fixed64-Within n (a ∷ b ∷ c ∷ d ∷ e ∷ f ∷ g ∷ []) h = tt
fixed64-Within n (a ∷ b ∷ c ∷ d ∷ e ∷ f ∷ []) h = tt
fixed64-Within n (a ∷ b ∷ c ∷ d ∷ e ∷ []) h = tt
fixed64-Within n (a ∷ b ∷ c ∷ d ∷ []) h = tt
fixed64-Within n (a ∷ b ∷ c ∷ []) h = tt
fixed64-Within n (a ∷ b ∷ []) h = tt
fixed64-Within n (a ∷ []) h = tt
fixed64-Within n [] h = tt

bool-Within : (n : ℕ) (input : Bytes) → length input ≤ n → Within n (decode_bool input)
unfolding decode_bool
bool-Within n [] h = tt
bool-Within n (c ∷ rest) h = elim (Bool-cases (c == b'1')) [
  | inl one ↦ rw one (omega arith)
  | inr other ↦ rw other (elim (Bool-cases (c == b'2')) [
    | inl two ↦ rw two (omega arith)
    | inr none_of_them ↦ rw none_of_them tt
  ])
]

slice-Within : (n : ℕ) (input : Bytes) → length input ≤ n → Within n (decode_slice input)
unfolding decode_slice
slice-Within n input h =
    bind-Within n (decode_fixed32 input) _ (fixed32-Within n input h)
      λ k rest hr. ground (arith, length-drop-le k rest)

str-Within : (n : ℕ) (s input : Bytes) → length input ≤ n → Within n (decode_str s input)
unfolding decode_str
str-Within n s input h =
    bind-Within n (decode_fixed32 input) _ (fixed32-Within n input h)
      λ k rest hr. ground (arith, length-drop-le k rest)

all-Within :
    {A : Type 0} (n : ℕ) (decode : Bytes → Option (A × Bytes))
    → ((input : Bytes) → length input ≤ n → Within n (decode input))
    → (k : ℕ) (input : Bytes) → length input ≤ n
    → Within n (decode_all decode k input)
unfolding decode_all
all-Within n decode each zero input h = h
all-Within n decode each (suc k) input h =
    bind-Within n (decode input) _ (each input h) λ a rest hr.
      bind-Within n (decode_all decode k rest) _ (all-Within n decode each k rest hr)
        λ as' rest' hr'. hr'

range-Within : (n : ℕ) (input : Bytes) → length input ≤ n → Within n (decode_range input)
unfolding decode_range
range-Within n input h = bind-Within n (decode_str [] input) _ (str-Within n [] input h) λ _ i1 h1.
    bind-Within n (decode_str [] i1) _ (str-Within n [] i1 h1) λ _ i2 h2.
      bind-Within n (decode_bool i2) _ (bool-Within n i2 h2) λ _ i3 h3.
        bind-Within n (decode_bool i3) _ (bool-Within n i3 h3)
          λ _ i4 h4. bind-Within n (decode_fixed32 i4) _ (fixed32-Within n i4 h4) λ _ rest hr. hr

subrange-Within : (n : ℕ) (input : Bytes) → length input ≤ n → Within n (decode_subrange input)
unfolding decode_subrange
subrange-Within n input h =
    bind-Within n (decode_fixed32 input) _ (fixed32-Within n input h) λ _ i1 h1.
      bind-Within n (decode_fixed32 i1) _ (fixed32-Within n i1 h1) λ _ i2 h2.
        bind-Within n (decode_fixed32 i2) _ (fixed32-Within n i2 h2) λ k i3 h3.
          bind-Within n (decode_all decode_range k i3) _
            (all-Within n decode_range (range-Within n) k i3 h3) λ _ rest hr. hr

handle-Within : (n : ℕ) (input : Bytes) → length input ≤ n → Within n (decode_handle input)
unfolding decode_handle
handle-Within n input h = elim (Bool-cases (leb 20 (length input))) [
  | inl enough ↦ rw enough (
      bind-Within n (decode_fixed32 input) _ (fixed32-Within n input h) λ _ i1 h1.
        bind-Within n (decode_fixed32 i1) _ (fixed32-Within n i1 h1) λ _ i2 h2.
          bind-Within n (decode_fixed64 i2) _ (fixed64-Within n i2 h2)
            λ _ i3 h3. bind-Within n (decode_fixed32 i3) _ (fixed32-Within n i3 h3) λ _ rest hr. hr)
  | inr short ↦ rw short tt
]

replica-Within : (n : ℕ) (input : Bytes) → length input ≤ n → Within n (decode_replica input)
unfolding decode_replica decode_handles
replica-Within n input h =
    bind-Within n (decode_handle input) _ (handle-Within n input h) λ _ i1 h1.
      bind-Within n (decode_handles i1) _
        (bind-Within n (decode_fixed32 i1) _ (fixed32-Within n i1 h1)
          λ k i2 h2. all-Within n decode_handle (handle-Within n) k i2 h2)
        λ _ rest hr. hr

key-Within : (n : ℕ) (input : Bytes) → length input ≤ n → Within n (get_internal_key input)
unfolding get_internal_key
key-Within n input h =
    bind-Within n (decode_slice input) _ (slice-Within n input h) λ str rest hr. ground arith

ids-Within :
    (n k : ℕ) (ids : List ℕ) (input : Bytes) → length input ≤ n → Within n (decode_ids k ids input)
unfolding decode_ids
ids-Within n zero ids input h = h
ids-Within n (suc k) ids input h =
    bind-Within n (decode_fixed32 input) _ (fixed32-Within n input h)
      λ mid rest hr. ids-Within n k (insert mid ids) rest hr

file-Within :
    (n : ℕ) (f : FileMetaData) (input : Bytes) → length input ≤ n → Within n (decode_file f input)
unfolding decode_file decode_memtable_ids decode_replicas
file-Within n f input h =
    bind-Within n (decode_fixed64 input) _ (fixed64-Within n input h) λ _ i1 h1.
      bind-Within n (decode_fixed64 i1) _ (fixed64-Within n i1 h1) λ _ i2 h2.
        bind-Within n (decode_fixed64 i2) _ (fixed64-Within n i2 h2) λ _ i3 h3.
          bind-Within n (get_internal_key i3) _ (key-Within n i3 h3) λ _ i4 h4.
            bind-Within n (get_internal_key i4) _ (key-Within n i4 h4) λ _ i5 h5.
              bind-Within n (decode_fixed64 i5) _ (fixed64-Within n i5 h5) λ _ i6 h6.
                bind-Within n (decode_fixed32 i6) _ (fixed32-Within n i6 h6) λ _ i7 h7.
                  bind-Within n (decode_memtable_ids f.memtable_ids i7) _
                    (bind-Within n (decode_fixed32 i7) _ (fixed32-Within n i7 h7)
                      λ k r hr. ids-Within n k f.memtable_ids r hr)
                    λ _ i8 h8.
                      bind-Within n (decode_replicas f.block_replica_handles i8) _
                        (bind-Within n (decode_fixed32 i8) _ (fixed32-Within n i8 h8) λ k r hr.
                          bind-Within n (decode_all decode_replica k r) _
                            (all-Within n decode_replica (replica-Within n) k r hr) λ _ q hq. hq)
                        λ _ i9 h9.
                          bind-Within n (decode_handle i9) _ (handle-Within n i9 h9) λ _ rest hr. hr

-- The same for a round of the loop.
abbrev RoundWithin : ℕ → Round → Type 0
RoundWithin n (next e f rest) = length rest ≤ n
RoundWithin n (bad r) = Unit {0}
RoundWithin n abort = Unit {0}

abbrev MaybeWithin : ℕ → Option Round → Type 0
MaybeWithin n none = Unit {0}
MaybeWithin n (some r) = RoundWithin n r

bind_round :
    {A : Type 0} (n : ℕ) (m : Option (A × Bytes)) (k : A × Bytes → Option Round)
    → Within n m
    → ((a : A) (rest : Bytes) → length rest ≤ n → MaybeWithin n (k (a, rest)))
    → MaybeWithin n (m >>= k)
bind_round n none k h hk = tt
bind_round n (some (a, rest)) k h hk = hk a rest h

or_bad_within :
    (n : ℕ) (o : Option Round) (r : Reason) → MaybeWithin n o → RoundWithin n (or_bad o r)
or_bad_within n none r h = tt
or_bad_within n (some x) r h = h

or_abort_within : (n : ℕ) (o : Option Round) → MaybeWithin n o → RoundWithin n (or_abort o)
or_abort_within n none h = tt
or_abort_within n (some x) h = h

level-Within : (n levels : ℕ) (input : Bytes) → length input ≤ n → Within n (get_level levels input)
unfolding get_level
level-Within n levels input h =
    bind-Within n (decode_fixed32 input) _ (fixed32-Within n input h) λ v rest hr. ground arith

module _ (n levels : ℕ) (e : VersionEdit) (f : FileMetaData) (input : Bytes)
    (h : length input ≤ n) where
  next_file_within : MaybeWithin n (read_next_file_number e f input)
  unfolding read_next_file_number
  next_file_within =
      bind_round n (decode_fixed64 input) _ (fixed64-Within n input h) λ _ rest hr. hr

  last_sequence_within : MaybeWithin n (read_last_sequence e f input)
  unfolding read_last_sequence
  last_sequence_within =
      bind_round n (decode_fixed64 input) _ (fixed64-Within n input h) λ _ rest hr. hr

  deleted_file_within : MaybeWithin n (read_deleted_file levels e f input)
  unfolding read_deleted_file
  deleted_file_within =
      bind_round n (get_level levels input) _ (level-Within n levels input h)
        λ _ i1 h1. bind_round n (decode_fixed64 i1) _ (fixed64-Within n i1 h1) λ _ rest hr. hr

  new_file_within : MaybeWithin n (read_new_file levels e f input)
  unfolding read_new_file
  new_file_within =
      bind_round n (get_level levels input) _ (level-Within n levels input h)
        λ _ i1 h1. bind_round n (decode_file f i1) _ (file-Within n f i1 h1) λ _ rest hr. hr

  subrange_round_within : MaybeWithin n (read_subrange e f input)
  unfolding read_subrange
  subrange_round_within =
      bind_round n (decode_subrange input) _ (subrange-Within n input h) λ _ rest hr. hr

  read_tag_within : (tag : ℕ) → RoundWithin n (read_tag levels e f tag input)
  unfolding read_tag
  read_tag_within tag = elim (Bool-cases (tag == tag_comparator)) [
    | inl c ↦ rw c h
    | inr c ↦ rw c (elim (Bool-cases (tag == tag_next_file_number)) [
      | inl d ↦ rw d (or_bad_within n _ bad_next_file_number next_file_within)
      | inr d ↦ rw d (elim (Bool-cases (tag == tag_last_sequence)) [
        | inl g ↦ rw g (or_bad_within n _ bad_last_sequence last_sequence_within)
        | inr g ↦ rw g (elim (Bool-cases (tag == tag_deleted_file)) [
          | inl i ↦ rw i (or_bad_within n _ bad_deleted_file deleted_file_within)
          | inr i ↦ rw i (elim (Bool-cases (tag == tag_new_file)) [
            | inl j ↦ rw j (or_bad_within n _ bad_new_file new_file_within)
            | inr j ↦ rw j (elim (Bool-cases (tag == tag_update_subrange)) [
              | inl k ↦ rw k (or_abort_within n _ subrange_round_within)
              | inr k ↦ rw k tt
            ])
          ])
        ])
      ])
    ])
  ]

after_round :
    (levels fuel n : ℕ) (r : Round)
    → RoundWithin n r
    → ((e : VersionEdit) (f : FileMetaData) (rest : Bytes)
        → length rest ≤ n
        → decode_loop levels fuel e f rest ≢ out_of_fuel)
    → elim r [
      | next e f rest ↦ decode_loop levels fuel e f rest
      | bad reason ↦ corruption reason
      | abort ↦ aborted
    ]
      ≢ out_of_fuel
after_round levels fuel n (next e f rest) h k = k e f rest h
after_round levels fuel n (bad reason) h k = λ q. cc
after_round levels fuel n abort h k = λ q. cc

decode_loop_ends :
    (levels fuel : ℕ) (e : VersionEdit) (f : FileMetaData) (input : Bytes)
    → length input < fuel
    → decode_loop levels fuel e f input ≢ out_of_fuel
unfolding decode_loop
decode_loop_ends levels zero e f input h = absurd (omega arith)
decode_loop_ends levels (suc fuel) e f [] h = λ q. cc
decode_loop_ends levels (suc fuel) e f (tag ∷ rest) h = elim (Bool-cases (tag == tag_end_edit)) [
  | inl last ↦ rw last (λ q. cc)
  | inr more ↦ rw more (
      after_round levels fuel (length rest) (read_tag levels e f tag rest)
        (read_tag_within (length rest) levels e f rest (omega arith) tag)
        λ e' f' rest' h'. decode_loop_ends levels fuel e' f' rest' (omega arith))
]

-- DecodeFrom ends on every input: the rounds that its input allows are enough.
pub decode_edit_ends :
    (levels : ℕ) (e : VersionEdit) (src : Bytes) → decode_edit levels e src ≢ out_of_fuel
unfolding decode_edit
decode_edit_ends levels e src = decode_loop_ends levels _ (clear e) new_file src (omega arith)
