-- ===== src/Worker/Table/Rows.antt =====
-- Laws of the queries on the table `jobs`.
use mock_vision.Prelude.{
  ℕ, zero, suc, ◌<◌, ◌≡◌, refl, String, Bool, true, false, ◌&&◌, List, [], ◌∷◌, Option, none, some,
  arith, nat_beq, if◌then◌else◌, take, filter, All, All-map, Bool-cases, inl, inr,
}
use mock_vision.Prelude.Int.{ℤ, pos, negsuc}
use mock_vision.Worker.Job.{Status, Row, Update, write_row, same_status, final}
use mock_vision.Worker.Table.{
  get_job, get_open_job_by_key, has_key, open_status, InsertJobParams, new_row, place_row,
  insert_job, update_job, id_taken, limit_rows, list_jobs_by_status,
}

abbrev pub map_row : (Row → Row) → Option Row → Option Row
map_row f none = none
map_row f (some r) = some (f r)

pub get_job-update_job :
    (id : ℕ) (u : Update) (rows : List Row)
    → get_job id (update_job u rows)
      ≡ (if nat_beq u.id id then map_row (write_row u) (get_job id rows) else get_job id rows)
unfolding get_job update_job write_row
get_job-update_job id u [] = ground arith
get_job-update_job id u (r ∷ rs) = ground (arith, get_job-update_job id u rs)

get_job-place_row :
    (id : ℕ) (r : Row) (rows : List Row)
    → id_taken r.id rows ≡ false
    → get_job id (place_row r rows) ≡ (if nat_beq r.id id then some r else get_job id rows)
unfolding get_job place_row
get_job-place_row id r [] h = refl
get_job-place_row id r (s ∷ rs) h = ground (arith, get_job-place_row id r rs)

-- The rows stand in the order of their IDs.
abbrev pub Ascending : List Row → Type 0
Ascending [] = Unit
Ascending (r ∷ rs) = All (λ (s : Row). r.id < s.id) rs × Ascending rs

All-update_job :
    (n : ℕ) (u : Update) (rows : List Row)
    → All (λ (s : Row). n < s.id) rows
    → All (λ (s : Row). n < s.id) (update_job u rows)
unfolding update_job write_row
All-update_job n u [] h = tt
All-update_job n u (r ∷ rs) h = ground (arith, All-update_job n u rs)

pub Ascending-update_job :
    (u : Update) (rows : List Row) → Ascending rows → Ascending (update_job u rows)
unfolding update_job write_row
Ascending-update_job u [] h = tt
Ascending-update_job u (r ∷ rs) h =
    ground (arith, Ascending-update_job u rs, All-update_job r.id u rs)

All-place_row :
    (n : ℕ) (r : Row) (rows : List Row)
    → n < r.id
    → All (λ (s : Row). n < s.id) rows
    → All (λ (s : Row). n < s.id) (place_row r rows)
unfolding place_row
All-place_row n r [] k h = (k, tt)
All-place_row n r (s ∷ rs) k h = ground (arith, All-place_row n r rs)

above :
    (n m : ℕ) (rows : List Row)
    → n < m
    → All (λ (s : Row). m < s.id) rows
    → All (λ (s : Row). n < s.id) rows
above n m rows k h =
    All-map (λ (s : Row). m < s.id) (λ (s : Row). n < s.id) rows (λ s p. omega arith) h

Ascending-place_row :
    (r : Row) (rows : List Row)
    → id_taken r.id rows ≡ false
    → Ascending rows
    → Ascending (place_row r rows)
unfolding place_row
Ascending-place_row r [] f h = (tt, tt)
Ascending-place_row r (s ∷ rs) f h =
    ground (arith, Ascending-place_row r rs, All-place_row s.id r rs, above r.id s.id rs)

abbrev no_rows : Option (List Row) → List Row → List Row
no_rows none rows = rows
no_rows (some rows') rows = rows'

-- A row that is inserted is found, and no other row changes.
pub get_job-insert_job :
    (id : ℕ) (p : InsertJobParams) (rows : List Row) {rows' : List Row}
    → insert_job p rows ≡ some rows'
    → get_job id rows' ≡ (if nat_beq p.id id then some (new_row p) else get_job id rows)
unfolding insert_job
get_job-insert_job id p rows h = ground (arith, get_job-place_row id (new_row p) rows)

pub Ascending-insert_job :
    (p : InsertJobParams) (rows : List Row) {rows' : List Row}
    → insert_job p rows ≡ some rows'
    → Ascending rows
    → Ascending rows'
unfolding insert_job
Ascending-insert_job p rows h a = ground (arith, Ascending-place_row (new_row p) rows)

-- What a listing holds: rows of the table with that status, in the order of their IDs.
abbrev pub Listed : Status → List Row → Row → Type 0
Listed st rows r = (get_job r.id rows ≡ some r) × (same_status r.status st ≡ true)

found_below :
    (r : Row) (rs : List Row) (s : Row)
    → r.id < s.id
    → get_job s.id rs ≡ some s
    → get_job s.id (r ∷ rs) ≡ some s
unfolding get_job
found_below r rs s k h = ground arith

All-both :
    {P Q R : Row → Type 0} (rows : List Row)
    → ((s : Row) → P s → Q s → R s)
    → All P rows
    → All Q rows
    → All R rows
All-both [] f h k = tt
All-both (s ∷ rs) f h k = (f s h.0 k.0, All-both rs f h.1 k.1)

pub All-found :
    (rows : List Row) → Ascending rows → All (λ (s : Row). get_job s.id rows ≡ some s) rows
All-found [] h = tt
All-found (r ∷ rs) h =
    (unfold get_job in ground arith, All-both rs (found_below r rs) h.0 (All-found rs h.1))

All-filter :
    (P : Row → Type 0) (p : Row → Bool) (rows : List Row) → All P rows → All P (filter p rows)
All-filter P p [] h = tt
All-filter P p (r ∷ rs) h = ground (arith, All-filter P p rs)

pub All-filter_pass :
    (P : Row → Type 0) (p : Row → Bool) (rows : List Row)
    → All P rows
    → All (λ (s : Row). P s × (p s ≡ true)) (filter p rows)
All-filter_pass P p [] h = tt
All-filter_pass P p (r ∷ rs) h = elim (Bool-cases (p r)) [
  | inl pass ↦ rw pass ((h.0, pass), All-filter_pass P p rs h.1)
  | inr fail ↦ rw fail (All-filter_pass P p rs h.1)
]

All-take : (P : Row → Type 0) (n : ℕ) (rows : List Row) → All P rows → All P (take n rows)
All-take P zero rows h = tt
All-take P (suc n) [] h = tt
All-take P (suc n) (r ∷ rs) h = (h.0, All-take P n rs h.1)

pub Ascending-filter :
    (p : Row → Bool) (rows : List Row) → Ascending rows → Ascending (filter p rows)
Ascending-filter p [] h = tt
Ascending-filter p (r ∷ rs) h =
    ground (arith, Ascending-filter p rs, All-filter (λ (s : Row). r.id < s.id) p rs)

Ascending-take : (n : ℕ) (rows : List Row) → Ascending rows → Ascending (take n rows)
Ascending-take zero rows h = tt
Ascending-take (suc n) [] h = tt
Ascending-take (suc n) (r ∷ rs) h =
    (All-take (λ (s : Row). r.id < s.id) n rs h.0, Ascending-take n rs h.1)

All-limit_rows :
    (P : Row → Type 0) (limit : ℤ) (rows : List Row) → All P rows → All P (limit_rows limit rows)
All-limit_rows P (pos n) rows h = All-take P n rows h
All-limit_rows P (negsuc n) rows h = h

Ascending-limit_rows :
    (limit : ℤ) (rows : List Row) → Ascending rows → Ascending (limit_rows limit rows)
Ascending-limit_rows (pos n) rows h = Ascending-take n rows h
Ascending-limit_rows (negsuc n) rows h = h

pub listed :
    (st : Status) (limit : ℤ) (rows : List Row)
    → Ascending rows
    → All (Listed st rows) (list_jobs_by_status st limit rows)
      × Ascending (list_jobs_by_status st limit rows)
unfolding list_jobs_by_status
listed st limit rows h =
    let p = λ (r : Row). same_status r.status st in
    (
      All-limit_rows (Listed st rows) limit (filter p rows)
          (All-filter_pass (λ (s : Row). get_job s.id rows ≡ some s) p rows (All-found rows h)),
      Ascending-limit_rows limit (filter p rows) (Ascending-filter p rows h),
    )

pub get_job-id : (id : ℕ) (rows : List Row) {row : Row} → get_job id rows ≡ some row → row.id ≡ id
unfolding get_job
get_job-id id [] h = cc
get_job-id id (r ∷ rs) {row} h = ground (arith, get_job-id id rs {row = row})

get_job-id_taken : (id : ℕ) (rows : List Row) → id_taken id rows ≡ false → get_job id rows ≡ none
unfolding get_job
get_job-id_taken id [] h = refl
get_job-id_taken id (r ∷ rs) h = ground (arith, get_job-id_taken id rs)

-- An insertion that is accepted is of an ID that had no row.
pub get_job-fresh :
    (p : InsertJobParams) (rows : List Row) {rows' : List Row}
    → insert_job p rows ≡ some rows'
    → get_job p.id rows ≡ none
unfolding insert_job
get_job-fresh p rows h = ground (arith, get_job-id_taken p.id rows)

open_found :
    (key : String) (rows : List Row) {row : Row}
    → get_open_job_by_key key rows ≡ some row
    → (n : ℕ) → All (λ (s : Row). n < s.id) rows
    → n < row.id
unfolding get_open_job_by_key
open_found key [] h n a = cc
open_found key (r ∷ rs) {row} h n a =
    elim (Bool-cases (has_key key r.dedupe_key && open_status r.status)) [
      | inl e ↦ ground arith
      | inr e ↦ open_found key rs (rw e at h) n a.1
    ]

-- The open job of a key is the row that its ID finds, and its status is open.
pub get_open_job_by_key-get_job :
    (key : String) (rows : List Row) {row : Row}
    → get_open_job_by_key key rows ≡ some row
    → Ascending rows
    → (get_job row.id rows ≡ some row) × (final row.status ≡ false)
unfolding get_open_job_by_key
get_open_job_by_key-get_job key [] h a = cc
get_open_job_by_key-get_job key (r ∷ rs) {row} h a =
    elim (Bool-cases (has_key key r.dedupe_key && open_status r.status)) [
      | inl e ↦ unfold get_job in ground arith
      | inr e ↦
          let h' : get_open_job_by_key key rs ≡ some row = rw e at h in
          let found = get_open_job_by_key-get_job key rs h' a.1 in
          (found_below r rs row (open_found key rs h' r.id a.0) found.0, found.1)
    ]
