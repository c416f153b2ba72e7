-- ===== src/Attendance/Marks.antt =====
-- What the approval of a leave does to the attendance sheet.
use crossbill_back.Base.{
  ℕ, zero, suc, ◌+◌, ◌-◌, ◌≤◌, ◌≡◌, refl, sym, ap, ◌∙◌, inl, inr, true, false, List, [], ◌∷◌, some,
  arith, Memᴰ, find?, modify_first, upsert_first, Bool-cases, Option-cases, leb, ◌==◌, length,
}
use crossbill_back.Base.Updates.{find?-modify_first, find?-modify_first_ne, find?-holds}
use crossbill_back.Base.Http.{ok}
use crossbill_back.Mongo.{Mongo}
use crossbill_back.Audit.{DocId}
use crossbill_back.Attendance.Defs.{
  leave, pending, Attendance, Leave, Decision, approve, refuse, Store, walk, each_date,
  days_between, record_of, scoped_leave, outcome, on_leave, blank_record,
}
use crossbill_back.Attendance.Handlers.{mark_days, decide_leave}

walk-Memᴰ : (fuel d end x : ℕ) → suc end ≤ d + fuel → d ≤ x → x ≤ end → Memᴰ x (walk fuel d end)
walk-Memᴰ zero d end x h lo hi = absurd (omega arith)
walk-Memᴰ (suc fuel) d end x h lo hi = elim (Bool-cases (leb d end)) [
  | inr n ↦ absurd (ground arith)
  | inl y ↦ elim (Bool-cases (d == x)) [
    | inl e ↦ rw y (Memᴰ.head (ground arith))
    | inr n ↦ rw y (Memᴰ.tail (walk-Memᴰ fuel (suc d) end x (omega arith) (ground arith) hi))
  ]
]

length-walk : (fuel d end : ℕ) → suc end ≡ d + fuel → length (walk fuel d end) ≡ fuel
length-walk zero d end h = refl
length-walk (suc fuel) d end h = elim (Bool-cases (leb d end)) [
  | inr n ↦ absurd (ground arith)
  | inl y ↦ rw y (omega (arith, length-walk fuel (suc d) end (omega arith)))
]

-- The sheet shows the employee on leave on a day.
abbrev pub OnLeave : DocId → DocId → ℕ → List Attendance → Type 0
OnLeave org employee d xs =
    (a : Attendance) × (find? (record_of org employee d) xs ≡ some a) × (a.status ≡ leave)

module _ (db : Mongo) (org employee : DocId) where
  abbrev marked : ℕ → List Attendance → List Attendance
  marked d xs = (db.upsert (record_of org employee d) on_leave (blank_record org employee d) xs).1

  marked-eq :
      (d : ℕ) (xs : List Attendance)
      → marked d xs
        ≡ (upsert_first (record_of org employee d) on_leave (blank_record org employee d) xs).1
  marked-eq d xs =
      ap (λ r. r.1)
        (db.upsert_lem (record_of org employee d) on_leave (blank_record org employee d) xs)

  mark-OnLeave : (d : ℕ) (xs : List Attendance) → OnLeave org employee d (marked d xs)
  mark-OnLeave d xs = elim (Option-cases (find? (record_of org employee d) xs)) [
    | inl e ↦ (on_leave (blank_record org employee d), ground (arith, marked-eq d xs), refl)
    | inr (a, e) ↦ (
      on_leave a,
      ground (
        arith,
        marked-eq d xs,
        find?-modify_first (record_of org employee d) on_leave xs e
            (find?-holds (record_of org employee d) xs e),
      ),
      refl,
    )
  ]

  other_day :
      (d x : ℕ) (a : Attendance)
      → ((d == x) ≡ false)
      → record_of org employee d a ≡ true
      → (record_of org employee x a ≡ false) × (record_of org employee x (on_leave a) ≡ false)
  other_day d x a n h = ground arith

  mark_other :
      (d x : ℕ) (xs : List Attendance)
      → ((d == x) ≡ false)
      → find? (record_of org employee x) (marked d xs) ≡ find? (record_of org employee x) xs
  mark_other d x xs n = elim (Option-cases (find? (record_of org employee d) xs)) [
    | inl e ↦ ground (arith, marked-eq d xs)
    | inr (a, e) ↦ ground (
      arith,
      marked-eq d xs,
      find?-modify_first_ne (record_of org employee d) (record_of org employee x) on_leave xs
          (λ b h. other_day d x b n h),
    )
  ]

  mark-keeps :
      (d x : ℕ) (xs : List Attendance)
      → OnLeave org employee x xs
      → OnLeave org employee x (marked d xs)
  mark-keeps d x xs (a, e, l) = elim (Bool-cases (d == x)) [
    | inl y ↦ let q : x ≡ d = ground arith in rw q (mark-OnLeave d xs)
    | inr n ↦ (a, mark_other d x xs n ∙ e, l)
  ]

  marks-keep :
      (ds : List ℕ) (x : ℕ) (xs : List Attendance)
      → OnLeave org employee x xs
      → OnLeave org employee x (mark_days db org employee ds xs)
  marks-keep [] x xs h = h
  marks-keep (d ∷ ds) x xs h = marks-keep ds x (marked d xs) (mark-keeps d x xs h)

  marks-OnLeave :
      (ds : List ℕ) (x : ℕ) (xs : List Attendance)
      → Memᴰ x ds
      → OnLeave org employee x (mark_days db org employee ds xs)
  marks-OnLeave [] x xs m = elim m [ ]
  marks-OnLeave (d ∷ ds) x xs (Memᴰ.head e) =
      marks-keep ds x (marked d xs) (rw e (mark-OnLeave d xs))
  marks-OnLeave (d ∷ ds) x xs (Memᴰ.tail m) = marks-OnLeave ds x (marked d xs) m

module _ (db : Mongo) (now org i : DocId) (decision : Decision) (approver : DocId) (s : Store) where
  -- A decision that goes through found a pending leave of the organisation and settles it: its status
  -- on file is the decision, with who took it and when, and no other leave is written. Approved, every day from its first to its last shows the employee on leave, one
  -- record for each day; refused, the attendance sheet stays as it was.
  pub decide_leave-marks :
      {r : Leave × Store}
      → decide_leave db now org i decision approver s ≡ ok r
      → (old : Leave) × (find? (scoped_leave org i) s.leaves ≡ some old)
        × (old.status ≡ pending)
        × (r.0.status ≡ outcome decision)
        × (r.0.approver_id ≡ some approver)
        × (r.0.decided_at ≡ some now)
        × (r.1.leaves ≡ modify_first (scoped_leave org i) (λ _. r.0) s.leaves)
        × (decision ≡ approve
            → (d : ℕ) → old.from ≤ d
            → d ≤ old.to
            → OnLeave org old.employee_id d r.1.attendance)
        × (old.from ≤ old.to → length (each_date old.from old.to) ≡ days_between old.from old.to)
        × (decision ≡ refuse → r.1.attendance ≡ s.attendance)
  unfolding decide_leave
  decide_leave-marks {r} h = elim (Option-cases (db.find_one (scoped_leave org i) s.leaves)) [
    | inl e ↦ ground arith
    | inr (old, e) ↦ (
      old,
      sym (db.find_one_lem (scoped_leave org i) s.leaves) ∙ e,
      ground arith,
      ground arith,
      ground arith,
      ground arith,
      ground (arith, db.update_one_lem (scoped_leave org i) (λ _. r.0) s.leaves),
      λ yes d lo hi.
          let sheet : r.1.attendance
              ≡ mark_days db org old.employee_id (each_date old.from old.to) s.attendance =
            ground arith in
          rw sheet (
            marks-OnLeave db org old.employee_id (each_date old.from old.to) d s.attendance
              (walk-Memᴰ (suc old.to - old.from) old.from old.to d (omega arith) lo hi)),
      λ le. omega (arith, length-walk (suc old.to - old.from) old.from old.to (omega arith)),
      λ no. ground arith,
    )
  ]
